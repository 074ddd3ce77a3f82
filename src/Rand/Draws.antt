-- ===== src/Rand/Draws.antt =====
-- Generators: how a run on a list of raw random numbers ends, and the rules for their properties.
use buzzer.Common.{ℕ, ◌≡◌, refl, List, Option, none, some, Bool, true, false, if◌then◌else◌}

-- A value with the raw numbers that are left, or a panic. `starved` is no outcome of the program: the
-- list of raw numbers, or the fuel of a loop, was too short to see the end of the run.
pub data Drawn {ℓ} (A : Type ℓ) : Type ℓ where
  drew : A → List ℕ → Drawn A
  starved : Drawn A
  panicked : Drawn A

abbrev pub Gen {ℓ} : Type ℓ → Type ℓ
Gen A = List ℕ → Drawn A

abbrev pub give {ℓ} : {A : Type ℓ} → A → Gen A
give a ds = drew a ds

abbrev pub fail {ℓ} : {A : Type ℓ} → Gen A
fail ds = panicked

abbrev pub or_fail {ℓ} : {A : Type ℓ} → Option A → Gen A
or_fail none = fail
or_fail (some a) = give a

abbrev pub resume {ℓ κ} : {A : Type ℓ} {B : Type κ} → (A → Gen B) → Drawn A → Drawn B
resume k (drew a ds) = k a ds
resume k starved = starved
resume k panicked = panicked

infixl 5 ◌>>=◌
abbrev pub ◌>>=◌ {ℓ κ} : {A : Type ℓ} {B : Type κ} → Gen A → (A → Gen B) → Gen B
(m >>= k) ds = resume k (m ds)

-- A run that does not panic, and whose value, if it has one, satisfies `P`.
pub data Sound {ℓ κ} {A : Type ℓ} (P : A → Type κ) : Drawn A → Type (ℓ ⊔ κ) where
  sound : {a : A} {ds : List ℕ} → P a → Sound P (drew a ds)
  unfinished : Sound P starved

-- Every run of the generator is sound.
abbrev pub Yields {ℓ κ} : {A : Type ℓ} → (A → Type κ) → Gen A → Type (ℓ ⊔ κ)
Yields P m = (ds : List ℕ) → Sound P (m ds)

module _ {ℓ κ} {A : Type ℓ} {P : A → Type κ} where
  pub Yields-give : {a : A} → P a → Yields P (give a)
  Yields-give p ds = sound p

  Sound-resume {ℓ' κ'} :
      {B : Type ℓ'} {Q : B → Type κ'} {r : Drawn A} {k : A → Gen B}
      → Sound P r
      → ((a : A) → P a → Yields Q (k a))
      → Sound Q (resume k r)
  Sound-resume (sound {ds = ds} p) f = f _ p ds
  Sound-resume unfinished f = unfinished

  pub Yields-bind {ℓ' κ'} :
      {B : Type ℓ'} {Q : B → Type κ'} {m : Gen A} {k : A → Gen B}
      → Yields P m
      → ((a : A) → P a → Yields Q (k a))
      → Yields Q (m >>= k)
  Yields-bind y f ds = Sound-resume (y ds) f

  pub Yields-if :
      {m n : Gen A} (b : Bool)
      → (b ≡ true → Yields P m)
      → (b ≡ false → Yields P n)
      → Yields P (if b then m else n)
  Yields-if true f g = f refl
  Yields-if false f g = g refl

  Sound-map {κ'} : {Q : A → Type κ'} {r : Drawn A} → Sound P r → ((a : A) → P a → Q a) → Sound Q r
  Sound-map (sound p) f = sound (f _ p)
  Sound-map unfinished f = unfinished

  pub Yields-map {κ'} :
      {Q : A → Type κ'} {m : Gen A} → Yields P m → ((a : A) → P a → Q a) → Yields Q m
  Yields-map y f ds = Sound-map (y ds) f

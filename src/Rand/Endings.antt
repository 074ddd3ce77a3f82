-- ===== src/Rand/Endings.antt =====
-- Total generators: those that return whenever enough raw numbers are left.
use buzzer.Common.{
  ℕ, zero, suc, ◌+◌, ◌-◌, ◌%◌, ◌^◌, ◌≤◌, ◌<◌, arith, List, [], ◌∷◌, Bool, true, false,
  if◌then◌else◌, length, get_elem?, All, ◌≡◌, refl,
}
use buzzer.Common.Words.{IsU64}
use buzzer.Rand.{intn, int63, special_ints, rand_range, n_out_of, rand_int_tail, rand_int}
use buzzer.Rand.Draws.{Gen, Drawn, drew, give, resume, or_fail, ◌>>=◌}

-- A value that satisfies `P`, with at least `n` raw numbers left.
pub data Returns {ℓ κ} {A : Type ℓ} (P : A → Type κ) (n : ℕ) : Drawn A → Type (ℓ ⊔ κ) where
  returns : {a : A} {ds : List ℕ} → P a → n ≤ length ds → Returns P n (drew a ds)

-- The generator takes at most `k` raw numbers, and returns a value that satisfies `P`.
abbrev pub Ends {ℓ κ} : {A : Type ℓ} → (A → Type κ) → ℕ → Gen A → Type (ℓ ⊔ κ)
Ends P k m = (n : ℕ) (ds : List ℕ) → n + k ≤ length ds → Returns P n (m ds)

module _ {ℓ κ} {A : Type ℓ} {P : A → Type κ} where
  pub Ends-give : {a : A} (k : ℕ) → P a → Ends P k (give a)
  Ends-give k p n ds h = returns p (omega arith)

  Returns-resume {ℓ' κ'} :
      {B : Type ℓ'} {Q : B → Type κ'} {r : Drawn A} {f : A → Gen B} (n k : ℕ)
      → Returns P (n + k) r
      → ((a : A) → P a → Ends Q k (f a))
      → Returns Q n (resume f r)
  Returns-resume n k (returns {ds = ds} p h) g = g _ p n ds h

  pub Ends-bind {ℓ' κ'} :
      {B : Type ℓ'} {Q : B → Type κ'} {m : Gen A} {f : A → Gen B} (j k : ℕ)
      → Ends P j m
      → ((a : A) → P a → Ends Q k (f a))
      → Ends Q (j + k) (m >>= f)
  Ends-bind j k e g n ds h = Returns-resume n k (e (n + k) ds (omega arith)) g

  pub Ends-if :
      {m m' : Gen A} (k : ℕ) (b : Bool)
      → (b ≡ true → Ends P k m)
      → (b ≡ false → Ends P k m')
      → Ends P k (if b then m else m')
  Ends-if k true f g = f refl
  Ends-if k false f g = g refl

pub intn-Ends : (n : ℕ) → 0 < n → n < 2 ^ 63 → Ends (λ v. v < n) 1 (intn n)
unfolding intn
intn-Ends n p q l [] h = absurd (omega arith)
intn-Ends n p q l (d ∷ ds) h = grind (arith, returns)

int63-Ends : Ends (λ v. v < 2 ^ 63) 1 int63
unfolding int63
int63-Ends l [] h = absurd (omega arith)
int63-Ends l (d ∷ ds) h = returns (omega arith) (omega arith)

one_in_ten : Ends (λ b. Unit {0}) 1 (n_out_of 1 10)
unfolding n_out_of
one_in_ten = Ends-bind 1 0 (intn-Ends 10 (omega arith) (omega arith)) λ v h. Ends-give 0 tt

three_in_ten : Ends (λ b. Unit {0}) 1 (n_out_of 3 10)
unfolding n_out_of
three_in_ten = Ends-bind 1 0 (intn-Ends 10 (omega arith) (omega arith)) λ v h. Ends-give 0 tt

get_elem?-Ends {κ} :
    (P : ℕ → Type κ) (k : ℕ) (xs : List ℕ)
    → All P xs
    → (i : ℕ) → i < length xs
    → Ends P k (or_fail (get_elem? xs i))
get_elem?-Ends P k [] a i h = absurd (omega arith)
get_elem?-Ends P k (x ∷ xs) (a, rest) zero h = Ends-give k a
get_elem?-Ends P k (x ∷ xs) (a, rest) (suc i) h = get_elem?-Ends P k xs rest i (omega arith)

-- RandInt takes at most six raw numbers, and returns a uint64 whenever six are left.
pub rand_int-Ends : Ends IsU64 6 rand_int
unfolding rand_int rand_int_tail
rand_int-Ends = Ends-bind 1 5 int63-Ends λ v h. Ends-bind 1 4 three_in_ten λ special _.
    Ends-if 4 special
      (λ _.
        Ends-bind 1 3 (intn-Ends 37 (omega arith) (omega arith))
          (get_elem?-Ends IsU64 3 special_ints (omega arith)))
      λ _. Ends-bind 1 3 one_in_ten λ byte _.
        Ends-if 3 byte (λ _. Ends-give 3 (omega arith))
          λ _. Ends-bind 1 2 one_in_ten λ short _.
            Ends-if 2 short (λ _. Ends-give 2 (omega arith))
              λ _. Ends-bind 1 1 one_in_ten λ positive _.
                Ends-if 1 positive (λ _. Ends-give 1 (omega arith))
                  λ _. Ends-bind 1 0 one_in_ten λ negative _.
                    Ends-if 0 negative (λ _. Ends-give 0 (omega arith))
                      λ _. Ends-give 0 (omega arith)

-- RandRange takes one raw number, and where one is left returns a number between its arguments. This holds
-- where the first is at most the second, and the second is below 2 ^ 63 - 1.
pub rand_range-Ends :
    (begin end : ℕ)
    → begin ≤ end
    → end + 1 < 2 ^ 63
    → Ends (λ v. (begin ≤ v) × (v ≤ end)) 1 (rand_range begin end)
unfolding rand_range
rand_range-Ends begin end p q =
    Ends-bind 1 0 (intn-Ends ((end + 2 ^ 64 - begin + 1) % 2 ^ 64) (omega arith) (omega arith))
      λ v h. Ends-give 0 (omega arith)

-- ===== src/Common/Arrays.antt =====
-- Entries of a slice read with a default, exchanged, and counted as a multiset.
use Prim.Native.Nat.{ℕ, zero, suc, ◌<◌, ◌≤◌}
use mathlib.Core.Path.{◌≡◌, refl, ap, ◌∙◌}
use mathlib.Core.Logic.{∥∥₁_elim, inl, inr}
use mathlib.Core.List.{
  List, [], ◌∷◌, ◌++◌, Perm, Permᴰ, Mem, perm_append_singleton, not-mem-nil, forall_mem-cons,
}
use mathlib.Core.List.Perm
use mathlib.Core.Option.{some}
use native.Mathlib.Omega.{arith}
use native.Mathlib.Nat.{ℕ_set}
use native.Mathlib.Bridge.{le_prop}
use buzzer.Common.Tests.{◌==◌, if◌then◌else◌, Bool-cases}
use buzzer.Common.Lists.{length, get_elem?, set, take, length-set}

module _ {ℓ} {A : Type ℓ} where
  unfoldable pub get_or : List A → ℕ → A → A
  get_or [] i d = d
  get_or (x ∷ xs) zero d = x
  get_or (x ∷ xs) (suc i) d = get_or xs i d

  same_length : {xs ys : List A} → Permᴰ xs ys → length xs ≡ length ys
  same_length Permᴰ.nil = refl
  same_length (Permᴰ.cons _ p) = ap suc (same_length p)
  same_length (Permᴰ.swap _ _) = refl
  same_length (Permᴰ.trans p q) = same_length p ∙ same_length q

  pub length-perm : {xs ys : List A} → Perm xs ys → length xs ≡ length ys
  length-perm p = ∥∥₁_elim p (ℕ_set _ _) same_length

module _ {ℓ} {A : Type ℓ} (d : A) where
  pub get_elem?-get_or :
      (xs : List A) (i : ℕ) → i < length xs → get_elem? xs i ≡ some (get_or xs i d)
  unfolding get_or
  get_elem?-get_or [] i h = absurd (omega arith)
  get_elem?-get_or (x ∷ xs) zero h = refl
  get_elem?-get_or (x ∷ xs) (suc i) h = get_elem?-get_or xs i (omega arith)

  pub get_or-set :
      (xs : List A) (i j : ℕ) (v : A)
      → i < length xs
      → get_or (set xs i v) j d ≡ (if i == j then v else get_or xs j d)
  unfolding get_or
  get_or-set [] i j v h = absurd (omega arith)
  get_or-set (x ∷ xs) zero zero v h = refl
  get_or-set (x ∷ xs) (suc i) (suc j) v h = ground (arith, get_or-set xs i j v)
  get_or-set (x ∷ xs) i j v h = ground arith

  pub get_or-append :
      (xs ys : List A) (i : ℕ) → i < length xs → get_or (xs ++ ys) i d ≡ get_or xs i d
  unfolding get_or
  get_or-append [] ys i h = absurd (omega arith)
  get_or-append (x ∷ xs) ys zero h = refl
  get_or-append (x ∷ xs) ys (suc i) h = get_or-append xs ys i (omega arith)

  pub get_or-last : (xs : List A) (x : A) → get_or (xs ++ x ∷ []) (length xs) d ≡ x
  unfolding get_or
  get_or-last [] x = refl
  get_or-last (y ∷ xs) x = get_or-last xs x

  pub get_or-take : (n : ℕ) (xs : List A) (i : ℕ) → i < n → get_or (take n xs) i d ≡ get_or xs i d
  unfolding get_or
  get_or-take zero xs i h = absurd (omega arith)
  get_or-take (suc n) [] i h = refl
  get_or-take (suc n) (x ∷ xs) zero h = refl
  get_or-take (suc n) (x ∷ xs) (suc i) h = get_or-take n xs i (omega arith)

  -- All entries but the last, and the last.
  pub take-append-last :
      (n : ℕ) (xs : List A) → length xs ≡ suc n → take n xs ++ get_or xs n d ∷ [] ≡ xs
  unfolding get_or
  take-append-last zero (x ∷ []) h = refl
  take-append-last (suc n) (x ∷ xs) h = ap (◌∷◌ x) (take-append-last n xs (omega arith))
  take-append-last n xs h = absurd (omega arith)

  pub last-perm : (n : ℕ) (xs : List A) → length xs ≡ suc n → Perm (get_or xs n d ∷ take n xs) xs
  last-perm n xs h =
      let whole = perm_append_singleton (get_or xs n d) (take n xs) in
      Perm.symm (rw (take-append-last n xs h) at whole)

  -- A write exchanges the old entry for the new one.
  set-perm :
      (xs : List A) (i : ℕ) (v : A) → i < length xs → Perm (get_or xs i d ∷ set xs i v) (v ∷ xs)
  unfolding get_or
  set-perm [] i v h = absurd (omega arith)
  set-perm (x ∷ xs) zero v h = Perm.swap v x xs
  set-perm (x ∷ xs) (suc i) v h =
      let rest = Perm.cons x (set-perm xs i v (omega arith)) in
      Perm.trans (Perm.swap x _ _) (Perm.trans rest (Perm.swap v x xs))

  -- `xs[i], xs[j] = xs[j], xs[i]`
  unfoldable pub exchange : List A → ℕ → ℕ → List A
  exchange xs i j = set (set xs i (get_or xs j d)) j (get_or xs i d)

  pub length-exchange : (xs : List A) (i j : ℕ) → length (exchange xs i j) ≡ length xs
  unfolding exchange
  length-exchange xs i j = simp length-set

  module _ (xs : List A) (i j : ℕ) (hi : i < length xs) (hj : j < length xs) where
    pub get_or-exchange :
        (c : ℕ)
        → get_or (exchange xs i j) c d
          ≡ (if j == c then get_or xs i d else if i == c then get_or xs j d else get_or xs c d)
    unfolding exchange
    get_or-exchange c = rw (
      get_or-set (set xs i (get_or xs j d)) j c (get_or xs i d) (rw length-set hj),
      get_or-set xs i c (get_or xs j d) hi,
    )

    -- Each entry stood somewhere before.
    pub exchange-origin :
        (c : ℕ)
        → c < length xs
        → (e : ℕ) × (e < length xs) × (get_or (exchange xs i j) c d ≡ get_or xs e d)
    exchange-origin c hc =
        let at = get_or-exchange c in
        elim (Bool-cases (j == c)) [
          | inl e ↦ (i, hi, ground (arith, at))
          | inr n ↦ elim (Bool-cases (i == c)) [
            | inl e ↦ (j, hj, ground (arith, at))
            | inr m ↦ (c, hc, ground (arith, at))
          ]
        ]

    pub exchange-perm : Perm (exchange xs i j) xs
    unfolding exchange
    exchange-perm =
        let once = set xs i (get_or xs j d) in
        let same : get_or once j d ≡ get_or xs j d =
          ground (arith, get_or-set xs i j (get_or xs j d)) in
        let twice = rw same at (set-perm once j (get_or xs i d) (rw length-set hj)) in
        Perm.cons_inv (Perm.trans twice (set-perm xs i (get_or xs j d) hi))

  -- What holds at each index holds of each member.
  pub mem-le :
      (f : A → ℕ) (xs : List A) (b : ℕ)
      → ((i : ℕ) → i < length xs → f (get_or xs i d) ≤ b)
      → (x : A) → Mem x xs
      → f x ≤ b
  unfolding get_or
  mem-le f [] b h = λ x m. absurd (not-mem-nil m)
  mem-le f (x ∷ xs) b h =
      (forall_mem-cons λ y. le_prop).1
        (h 0 (omega arith), mem-le f xs b λ i p. h (suc i) (omega arith))

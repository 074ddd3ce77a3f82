-- ===== src/Common/Maps.antt =====
-- Go maps as association lists, for a test of keys.
use Prim.Native.Nat.{ℕ}
use mathlib.Core.Path.{◌≡◌, refl, sym, ◌∙◌}
use mathlib.Core.List.{List, [], ◌∷◌}
use mathlib.Core.Bool.{Bool, true, false}
use mathlib.Core.Option.{Option, none, some}
use mathlib.Core.Logic.{inl, inr, ◌↔◌}
use buzzer.Common.Tests.{◌==◌, if◌then◌else◌, Bool-cases, ==_iff}

module _ {ℓ κ} {K : Type ℓ} {V : Type κ} (same : K → K → Bool) where
  abbrev pub find : List (K × V) → K → Option V
  find [] k = none
  find ((j, v) ∷ m) k = if same j k then some v else find m k

  -- `m[k] = v`
  unfoldable pub assign : List (K × V) → K → V → List (K × V)
  assign [] k v = (k, v) ∷ []
  assign ((j, w) ∷ m) k v = if same j k then (j, v) ∷ m else (j, w) ∷ assign m k v

-- What is found after an assignment, where the test is that of equality.
module _ {ℓ} {K : Type ℓ} (same : K → K → Bool)
    (same_iff : (j k : K) → (same j k ≡ true) ↔ (j ≡ k)) where
  apart : (i k j : K) → same i k ≡ false → same i j ≡ true → same k j ≡ false
  apart i k j e d = elim (Bool-cases (same k j)) [
    | inl f ↦
        let both : same i k ≡ true =
          (same_iff i k).1 ((same_iff i j).0 d ∙ sym ((same_iff k j).0 f)) in
        let clash : true ≡ false = sym both ∙ e in cc
    | inr f ↦ f
  ]

  pub find-assigned {κ} :
      {V : Type κ} (m : List (K × V)) (k : K) (v : V) (j : K)
      → find same (assign same m k v) j ≡ (if same k j then some v else find same m j)
  unfolding assign
  find-assigned [] k v j = refl
  find-assigned ((i, w) ∷ m) k v j = elim (Bool-cases (same i k)) [
    | inl e ↦
        rw (e, (same_iff i k).0 e)
          (elim (Bool-cases (same k j)) [ inl d ↦ rw d refl | inr d ↦ rw d refl ])
    | inr e ↦
        rw (e, find-assigned m k v j)
          (elim (Bool-cases (same i j)) [
            | inl d ↦ rw (d, apart i k j e d) refl
            | inr d ↦ rw d refl
          ])
  ]

pub find-assign {ℓ} :
    {V : Type ℓ} (m : List (ℕ × V)) (k : ℕ) (v : V) (j : ℕ)
    → find ◌==◌ (assign ◌==◌ m k v) j ≡ (if k == j then some v else find ◌==◌ m j)
find-assign = find-assigned ◌==◌ ==_iff

-- ===== src/Strategies/CoverageBased/Tables.antt =====
-- The two tables of the strategy, as OnVerifyDone fills them.
use buzzer.Common.{
  ℕ, ◌≡◌, refl, ap, ◌∙◌, arith, List, [], ◌∷◌, Bool, true, false, not, ◌&&◌, ◌||◌, Bool-cases, inl,
  inr, if◌then◌else◌,
}
use buzzer.Strategies.CoverageBased.{has, record_addresses}

-- Every address is a key of the table.
abbrev pub has_all : List ℕ → List ℕ → Bool
has_all table [] = true
has_all table (addr ∷ addrs) = has table addr && has_all table addrs

has-head : (k : ℕ) (ks : List ℕ) → has (k ∷ ks) k ≡ true
has-head k ks = ground arith

has-tail : (j k : ℕ) (ks : List ℕ) → has ks k ≡ true → has (j ∷ ks) k ≡ true
has-tail j k ks h = ground arith

module _ (addr : ℕ) (addrs table : List ℕ) (b : Bool) where
  record_addresses-seen :
      has table addr ≡ true
      → record_addresses (addr ∷ addrs) table b ≡ record_addresses addrs table b
  unfolding record_addresses
  record_addresses-seen e = rw e refl

  record_addresses-unseen :
      has table addr ≡ false
      → record_addresses (addr ∷ addrs) table b ≡ record_addresses addrs (addr ∷ table) true
  unfolding record_addresses
  record_addresses-unseen e = rw e refl

record_addresses-nil : (table : List ℕ) (b : Bool) → record_addresses [] table b ≡ (table, b)
unfolding record_addresses
record_addresses-nil table b = refl

record_addresses-keeps :
    (addrs table : List ℕ) (b : Bool) (k : ℕ)
    → has table k ≡ true
    → has (record_addresses addrs table b).0 k ≡ true
record_addresses-keeps [] table b k h = rw (record_addresses-nil table b) h
record_addresses-keeps (addr ∷ addrs) table b k h = elim (Bool-cases (has table addr)) [
  | inl e ↦
      rw (record_addresses-seen addr addrs table b e) (record_addresses-keeps addrs table b k h)
  | inr e ↦
      rw (record_addresses-unseen addr addrs table b e)
        (record_addresses-keeps addrs (addr ∷ table) true k (has-tail addr k table h))
]

and_both : {a b : Bool} → a ≡ true → b ≡ true → (a && b) ≡ true
and_both e d = rw (e, d) refl

pub record_addresses-has_all :
    (addrs table : List ℕ) (b : Bool) → has_all (record_addresses addrs table b).0 addrs ≡ true
record_addresses-has_all [] table b = refl
record_addresses-has_all (addr ∷ addrs) table b = elim (Bool-cases (has table addr)) [
  | inl e ↦
      ap (λ (r : List ℕ × Bool). has_all r.0 (addr ∷ addrs))
        (record_addresses-seen addr addrs table b e)
      ∙ and_both (record_addresses-keeps addrs table b addr e)
          (record_addresses-has_all addrs table b)
  | inr e ↦
      ap (λ (r : List ℕ × Bool). has_all r.0 (addr ∷ addrs))
        (record_addresses-unseen addr addrs table b e)
      ∙ and_both (record_addresses-keeps addrs (addr ∷ table) true addr (has-head addr table))
          (record_addresses-has_all addrs (addr ∷ table) true)
]

and_left : (a b : Bool) → (a && b) ≡ true → a ≡ true
and_left true b e = refl
and_left false b e = e

and_right : (a b : Bool) → (a && b) ≡ true → b ≡ true
and_right true b e = e
and_right false b e = absurd (ground arith)

-- A table that has all the addresses does not change.
record_addresses-again :
    (addrs table : List ℕ) (b : Bool)
    → has_all table addrs ≡ true
    → record_addresses addrs table b ≡ (table, b)
record_addresses-again [] table b h = record_addresses-nil table b
record_addresses-again (addr ∷ addrs) table b h =
    record_addresses-seen addr addrs table b (and_left (has table addr) _ h)
    ∙ record_addresses-again addrs table b (and_right (has table addr) _ h)

or_false : (b : Bool) → b ≡ (b || false)
or_false true = refl
or_false false = refl

or_true : (b : Bool) → true ≡ (b || true)
or_true true = refl
or_true false = refl

pub record_addresses-flag :
    (addrs table : List ℕ) (b : Bool)
    → (record_addresses addrs table b).1 ≡ (b || not (has_all table addrs))
record_addresses-flag [] table b = rw (record_addresses-nil table b) (or_false b)
record_addresses-flag (addr ∷ addrs) table b = elim (Bool-cases (has table addr)) [
  | inl e ↦ rw (record_addresses-seen addr addrs table b e, e) (record_addresses-flag addrs table b)
  | inr e ↦
      rw (record_addresses-unseen addr addrs table b e, e)
        (record_addresses-flag addrs (addr ∷ table) true ∙ or_true b)
]

pub has-recorded :
    (k : ℕ) (table : List ℕ) → has (if not (has table k) then k ∷ table else table) k ≡ true
has-recorded k table = elim (Bool-cases (has table k)) [
  | inl e ↦ rw e e
  | inr e ↦ rw e (has-head k table)
]

-- What is in the tables stays in them.
pub has_all-keeps :
    (keys addrs table : List ℕ) (b : Bool)
    → has_all table keys ≡ true
    → has_all (record_addresses addrs table b).0 keys ≡ true
has_all-keeps [] addrs table b h = refl
has_all-keeps (k ∷ keys) addrs table b h =
    and_both (record_addresses-keeps addrs table b k (and_left (has table k) _ h))
      (has_all-keeps keys addrs table b (and_right (has table k) _ h))

pub has-keeps :
    (j k : ℕ) (table : List ℕ)
    → has table k ≡ true
    → has (if not (has table j) then j ∷ table else table) k ≡ true
has-keeps j k table h = elim (Bool-cases (has table j)) [
  | inl e ↦ rw e h
  | inr e ↦ rw e (has-tail j k table h)
]

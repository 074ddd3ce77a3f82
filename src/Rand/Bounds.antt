-- ===== src/Rand/Bounds.antt =====
-- The ranges of the random choices, and that none of them panics where the fuzzer makes it.
use buzzer.Common.{
  ℕ, zero, suc, ◌+◌, ◌-◌, ◌%◌, ◌^◌, ◌≤◌, ◌<◌, arith, List, [], ◌∷◌, leb, ◌||◌, ◌==◌, length,
  get_elem?, All,
}
use buzzer.Common.Words.{IsU64}
use buzzer.Rand.{intn, int63, special_ints, rand_range, one_of, n_out_of, rand_int_tail, rand_int}
use buzzer.Rand.Draws.{Yields, sound, unfinished, Yields-give, Yields-bind, Yields-if, or_fail}

pub intn-lt : (n : ℕ) → 0 < n → n < 2 ^ 63 → Yields (λ v. v < n) (intn n)
unfolding intn
intn-lt n p q [] = grind (arith, unfinished)
intn-lt n p q (d ∷ ds) = grind (arith, sound)

int63-lt : Yields (λ v. v < 2 ^ 63) int63
unfolding int63
int63-lt [] = unfinished
int63-lt (d ∷ ds) = sound (omega arith)

-- RandRange(begin, end) lies between its arguments, and does not panic, where the range is not empty
-- and its size is an int.
pub rand_range_bounds :
    (begin end : ℕ)
    → begin ≤ end
    → end + 1 < 2 ^ 63
    → Yields (λ v. (begin ≤ v) × (v ≤ end)) (rand_range begin end)
unfolding rand_range
rand_range_bounds begin end p q =
    Yields-bind (intn-lt ((end + 2 ^ 64 - begin + 1) % 2 ^ 64) (omega arith) (omega arith))
      λ v h. Yields-give (omega arith)

pub one_of-total : (n : ℕ) → 0 < n → n < 2 ^ 63 → Yields (λ b. Unit {0}) (one_of n)
unfolding one_of
one_of-total n p q = Yields-bind (intn-lt n p q) λ v h. Yields-give tt

n_out_of-total : (n m : ℕ) → 0 < n → n < m → m < 2 ^ 63 → Yields (λ b. Unit {0}) (n_out_of n m)
unfolding n_out_of
n_out_of-total n m p q r =
    Yields-if (n == 0 || leb m n) (λ e. absurd (ground arith))
      λ e. Yields-bind (intn-lt m (omega arith) r) λ v h. Yields-give tt

-- An index below the length finds an element.
pub get_elem?-Yields {κ} :
    (P : ℕ → Type κ) (xs : List ℕ)
    → All P xs
    → (i : ℕ) → i < length xs
    → Yields P (or_fail (get_elem? xs i))
get_elem?-Yields P [] a i h = absurd (omega arith)
get_elem?-Yields P (x ∷ xs) (a, rest) zero h = Yields-give a
get_elem?-Yields P (x ∷ xs) (a, rest) (suc i) h = get_elem?-Yields P xs rest i (omega arith)

-- RandInt is a uint64 on every run, and never panics.
pub rand_int-IsU64 : Yields IsU64 rand_int
unfolding rand_int rand_int_tail
rand_int-IsU64 = Yields-bind int63-lt λ v h.
    Yields-bind (n_out_of-total 3 10 (omega arith) (omega arith) (omega arith)) λ special _.
      Yields-if special
        (λ _.
          Yields-bind (intn-lt 37 (omega arith) (omega arith))
            (get_elem?-Yields IsU64 special_ints (omega arith)))
        λ _. Yields-bind (one_in_ten) λ byte _.
          Yields-if byte (λ _. Yields-give (omega arith))
            λ _. Yields-bind (one_in_ten) λ short _.
              Yields-if short (λ _. Yields-give (omega arith))
                λ _. Yields-bind (one_in_ten) λ positive _.
                  Yields-if positive (λ _. Yields-give (omega arith))
                    λ _. Yields-bind (one_in_ten) λ negative _.
                      Yields-if negative (λ _. Yields-give (omega arith))
                        λ _. Yields-give (omega arith)
  where
    one_in_ten : Yields (λ b. Unit {0}) (n_out_of 1 10)
    one_in_ten = n_out_of-total 1 10 (omega arith) (omega arith) (omega arith)

-- ===== src/Rand.antt =====
-- pkg/rand/rand.go: the random choices of the fuzzer.
-- A generator is given the raw numbers that math/rand will produce, as a list, and uses them up in
-- order: Intn and Int63 take one each and reduce it to their range.
pub mod Draws
pub mod Bounds
pub mod Endings
mod Tests
use buzzer.Common.{
  ℕ, ◌+◌, ◌-◌, ◌*◌, ◌%◌, ◌^◌, List, [], ◌∷◌, Option, none, some, Bool, true, false, ◌||◌, ltb, leb,
  ◌==◌, if◌then◌else◌, length, get_elem?,
}
use buzzer.Common.Words.{to_u64}
use buzzer.Rand.Draws.{Gen, Drawn, drew, starved, panicked, give, fail, or_fail, ◌>>=◌}

-- rand.Rand.Intn: it panics if its argument, an int, is not positive.
unfoldable pub intn : ℕ → Gen ℕ
intn n [] = if n == 0 || leb (2 ^ 63) n then panicked else starved
intn n (d ∷ ds) = if n == 0 || leb (2 ^ 63) n then panicked else drew (d % n) ds

-- rand.Rand.Int63
unfoldable pub int63 : Gen ℕ
int63 [] = starved
int63 (d ∷ ds) = drew (d % 2 ^ 63) ds

abbrev pub special_ints : List ℕ
special_ints =
    0
    ∷ 1
    ∷ 31
    ∷ 32
    ∷ 63
    ∷ 64
    ∷ 127
    ∷ 128
    ∷ 129
    ∷ 255
    ∷ 256
    ∷ 257
    ∷ 511
    ∷ 512
    ∷ 1023
    ∷ 1024
    ∷ 1025
    ∷ 2047
    ∷ 2048
    ∷ 4095
    ∷ 4096
    ∷ (2 ^ 15 - 1)
    ∷ 2 ^ 15
    ∷ (2 ^ 15 + 1)
    ∷ (2 ^ 16 - 1)
    ∷ 2 ^ 16
    ∷ (2 ^ 16 + 1)
    ∷ (2 ^ 31 - 1)
    ∷ 2 ^ 31
    ∷ (2 ^ 31 + 1)
    ∷ (2 ^ 32 - 1)
    ∷ 2 ^ 32
    ∷ (2 ^ 32 + 1)
    ∷ (2 ^ 63 - 1)
    ∷ 2 ^ 63
    ∷ (2 ^ 63 + 1)
    ∷ (2 ^ 64 - 1)
    ∷ []

-- RandRange, in the arithmetic of uint64.
unfoldable pub rand_range : ℕ → ℕ → Gen ℕ
rand_range begin end = do v ← intn (to_u64 (end + 2 ^ 64 - begin + 1)); give (to_u64 (begin + v))

unfoldable pub one_of : ℕ → Gen Bool
one_of n = do v ← intn n; give (v == 0)

unfoldable pub n_out_of : ℕ → ℕ → Gen Bool
n_out_of n out_of = if n == 0 || leb out_of n then fail else (do v ← intn out_of; give (ltb v n))

-- The last cases of RandInt's switch.
unfoldable pub rand_int_tail : ℕ → Gen ℕ
unfolding n_out_of
rand_int_tail v = do
  short ← n_out_of 1 10
  if short then give (v % (64 * 2 ^ 10)) else do
    positive ← n_out_of 1 10
    if positive
        then give (v % 2 ^ 31)
        else do negative ← n_out_of 1 10; if negative then give (to_u64 (2 ^ 64 - v)) else give v

unfoldable pub rand_int : Gen ℕ
unfolding int63 intn n_out_of rand_int_tail
rand_int = do
  v ← int63
  special ← n_out_of 3 10
  if special
      then (do i ← intn (length special_ints); or_fail (get_elem? special_ints i))
      else do byte ← n_out_of 1 10; if byte then give (v % 256) else rand_int_tail v

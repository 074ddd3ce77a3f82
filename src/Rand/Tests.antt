-- ===== src/Rand/Tests.antt =====
-- The random choices at concrete arguments.
use buzzer.Common.{◌≡◌, refl, [], ◌∷◌}
use buzzer.Rand.{intn, rand_range, int63, n_out_of, rand_int, rand_int_tail}
use buzzer.Rand.Draws.{drew, panicked}

rand_range-draw : rand_range 1 100 (250 ∷ 7 ∷ []) ≡ drew 51 (7 ∷ [])
unfolding rand_range intn
rand_range-draw = refl

-- The whole range of a uint64 has no size that Intn takes.
rand_range-whole : rand_range 0 0xffff_ffff_ffff_ffff (1 ∷ []) ≡ panicked
unfolding rand_range intn
rand_range-whole = refl

-- A special number, the third of the list.
rand_int-special : rand_int (5 ∷ 2 ∷ 39 ∷ []) ≡ drew 31 []
unfolding rand_int int63 n_out_of intn rand_int_tail
rand_int-special = refl

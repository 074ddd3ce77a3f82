-- ===== src/Cbpf/Generators/Tests.antt =====
-- The random jumps at a concrete maximum.
use buzzer.Common.{◌≡◌, refl, arith, [], ◌∷◌, ◌*◌, ◌^◌, ◌-◌}
use buzzer.Cbpf.Generators.{random_jmp_instruction}
use buzzer.Cbpf.Generators.Ranges.{IsCbpfJmp, random_jmp_instruction-IsCbpfJmp}
use buzzer.Cbpf.Generators.Offsets.{alignment_for_size, nonzero_offset, align, random_offset}
use buzzer.Rand.{rand_int, int63, intn, n_out_of, rand_int_tail}
use buzzer.Rand.Draws.{Yields, drew}

random_jmp_instruction-IsCbpfJmp_example : Yields (IsCbpfJmp 998) (random_jmp_instruction 998)
random_jmp_instruction-IsCbpfJmp_example =
    random_jmp_instruction-IsCbpfJmp 998 (omega arith) (omega arith)

-- A halfword at -3, which the loop moves to -4.
offset_of_three : random_offset 0x08 (3 ∷ 9 * 2 ^ 32 ∷ 0 ∷ []) ≡ drew (2 ^ 16 - 4) []
unfolding rand_int int63 intn n_out_of rand_int_tail random_offset nonzero_offset align
    alignment_for_size
offset_of_three = refl

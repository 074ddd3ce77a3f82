-- ===== src/Ebpf/Generators/Tests.antt =====
-- The generators' theorems at concrete arguments, and runs of the generators.
use buzzer.Common.{◌-◌, ◌^◌, ◌≡◌, refl, arith, [], ◌∷◌, inr}
use buzzer.Ebpf.Generators.{align, random_jmp_instruction, conditional_op, is_conditional}
use buzzer.Ebpf.Generators.Offsets.{align-rounded}
use buzzer.Ebpf.Generators.Jumps.{IsRandomJmp, random_jmp_instruction-IsRandomJmp}
use buzzer.Ebpf.Generators.Endings.{conditional_op-first}
use buzzer.Rand.Draws.{Yields, drew}

random_jmp_instruction-IsRandomJmp_example : Yields (IsRandomJmp 999) (random_jmp_instruction 999)
random_jmp_instruction-IsRandomJmp_example =
    random_jmp_instruction-IsRandomJmp 999 (omega arith) (omega arith)

align-rounded_example : align 8 0x18 (2 ^ 16 - 13) (7 ∷ []) ≡ drew (2 ^ 16 - 16) (7 ∷ [])
align-rounded_example =
    align-rounded 0x18 (2 ^ 16 - 13) (7 ∷ []) (inr (inr (inr refl))) (omega arith) (omega arith)
      (omega arith)

-- Ja, Call and Exit are drawn before Jle.
conditional_op-first_example : conditional_op 5 (0 ∷ 8 ∷ 9 ∷ 11 ∷ []) ≡ drew 0xb0 []
unfolding is_conditional
conditional_op-first_example =
    conditional_op-first (0 ∷ 8 ∷ 9 ∷ []) 11 [] (refl, (refl, (refl, tt))) refl

-- ===== src/Cbpf/Encoding/Tests.antt =====
-- The encoding of classic BPF at concrete instructions.
use buzzer.Common.{◌≡◌, refl, ◌↔◌, List, [], ◌∷◌, map, All}
use buzzer.Cbpf.{Instruction, reg, reg_a, reg_x}
use buzzer.Cbpf.Alu.{ret, misc}
use buzzer.Cbpf.Jmp.{jmp_ja, new_jmp_instruction}
use buzzer.Cbpf.Encoding.{encode_cbpf_instructions, encode_filter}
use buzzer.Cbpf.Encoding.Lossless.{Fits, decode_filter, encode_cbpf_instructions-lossless}
use buzzer.Cbpf.Encoding.Opcodes.{filter}

-- A program with an offset that does not fit.
abbrev far : List Instruction
far =
    record { opcode = 0x15; jt = 0; jf = 300; k = 0 }
    ∷ record { opcode = 6; jt = 0; jf = 0; k = 4 }
    ∷ []

encode_cbpf_instructions-lossless_example :
    (map decode_filter (encode_cbpf_instructions far) ≡ far) ↔ All Fits far
encode_cbpf_instructions-lossless_example = encode_cbpf_instructions-lossless far

-- The return of A has the kernel's opcode 0x16; this is the one of a return of X, which it refuses.
ret-reg : encode_filter (ret (reg reg_a)) ≡ filter 0x0e 0 0 0
unfolding ret
ret-reg = refl

misc-tax : encode_filter (misc reg_a) ≡ filter 0x07 0 0 0
unfolding misc
misc-tax = refl

misc-txa : encode_filter (misc reg_x) ≡ filter 0x87 0 0 1
unfolding misc
misc-txa = refl

-- The kernel takes the distance of an unconditional jump from K, which is 0 whatever the argument.
jmp_ja-distance : encode_filter (jmp_ja 5) ≡ filter 0x05 5 0 0
unfolding jmp_ja new_jmp_instruction
jmp_ja-distance = refl

-- ===== src/Ebpf/Assembly/Tests.antt =====
-- Runs of the constructors, and their theorems at concrete arguments.
use buzzer.Common.{ℕ, ◌≡◌, ◌≢◌, ◌⊎◌, refl, arith, [], ◌∷◌, some, All, false, true}
use buzzer.Common.Run.{ok, panic}
use buzzer.Ebpf.{Instruction, int, int64}
use buzzer.Ebpf.AluOp
use buzzer.Ebpf.Alu.{new_alu_instruction, mov64, add64}
use buzzer.Ebpf.StLd.{ld_map_by_fd}
use buzzer.Ebpf.Assembly.{assemble}
use buzzer.Ebpf.Assembly.AluJmp.{
  AluAssembles, JmpAssembles, alu_table, jmp_table, alu_table-assembles, jmp_table-assembles,
}
use buzzer.Ebpf.Assembly.Memory.{
  SizeAssembles, AtomicAssembles, size_table, atomic_table, size_table-assembles,
  atomic_table-assembles,
}
use buzzer.Ebpf.Assembly.Values.{moved, is_int64, mov64-moved, new_alu_instruction-IsInstruction}
use buzzer.Ebpf.Encoding.Format.{IsInstruction}
use buzzer.Ebpf.Encoding.{encode_instruction, encode_opcode, encode_word}

-- An int64 that is not moved hits the type assertion.
add64_int64 : add64 3 (int64 5) ≡ panic
unfolding add64
add64_int64 = refl

mov64_wide : assemble (mov64 1 (int 0x1_0000_0002)) ≡ ok (0x2_0000_0118 ∷ 0x1_0000_0000 ∷ [])
unfolding mov64 encode_instruction encode_opcode encode_word
mov64_wide = refl

map_load : assemble (ok (ld_map_by_fd 9 5)) ≡ ok (0x5_0000_1918 ∷ 0 ∷ [])
unfolding ld_map_by_fd encode_instruction encode_opcode encode_word
map_load = refl

alu_table-assembles_example : All (AluAssembles 3 4 5) alu_table
alu_table-assembles_example = alu_table-assembles 3 4 5 (omega arith) (omega arith) (omega arith)

jmp_table-assembles_example : All (JmpAssembles 3 4 5 6) jmp_table
jmp_table-assembles_example =
    jmp_table-assembles 3 4 5 (omega arith) (omega arith) (omega arith) 6 (omega arith)

size_table-assembles_example : All (SizeAssembles 10 4 0xcafe 0xfffc) size_table
size_table-assembles_example =
    size_table-assembles 10 4 0xfffc (omega arith) (omega arith) (omega arith) 0xcafe (omega arith)

atomic_table-assembles_example : All (AtomicAssembles 10 4 0xfffc) atomic_table
atomic_table-assembles_example =
    atomic_table-assembles 10 4 0xfffc (omega arith) (omega arith) (omega arith)

mov64-moved_example :
    (i : Instruction) × (mov64 1 (int 0x1_0000_0002) ≡ ok i) × (moved i ≡ some 0x1_0000_0002)
mov64-moved_example = mov64-moved 1 (int 0x1_0000_0002) (omega arith) refl

new_alu_instruction-IsInstruction_example :
    ((i : Instruction) × (new_alu_instruction 0x10 7 3 (int64 5) ≡ ok i)
      × IsInstruction i
      × ((is_int64 (int64 5) ≡ false) ⊎ (◌≡◌ {A = ℕ} 0x10 AluOp.mov)))
    ⊎ ((new_alu_instruction 0x10 7 3 (int64 5) ≡ panic)
        × (is_int64 (int64 5) ≡ true)
        × (◌≢◌ {A = ℕ} 0x10 AluOp.mov))
new_alu_instruction-IsInstruction_example =
    new_alu_instruction-IsInstruction 0x10 7 3 (int64 5) (omega arith) (omega arith) (omega arith)

-- ===== src/Cbpf/Jmp.antt =====
-- pkg/cbpf/jmp_instructions.go
use buzzer.Common.{ℕ, bit_and, bit_or}
use buzzer.Cbpf.{Src, Instruction, int32, reg_x, unused_field}
use buzzer.Cbpf.JmpOp
use buzzer.Cbpf.InsClass
use buzzer.Cbpf.Alu.{operand}

unfoldable pub new_jmp_instruction : ℕ → ℕ → ℕ → Src → Instruction
new_jmp_instruction oc jmp_true jmp_false src =
    let (src_type, k) = operand reg_x src in
    let opcode = bit_or 0 (bit_and InsClass.jmp 0x07) in
    let opcode = bit_or opcode (bit_and src_type 0x08) in
    record { opcode = bit_or opcode (bit_and oc 0xf0); jt = jmp_true; jf = jmp_false; k = k }

unfoldable pub jmp_ja : ℕ → Instruction
unfolding new_jmp_instruction
jmp_ja jmp_true = new_jmp_instruction JmpOp.ja jmp_true unused_field (int32 unused_field)

unfoldable pub jmp_eq : ℕ → ℕ → Src → Instruction
unfolding new_jmp_instruction
jmp_eq jmp_true jmp_false k = new_jmp_instruction JmpOp.jeq jmp_true jmp_false k

unfoldable pub jmp_gt : ℕ → ℕ → Src → Instruction
unfolding new_jmp_instruction
jmp_gt jmp_true jmp_false k = new_jmp_instruction JmpOp.jgt jmp_true jmp_false k

unfoldable pub jmp_ge : ℕ → ℕ → Src → Instruction
unfolding new_jmp_instruction
jmp_ge jmp_true jmp_false k = new_jmp_instruction JmpOp.jge jmp_true jmp_false k

unfoldable pub jmp_set : ℕ → ℕ → Src → Instruction
unfolding new_jmp_instruction
jmp_set jmp_true jmp_false k = new_jmp_instruction JmpOp.jset jmp_true jmp_false k

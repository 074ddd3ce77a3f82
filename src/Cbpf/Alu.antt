-- ===== src/Cbpf/Alu.antt =====
-- pkg/cbpf/alu_instructions.go
use buzzer.Common.{ℕ, bit_and, bit_or, ◌==◌, if◌then◌else◌}
use buzzer.Common.Words.{to_u32}
use buzzer.Cbpf.{Src, Instruction, reg, int32, int, reg_a, reg_x}
use buzzer.Cbpf.AluOp
use buzzer.Cbpf.InsClass
use buzzer.Cbpf.SrcOperand

-- The type switch on the source, with the K of a register: the bit of the opcode, and K.
abbrev pub operand : ℕ → Src → ℕ × ℕ
operand register_k (reg r) = (SrcOperand.reg_src, register_k)
operand register_k (int32 x) = (SrcOperand.immediate, x)
operand register_k (int x) = (SrcOperand.immediate, to_u32 x)

-- The constraint on the source leaves no type for the default case.
unfoldable pub new_alu_instruction : ℕ → Src → Instruction
new_alu_instruction oc src =
    let (src_type, k) = operand reg_x src in
    let opcode = bit_or 0 (bit_and InsClass.alu 0x07) in
    let opcode = bit_or opcode (bit_and src_type 0x08) in
    record { opcode = bit_or opcode (bit_and oc 0xf0); jt = 0; jf = 0; k = k }

unfoldable pub ret : Src → Instruction
ret src =
    let (src_type, k) = operand reg_a src in
    let opcode = bit_or 0 (bit_and InsClass.ret 0x07) in
    let opcode = bit_or opcode (bit_and src_type 0x18) in
    record { opcode = bit_or opcode (bit_and 0x00 0xf0); jt = 0; jf = 0; k = k }

-- A register other than A and X leaves both variables at zero.
unfoldable pub misc : ℕ → Instruction
misc r =
    let k = if r == reg_x then reg_x else 0 in
    let oc = if r == reg_x then 0x80 else 0x00 in
    let opcode = bit_or 0 (bit_and InsClass.misc 0x07) in
    let opcode = bit_or opcode (bit_and 0x00 0x08) in
    record { opcode = bit_or opcode (bit_and oc 0xf8); jt = 0; jf = 0; k = k }

unfoldable pub add : Src → Instruction
unfolding new_alu_instruction
add src = new_alu_instruction AluOp.add src

unfoldable pub sub : Src → Instruction
unfolding new_alu_instruction
sub src = new_alu_instruction AluOp.sub src

unfoldable pub mul : Src → Instruction
unfolding new_alu_instruction
mul src = new_alu_instruction AluOp.mul src

unfoldable pub div : Src → Instruction
unfolding new_alu_instruction
div src = new_alu_instruction AluOp.div src

unfoldable pub or : Src → Instruction
unfolding new_alu_instruction
or src = new_alu_instruction AluOp.or src

unfoldable pub and : Src → Instruction
unfolding new_alu_instruction
and src = new_alu_instruction AluOp.and src

unfoldable pub lsh : Src → Instruction
unfolding new_alu_instruction
lsh src = new_alu_instruction AluOp.lsh src

unfoldable pub rsh : Src → Instruction
unfolding new_alu_instruction
rsh src = new_alu_instruction AluOp.rsh src

unfoldable pub neg : Src → Instruction
unfolding new_alu_instruction
neg src = new_alu_instruction AluOp.neg src

unfoldable pub modulo : Src → Instruction
unfolding new_alu_instruction
modulo src = new_alu_instruction AluOp.modulo src

unfoldable pub xor : Src → Instruction
unfolding new_alu_instruction
xor src = new_alu_instruction AluOp.xor src

-- ===== src/Ebpf/Alu.antt =====
-- pkg/ebpf/alu_instructions.go
use buzzer.Common.{ℕ, ◌/◌, ◌^◌, if◌then◌else◌, ◌==◌}
use buzzer.Common.Run.{Run, ok, panic}
use buzzer.Common.Words.{to_u32, sext_32_64}
use buzzer.Ebpf.{
  Src, Instruction, reg, int32, int, int64, empty, pseudo_value, alu_opcode, mem_opcode,
}
use buzzer.Ebpf.AluOp
use buzzer.Ebpf.InsClass
use buzzer.Ebpf.SrcOperand
use buzzer.Ebpf.StLdMode
use buzzer.Ebpf.StLdSize

abbrev pub alu_instruction : ℕ → ℕ → ℕ → ℕ → ℕ → ℕ → Instruction
alu_instruction oc insclass dst src_type src_reg imm = empty (record {
  opcode =
      alu_opcode (record { operation_code = oc; source = src_type; instruction_class = insclass });
  dst_reg = dst;
  src_reg = src_reg;
  offset = 0;
  immediate = imm;
})

-- The second half of a wide instruction: all zero but for its immediate.
abbrev pub wide_half : ℕ → Instruction
wide_half imm = empty (record {
  opcode = mem_opcode (record { mode = 0; size = 0; instruction_class = 0 });
  dst_reg = 0;
  src_reg = 0;
  offset = 0;
  immediate = imm;
})

-- The load of a 64-bit immediate, its low half in the first word.
abbrev pub wide_mov : ℕ → ℕ → Instruction
wide_mov dst x =
    pseudo_value
      (record {
        opcode =
            mem_opcode
              (record { mode = StLdMode.imm; size = StLdSize.dw; instruction_class = InsClass.ld });
        dst_reg = dst;
        src_reg = 0;
        offset = 0;
        immediate = to_u32 x;
      })
      (wide_half (to_u32 (x / 2 ^ 32)))

-- Only a move takes an int64. For any other operation the type assertion to int32 panics.
unfoldable pub new_alu_instruction : ℕ → ℕ → ℕ → Src → Run Instruction
new_alu_instruction oc insclass dst (reg r) =
    ok (alu_instruction oc insclass dst SrcOperand.reg_src r 0)
new_alu_instruction oc insclass dst (int x) =
    ok (alu_instruction oc insclass dst SrcOperand.immediate 0 (to_u32 x))
new_alu_instruction oc insclass dst (int64 x) =
    if oc == AluOp.mov then ok (wide_mov dst x) else panic
new_alu_instruction oc insclass dst (int32 x) =
    ok (alu_instruction oc insclass dst SrcOperand.immediate 0 x)

-- int64(src)
abbrev pub value_64 : Src → ℕ
value_64 (reg r) = sext_32_64 r
value_64 (int32 x) = sext_32_64 x
value_64 (int x) = x
value_64 (int64 x) = x

unfoldable pub add64 : ℕ → Src → Run Instruction
unfolding new_alu_instruction
add64 dst_reg src = new_alu_instruction AluOp.add InsClass.alu64 dst_reg src

unfoldable pub add : ℕ → Src → Run Instruction
unfolding new_alu_instruction
add dst_reg src = new_alu_instruction AluOp.add InsClass.alu dst_reg src

unfoldable pub sub64 : ℕ → Src → Run Instruction
unfolding new_alu_instruction
sub64 dst_reg src = new_alu_instruction AluOp.sub InsClass.alu64 dst_reg src

unfoldable pub sub : ℕ → Src → Run Instruction
unfolding new_alu_instruction
sub dst_reg src = new_alu_instruction AluOp.sub InsClass.alu dst_reg src

unfoldable pub mul64 : ℕ → Src → Run Instruction
unfolding new_alu_instruction
mul64 dst_reg src = new_alu_instruction AluOp.mul InsClass.alu64 dst_reg src

unfoldable pub mul : ℕ → Src → Run Instruction
unfolding new_alu_instruction
mul dst_reg src = new_alu_instruction AluOp.mul InsClass.alu dst_reg src

unfoldable pub div64 : ℕ → Src → Run Instruction
unfolding new_alu_instruction
div64 dst_reg src = new_alu_instruction AluOp.div InsClass.alu64 dst_reg src

unfoldable pub div : ℕ → Src → Run Instruction
unfolding new_alu_instruction
div dst_reg src = new_alu_instruction AluOp.div InsClass.alu dst_reg src

unfoldable pub or64 : ℕ → Src → Run Instruction
unfolding new_alu_instruction
or64 dst_reg src = new_alu_instruction AluOp.or InsClass.alu64 dst_reg src

unfoldable pub or : ℕ → Src → Run Instruction
unfolding new_alu_instruction
or dst_reg src = new_alu_instruction AluOp.or InsClass.alu dst_reg src

unfoldable pub and64 : ℕ → Src → Run Instruction
unfolding new_alu_instruction
and64 dst_reg src = new_alu_instruction AluOp.and InsClass.alu64 dst_reg src

unfoldable pub and : ℕ → Src → Run Instruction
unfolding new_alu_instruction
and dst_reg src = new_alu_instruction AluOp.and InsClass.alu dst_reg src

unfoldable pub lsh64 : ℕ → Src → Run Instruction
unfolding new_alu_instruction
lsh64 dst_reg src = new_alu_instruction AluOp.lsh InsClass.alu64 dst_reg src

unfoldable pub lsh : ℕ → Src → Run Instruction
unfolding new_alu_instruction
lsh dst_reg src = new_alu_instruction AluOp.lsh InsClass.alu dst_reg src

unfoldable pub rsh64 : ℕ → Src → Run Instruction
unfolding new_alu_instruction
rsh64 dst_reg src = new_alu_instruction AluOp.rsh InsClass.alu64 dst_reg src

unfoldable pub rsh : ℕ → Src → Run Instruction
unfolding new_alu_instruction
rsh dst_reg src = new_alu_instruction AluOp.rsh InsClass.alu dst_reg src

unfoldable pub neg64 : ℕ → Src → Run Instruction
unfolding new_alu_instruction
neg64 dst_reg src = new_alu_instruction AluOp.neg InsClass.alu64 dst_reg src

unfoldable pub neg : ℕ → Src → Run Instruction
unfolding new_alu_instruction
neg dst_reg src = new_alu_instruction AluOp.neg InsClass.alu dst_reg src

unfoldable pub modulo64 : ℕ → Src → Run Instruction
unfolding new_alu_instruction
modulo64 dst_reg src = new_alu_instruction AluOp.modulo InsClass.alu64 dst_reg src

unfoldable pub modulo : ℕ → Src → Run Instruction
unfolding new_alu_instruction
modulo dst_reg src = new_alu_instruction AluOp.modulo InsClass.alu dst_reg src

unfoldable pub xor64 : ℕ → Src → Run Instruction
unfolding new_alu_instruction
xor64 dst_reg src = new_alu_instruction AluOp.xor InsClass.alu64 dst_reg src

unfoldable pub xor : ℕ → Src → Run Instruction
unfolding new_alu_instruction
xor dst_reg src = new_alu_instruction AluOp.xor InsClass.alu dst_reg src

unfoldable pub mov64 : ℕ → Src → Run Instruction
unfolding new_alu_instruction
mov64 dst_reg src =
    if sext_32_64 (to_u32 (value_64 src)) == value_64 src
    then new_alu_instruction AluOp.mov InsClass.alu64 dst_reg src
    else new_alu_instruction AluOp.mov InsClass.alu64 dst_reg (int64 (value_64 src))

unfoldable pub mov : ℕ → Src → Run Instruction
unfolding new_alu_instruction
mov dst_reg src = new_alu_instruction AluOp.mov InsClass.alu dst_reg src

unfoldable pub arsh64 : ℕ → Src → Run Instruction
unfolding new_alu_instruction
arsh64 dst_reg src = new_alu_instruction AluOp.arsh InsClass.alu64 dst_reg src

unfoldable pub arsh : ℕ → Src → Run Instruction
unfolding new_alu_instruction
arsh dst_reg src = new_alu_instruction AluOp.arsh InsClass.alu dst_reg src

unfoldable pub end64 : ℕ → Src → Run Instruction
unfolding new_alu_instruction
end64 dst_reg src = new_alu_instruction AluOp.end InsClass.alu64 dst_reg src

unfoldable pub end : ℕ → Src → Run Instruction
unfolding new_alu_instruction
end dst_reg src = new_alu_instruction AluOp.end InsClass.alu dst_reg src

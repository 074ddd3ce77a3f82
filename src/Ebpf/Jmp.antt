-- ===== src/Ebpf/Jmp.antt =====
-- pkg/ebpf/jmp_instructions.go
use buzzer.Common.{ℕ, List, [], ◌∷◌, some}
use buzzer.Common.Run.{Run, ok, panic, ◌>>=◌}
use buzzer.Common.Words.{to_u32, sext_16_32}
use buzzer.Ebpf.{
  Src, Instruction, reg, int32, int, int64, empty, pseudo_value, jmp_opcode, mem_opcode,
  unused_field, map_lookup, skb_load_bytes_relative, instruction_sequence,
}
use buzzer.Ebpf.JmpOp
use buzzer.Ebpf.InsClass
use buzzer.Ebpf.SrcOperand
use buzzer.Ebpf.StLdMode
use buzzer.Ebpf.StLdSize
use buzzer.Ebpf.Alu.{wide_half, mov64, add64}
use buzzer.Ebpf.StLd.{st_w}

abbrev jmp_instruction : ℕ → ℕ → ℕ → ℕ → ℕ → ℕ → ℕ → Instruction
jmp_instruction oc insclass dst offset src_type src_reg imm = empty (record {
  opcode =
      jmp_opcode (record { operation_code = oc; source = src_type; instruction_class = insclass });
  dst_reg = dst;
  src_reg = src_reg;
  offset = sext_16_32 offset;
  immediate = imm;
})

-- An int64 goes to the default case, whose type assertion to int32 panics.
unfoldable pub new_jmp_instruction : ℕ → ℕ → ℕ → Src → ℕ → Run Instruction
new_jmp_instruction oc insclass dst (reg r) offset =
    ok (jmp_instruction oc insclass dst offset SrcOperand.reg_src r 0)
new_jmp_instruction oc insclass dst (int x) offset =
    ok (jmp_instruction oc insclass dst offset SrcOperand.immediate 0 (to_u32 x))
new_jmp_instruction oc insclass dst (int32 x) offset =
    ok (jmp_instruction oc insclass dst offset SrcOperand.immediate 0 x)
new_jmp_instruction oc insclass dst (int64 x) offset = panic

-- `Jmp`
unfoldable pub jump : ℕ → Run Instruction
unfolding new_jmp_instruction
jump offset = new_jmp_instruction JmpOp.ja InsClass.jmp 0 (int32 unused_field) offset

unfoldable pub call : ℕ → Run Instruction
unfolding new_jmp_instruction
call function_value =
    new_jmp_instruction JmpOp.call InsClass.jmp 0 (int32 function_value) unused_field

unfoldable pub exit : Run Instruction
unfolding new_jmp_instruction
exit = new_jmp_instruction JmpOp.exit InsClass.jmp 0 (int32 unused_field) unused_field

unfoldable pub ld_function_ptr : ℕ → Instruction
ld_function_ptr value =
    pseudo_value
      (record {
        opcode =
            mem_opcode
              (record { mode = StLdMode.imm; size = StLdSize.dw; instruction_class = InsClass.ld });
        dst_reg = 2;
        src_reg = 4;
        offset = 0;
        immediate = value;
      })
      (wide_half 0)

unfoldable pub ld_map_element : ℕ → ℕ → ℕ → ℕ → Run (List Instruction)
unfolding mov64 st_w add64 call instruction_sequence
ld_map_element map_ptr element key_ptr offset = do
  a ← mov64 1 (reg map_ptr)
  b ← st_w key_ptr (int32 element) offset
  c ← mov64 2 (reg key_ptr)
  d ← add64 2 (int32 (sext_16_32 offset))
  e ← call map_lookup
  instruction_sequence (some a ∷ some b ∷ some c ∷ some d ∷ some e ∷ [])

unfoldable pub call_skb_load_bytes_relative : ℕ → Src → ℕ → Src → Src → Src → Run (List Instruction)
unfolding mov64 add64 call instruction_sequence
call_skb_load_bytes_relative skb skb_offset dst_address dst_address_offset length start_header = do
  a ← mov64 1 (reg skb)
  b ← mov64 2 skb_offset
  c ← mov64 3 (reg dst_address)
  d ← add64 3 dst_address_offset
  e ← mov64 4 length
  f ← mov64 5 start_header
  g ← call skb_load_bytes_relative
  instruction_sequence (some a ∷ some b ∷ some c ∷ some d ∷ some e ∷ some f ∷ some g ∷ [])

unfoldable pub jmp_eq : ℕ → Src → ℕ → Run Instruction
unfolding new_jmp_instruction
jmp_eq dst_reg src offset = new_jmp_instruction JmpOp.jeq InsClass.jmp dst_reg src offset

unfoldable pub jmp_eq32 : ℕ → Src → ℕ → Run Instruction
unfolding new_jmp_instruction
jmp_eq32 dst_reg src offset = new_jmp_instruction JmpOp.jeq InsClass.jmp32 dst_reg src offset

unfoldable pub jmp_gt : ℕ → Src → ℕ → Run Instruction
unfolding new_jmp_instruction
jmp_gt dst_reg src offset = new_jmp_instruction JmpOp.jgt InsClass.jmp dst_reg src offset

unfoldable pub jmp_gt32 : ℕ → Src → ℕ → Run Instruction
unfolding new_jmp_instruction
jmp_gt32 dst_reg src offset = new_jmp_instruction JmpOp.jgt InsClass.jmp32 dst_reg src offset

unfoldable pub jmp_ge : ℕ → Src → ℕ → Run Instruction
unfolding new_jmp_instruction
jmp_ge dst_reg src offset = new_jmp_instruction JmpOp.jge InsClass.jmp dst_reg src offset

unfoldable pub jmp_ge32 : ℕ → Src → ℕ → Run Instruction
unfolding new_jmp_instruction
jmp_ge32 dst_reg src offset = new_jmp_instruction JmpOp.jge InsClass.jmp32 dst_reg src offset

unfoldable pub jmp_set : ℕ → Src → ℕ → Run Instruction
unfolding new_jmp_instruction
jmp_set dst_reg src offset = new_jmp_instruction JmpOp.jset InsClass.jmp dst_reg src offset

unfoldable pub jmp_set32 : ℕ → Src → ℕ → Run Instruction
unfolding new_jmp_instruction
jmp_set32 dst_reg src offset = new_jmp_instruction JmpOp.jset InsClass.jmp32 dst_reg src offset

unfoldable pub jmp_ne : ℕ → Src → ℕ → Run Instruction
unfolding new_jmp_instruction
jmp_ne dst_reg src offset = new_jmp_instruction JmpOp.jne InsClass.jmp dst_reg src offset

unfoldable pub jmp_ne32 : ℕ → Src → ℕ → Run Instruction
unfolding new_jmp_instruction
jmp_ne32 dst_reg src offset = new_jmp_instruction JmpOp.jne InsClass.jmp32 dst_reg src offset

unfoldable pub jmp_sgt : ℕ → Src → ℕ → Run Instruction
unfolding new_jmp_instruction
jmp_sgt dst_reg src offset = new_jmp_instruction JmpOp.jsgt InsClass.jmp dst_reg src offset

unfoldable pub jmp_sgt32 : ℕ → Src → ℕ → Run Instruction
unfolding new_jmp_instruction
jmp_sgt32 dst_reg src offset = new_jmp_instruction JmpOp.jsgt InsClass.jmp32 dst_reg src offset

unfoldable pub jmp_sge : ℕ → Src → ℕ → Run Instruction
unfolding new_jmp_instruction
jmp_sge dst_reg src offset = new_jmp_instruction JmpOp.jsge InsClass.jmp dst_reg src offset

unfoldable pub jmp_sge32 : ℕ → Src → ℕ → Run Instruction
unfolding new_jmp_instruction
jmp_sge32 dst_reg src offset = new_jmp_instruction JmpOp.jsge InsClass.jmp32 dst_reg src offset

unfoldable pub jmp_lt : ℕ → Src → ℕ → Run Instruction
unfolding new_jmp_instruction
jmp_lt dst_reg src offset = new_jmp_instruction JmpOp.jlt InsClass.jmp dst_reg src offset

unfoldable pub jmp_lt32 : ℕ → Src → ℕ → Run Instruction
unfolding new_jmp_instruction
jmp_lt32 dst_reg src offset = new_jmp_instruction JmpOp.jlt InsClass.jmp32 dst_reg src offset

unfoldable pub jmp_le : ℕ → Src → ℕ → Run Instruction
unfolding new_jmp_instruction
jmp_le dst_reg src offset = new_jmp_instruction JmpOp.jle InsClass.jmp dst_reg src offset

unfoldable pub jmp_le32 : ℕ → Src → ℕ → Run Instruction
unfolding new_jmp_instruction
jmp_le32 dst_reg src offset = new_jmp_instruction JmpOp.jle InsClass.jmp32 dst_reg src offset

unfoldable pub jmp_slt : ℕ → Src → ℕ → Run Instruction
unfolding new_jmp_instruction
jmp_slt dst_reg src offset = new_jmp_instruction JmpOp.jslt InsClass.jmp dst_reg src offset

unfoldable pub jmp_slt32 : ℕ → Src → ℕ → Run Instruction
unfolding new_jmp_instruction
jmp_slt32 dst_reg src offset = new_jmp_instruction JmpOp.jslt InsClass.jmp32 dst_reg src offset

unfoldable pub jmp_sle : ℕ → Src → ℕ → Run Instruction
unfolding new_jmp_instruction
jmp_sle dst_reg src offset = new_jmp_instruction JmpOp.jsle InsClass.jmp dst_reg src offset

unfoldable pub jmp_sle32 : ℕ → Src → ℕ → Run Instruction
unfolding new_jmp_instruction
jmp_sle32 dst_reg src offset = new_jmp_instruction JmpOp.jsle InsClass.jmp32 dst_reg src offset

-- ===== src/Ebpf/StLd.antt =====
-- pkg/ebpf/st_ld_instructions.go
use buzzer.Common.{ℕ, Option, none, some}
use buzzer.Common.Run.{Run, ok, panic}
use buzzer.Common.Words.{to_u32, sext_16_32}
use buzzer.Ebpf.{
  Src, Instruction, Fields, reg, int32, int, int64, empty, pseudo_value, mem_opcode, unused_field,
  pseudo_map_fd,
}
use buzzer.Ebpf.AluOp
use buzzer.Ebpf.InsClass
use buzzer.Ebpf.StLdMode
use buzzer.Ebpf.StLdSize
use buzzer.Ebpf.Alu.{wide_half}

abbrev pub mem_fields : ℕ → ℕ → ℕ → ℕ → ℕ → ℕ → ℕ → Fields
mem_fields mode size class dst src offset immediate = record {
  opcode = mem_opcode (record { mode = mode; size = size; instruction_class = class });
  dst_reg = dst;
  src_reg = src;
  offset = sext_16_32 offset;
  immediate = immediate;
}

-- An int64 goes to the default case, whose type assertion to int32 panics.
unfoldable pub new_store_operation : ℕ → ℕ → Src → ℕ → Run Instruction
new_store_operation size dst (reg r) offset =
    ok (empty (mem_fields StLdMode.mem size InsClass.stx dst r offset 0))
new_store_operation size dst (int x) offset =
    ok (empty (mem_fields StLdMode.mem size InsClass.st dst 0 offset (to_u32 x)))
new_store_operation size dst (int32 x) offset =
    ok (empty (mem_fields StLdMode.mem size InsClass.st dst 0 offset x))
new_store_operation size dst (int64 x) offset = panic

unfoldable pub new_load_operation : ℕ → ℕ → ℕ → ℕ → Instruction
new_load_operation size dst src offset =
    empty (mem_fields StLdMode.mem size InsClass.ldx dst src offset unused_field)

unfoldable pub new_load_imm_operation : ℕ → ℕ → ℕ → ℕ → ℕ → Option Instruction → Instruction
new_load_imm_operation size dst src offset value none =
    empty (mem_fields StLdMode.imm size InsClass.ld dst src offset value)
new_load_imm_operation size dst src offset value (some pseudo_ins) =
    pseudo_value (mem_fields StLdMode.imm size InsClass.ld dst src offset value) pseudo_ins

unfoldable pub ld_map_by_fd : ℕ → ℕ → Instruction
unfolding new_load_imm_operation
ld_map_by_fd dst fd =
    new_load_imm_operation StLdSize.dw dst pseudo_map_fd unused_field (to_u32 fd)
      (some (wide_half 0))

unfoldable pub new_atomic_instruction : ℕ → ℕ → ℕ → ℕ → ℕ → Instruction
new_atomic_instruction dst src size offset operation =
    empty (mem_fields StLdMode.atomic size InsClass.stx dst src offset operation)

unfoldable pub st_dw : ℕ → Src → ℕ → Run Instruction
unfolding new_store_operation
st_dw dst src offset = new_store_operation StLdSize.dw dst src offset

unfoldable pub ld_dw : ℕ → ℕ → ℕ → Instruction
unfolding new_load_operation
ld_dw dst src offset = new_load_operation StLdSize.dw dst src offset

unfoldable pub st_w : ℕ → Src → ℕ → Run Instruction
unfolding new_store_operation
st_w dst src offset = new_store_operation StLdSize.w dst src offset

unfoldable pub ld_w : ℕ → ℕ → ℕ → Instruction
unfolding new_load_operation
ld_w dst src offset = new_load_operation StLdSize.w dst src offset

unfoldable pub st_h : ℕ → Src → ℕ → Run Instruction
unfolding new_store_operation
st_h dst src offset = new_store_operation StLdSize.h dst src offset

unfoldable pub ld_h : ℕ → ℕ → ℕ → Instruction
unfolding new_load_operation
ld_h dst src offset = new_load_operation StLdSize.h dst src offset

unfoldable pub st_b : ℕ → Src → ℕ → Run Instruction
unfolding new_store_operation
st_b dst src offset = new_store_operation StLdSize.b dst src offset

unfoldable pub ld_b : ℕ → ℕ → ℕ → Instruction
unfolding new_load_operation
ld_b dst src offset = new_load_operation StLdSize.b dst src offset

unfoldable pub mem_add64 : ℕ → ℕ → ℕ → Instruction
unfolding new_atomic_instruction
mem_add64 dst src offset = new_atomic_instruction dst src StLdSize.dw offset AluOp.add

unfoldable pub mem_add : ℕ → ℕ → ℕ → Instruction
unfolding new_atomic_instruction
mem_add dst src offset = new_atomic_instruction dst src StLdSize.w offset AluOp.add

unfoldable pub mem_or64 : ℕ → ℕ → ℕ → Instruction
unfolding new_atomic_instruction
mem_or64 dst src offset = new_atomic_instruction dst src StLdSize.dw offset AluOp.or

unfoldable pub mem_or : ℕ → ℕ → ℕ → Instruction
unfolding new_atomic_instruction
mem_or dst src offset = new_atomic_instruction dst src StLdSize.w offset AluOp.or

unfoldable pub mem_and64 : ℕ → ℕ → ℕ → Instruction
unfolding new_atomic_instruction
mem_and64 dst src offset = new_atomic_instruction dst src StLdSize.dw offset AluOp.and

unfoldable pub mem_and : ℕ → ℕ → ℕ → Instruction
unfolding new_atomic_instruction
mem_and dst src offset = new_atomic_instruction dst src StLdSize.w offset AluOp.and

unfoldable pub mem_xor64 : ℕ → ℕ → ℕ → Instruction
unfolding new_atomic_instruction
mem_xor64 dst src offset = new_atomic_instruction dst src StLdSize.dw offset AluOp.xor

unfoldable pub mem_xor : ℕ → ℕ → ℕ → Instruction
unfolding new_atomic_instruction
mem_xor dst src offset = new_atomic_instruction dst src StLdSize.w offset AluOp.xor

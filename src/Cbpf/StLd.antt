-- ===== src/Cbpf/StLd.antt =====
-- pkg/cbpf/st_ld_instructions.go
use buzzer.Common.{ℕ, bit_and, bit_or}
use buzzer.Cbpf.{Instruction}
use buzzer.Cbpf.InsClass
use buzzer.Cbpf.StLdMode
use buzzer.Cbpf.StLdSize

unfoldable pub new_store_load_operation : ℕ → ℕ → ℕ → ℕ → Instruction
new_store_load_operation mode size class field_k =
    let opcode = bit_or 0 (bit_and class 0x07) in
    let opcode = bit_or opcode (bit_and size 0x18) in
    record { opcode = bit_or opcode (bit_and mode 0xe0); jt = 0; jf = 0; k = field_k }

unfoldable pub ld : ℕ → Instruction
unfolding new_store_load_operation
ld k = new_store_load_operation StLdMode.mem StLdSize.w InsClass.ld k

unfoldable pub ldi : ℕ → Instruction
unfolding new_store_load_operation
ldi k = new_store_load_operation StLdMode.imm StLdSize.w InsClass.ld k

unfoldable pub ld_len : ℕ → Instruction
unfolding new_store_load_operation
ld_len k = new_store_load_operation StLdMode.len StLdSize.w InsClass.ld k

unfoldable pub ld_abs_w : ℕ → Instruction
unfolding new_store_load_operation
ld_abs_w k = new_store_load_operation StLdMode.abs StLdSize.w InsClass.ld k

unfoldable pub ld_abs_h : ℕ → Instruction
unfolding new_store_load_operation
ld_abs_h k = new_store_load_operation StLdMode.abs StLdSize.h InsClass.ld k

unfoldable pub ld_abs_b : ℕ → Instruction
unfolding new_store_load_operation
ld_abs_b k = new_store_load_operation StLdMode.abs StLdSize.b InsClass.ld k

unfoldable pub ld_ind_w : ℕ → Instruction
unfolding new_store_load_operation
ld_ind_w k = new_store_load_operation StLdMode.ind StLdSize.w InsClass.ld k

unfoldable pub ld_ind_h : ℕ → Instruction
unfolding new_store_load_operation
ld_ind_h k = new_store_load_operation StLdMode.ind StLdSize.h InsClass.ld k

unfoldable pub ld_ind_b : ℕ → Instruction
unfolding new_store_load_operation
ld_ind_b k = new_store_load_operation StLdMode.ind StLdSize.b InsClass.ld k

unfoldable pub ldx : ℕ → Instruction
unfolding new_store_load_operation
ldx k = new_store_load_operation StLdMode.mem StLdSize.w InsClass.ldx k

unfoldable pub ldxi : ℕ → Instruction
unfolding new_store_load_operation
ldxi k = new_store_load_operation StLdMode.imm StLdSize.w InsClass.ldx k

unfoldable pub ldx_len : ℕ → Instruction
unfolding new_store_load_operation
ldx_len k = new_store_load_operation StLdMode.len StLdSize.w InsClass.ldx k

unfoldable pub ldx_abs : ℕ → Instruction
unfolding new_store_load_operation
ldx_abs k = new_store_load_operation StLdMode.abs StLdSize.w InsClass.ldx k

unfoldable pub ldxb : ℕ → Instruction
unfolding new_store_load_operation
ldxb k = new_store_load_operation StLdMode.msh StLdSize.b InsClass.ldx k

unfoldable pub st : ℕ → Instruction
unfolding new_store_load_operation
st k = new_store_load_operation StLdMode.mem StLdSize.w InsClass.st k

unfoldable pub stx : ℕ → Instruction
unfolding new_store_load_operation
stx k = new_store_load_operation StLdMode.mem StLdSize.w InsClass.stx k

-- ===== src/Cbpf/Generators.antt =====
-- pkg/cbpf/instruction_generators.go: random classic BPF instructions.
pub mod Ranges
pub mod Memory
pub mod Offsets
mod Tests
use buzzer.Common.{
  ℕ, zero, suc, ◌+◌, ◌-◌, ◌*◌, ◌%◌, ◌^◌, List, ltb, ◌==◌, ◌||◌, if◌then◌else◌, length,
}
use buzzer.Common.Words.{to_u8, to_u32}
use buzzer.Cbpf.{Src, Instruction, reg, int32, reg_x, extension_offset}
use buzzer.Cbpf.AluOp
use buzzer.Cbpf.JmpOp
use buzzer.Cbpf.InsClass
use buzzer.Cbpf.StLdMode
use buzzer.Cbpf.Alu.{new_alu_instruction}
use buzzer.Cbpf.Jmp.{new_jmp_instruction}
use buzzer.Cbpf.StLd.{new_store_load_operation}
use buzzer.Rand.{rand_range, rand_int, one_of}
use buzzer.Rand.Draws.{Gen, starved, give, ◌>>=◌}

-- The remainder of Go on an int32: that of the magnitude, with the sign of the dividend.
abbrev pub rem_32 : ℕ → ℕ → ℕ
rem_32 x m = if ltb x (2 ^ 31) then x % m else to_u32 (2 ^ 32 - (2 ^ 32 - x) % m)

-- An int8 as an int32.
abbrev pub sext_8_32 : ℕ → ℕ
sext_8_32 x = if ltb x (2 ^ 7) then x else x + (2 ^ 32 - 2 ^ 8)

-- The immediate that generateImmAluInstruction makes of a random int32.
unfoldable pub alu_immediate : ℕ → ℕ → ℕ
alu_immediate op value =
    let shift = rem_32 value 32 in
    if op == AluOp.rsh || op == AluOp.lsh
    then (if ltb shift (2 ^ 31) then shift else to_u32 (2 ^ 32 - shift))
    else value

unfoldable pub generate_imm_alu_instruction : ℕ → Gen Instruction
generate_imm_alu_instruction op = do
  value ← rand_range 0 0xffff_ffff
  give (new_alu_instruction op (int32 (alu_immediate op value)))

unfoldable pub random_alu_instruction : Gen Instruction
random_alu_instruction = do
  v ← rand_range 0x00 0x0a
  let op = v * 2 ^ 4
  imm ← rand_range 0 1
  if imm == 0 then generate_imm_alu_instruction op else give (new_alu_instruction op (reg reg_x))

-- The loop that draws again for Ja.
unfoldable pub conditional_op : ℕ → Gen ℕ
conditional_op zero ds = starved
conditional_op (suc fuel) ds =
    (rand_range 0x00 0x04 >>= λ v.
    let again = conditional_op fuel in if v * 2 ^ 4 == JmpOp.ja then again else give (v * 2 ^ 4))
      ds

-- Each round of the loop takes a raw number. The offset is an int8, whatever the maximum.
unfoldable pub random_jmp_instruction : ℕ → Gen Instruction
random_jmp_instruction max_offset = do
  op ← (λ ds. conditional_op (suc (length ds)) ds)
  o ← rand_range 1 max_offset
  let offset = to_u8 o
  constant ← one_of 2
  if constant
      then (do
        src ← rand_range 0 0xffff_ffff
        give (new_jmp_instruction op 0 (sext_8_32 offset) (int32 src)))
      else give (new_jmp_instruction op 0 (sext_8_32 offset) (reg reg_x))

unfoldable pub random_size : Gen ℕ
random_size = do v ← rand_int; give (v % 3 * 2 ^ 3)

unfoldable pub random_mode : Gen ℕ
random_mode = do v ← rand_range 0x00 0x08; give (v * 2 ^ 4)

unfoldable pub random_store_instruction : Gen Instruction
random_store_instruction = do
  size ← random_size
  imm ← rand_range 0 512
  t ← rand_int
  if t % 2 == 0
      then give (new_store_load_operation StLdMode.mem size InsClass.st imm)
      else give (new_store_load_operation StLdMode.mem size InsClass.stx imm)

unfoldable pub random_load_imm : ℕ → Gen ℕ
random_load_imm mode =
    if mode == StLdMode.abs
    then (do v ← rand_range 0 64; give (to_u32 (extension_offset + v)))
    else rand_range 0 512

unfoldable pub random_load_instruction : Gen Instruction
random_load_instruction = do
  mode ← random_mode
  size ← random_size
  imm ← random_load_imm mode
  t ← rand_int
  if t % 2 == 0
      then give (new_store_load_operation mode size InsClass.ld imm)
      else give (new_store_load_operation mode size InsClass.ldx imm)

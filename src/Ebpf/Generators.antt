-- ===== src/Ebpf/Generators.antt =====
-- pkg/ebpf/instruction_generators.go: random instructions.
pub mod Offsets
pub mod Alu
pub mod Jumps
pub mod Memory
pub mod Endings
mod Tests
use buzzer.Common.{
  ℕ, zero, suc, ◌+◌, ◌-◌, ◌*◌, ◌%◌, ◌^◌, List, [], ◌∷◌, Option, none, some, Bool, true, false, not,
  ◌&&◌, ◌||◌, ltb, ◌==◌, if◌then◌else◌, get_elem?, length,
}
use buzzer.Common.Run
use buzzer.Common.Run.{Run}
use buzzer.Common.Words.{to_u16, to_u32}
use buzzer.Ebpf.{Src, Instruction, reg, int32}
use buzzer.Ebpf.AluOp
use buzzer.Ebpf.JmpOp
use buzzer.Ebpf.InsClass
use buzzer.Ebpf.StLdSize
use buzzer.Ebpf.Alu.{new_alu_instruction}
use buzzer.Ebpf.Jmp.{new_jmp_instruction}
use buzzer.Ebpf.StLd.{new_store_operation, new_load_operation, new_atomic_instruction}
use buzzer.Rand.{rand_range, rand_int, one_of}
use buzzer.Rand.Draws.{Gen, Drawn, drew, starved, panicked, give, fail, or_fail, ◌>>=◌}

-- A call of a constructor from a generator.
abbrev pub built : Run Instruction → Gen Instruction
built (Run.ok i) = give i
built (Run.err e) = fail
built Run.panic = fail

unfoldable pub random_register : Gen ℕ
random_register = rand_range 0 9

unfoldable pub random_alu_op : Gen ℕ
random_alu_op = do v ← rand_range 0x00 0x0c; give (v * 2 ^ 4)

unfoldable pub random_jump_op : Gen ℕ
random_jump_op = do v ← rand_range 0x00 0x0d; give (v * 2 ^ 4)

unfoldable pub is_conditional : ℕ → Bool
is_conditional op = not (op == JmpOp.exit || op == JmpOp.call || op == JmpOp.ja)

-- The remainder of Go on an int32: that of the magnitude, with the sign of the dividend.
abbrev pub rem_32 : ℕ → ℕ → ℕ
rem_32 x m = if ltb x (2 ^ 31) then x % m else to_u32 (2 ^ 32 - (2 ^ 32 - x) % m)

abbrev pub rem_16 : ℕ → ℕ → ℕ
rem_16 x m = if ltb x (2 ^ 15) then x % m else to_u16 (2 ^ 16 - (2 ^ 16 - x) % m)

abbrev pub is_shift : ℕ → Bool
is_shift op = op == AluOp.rsh || op == AluOp.lsh || op == AluOp.arsh

-- The immediate that generateImmAluInstruction makes of a random int32.
unfoldable pub alu_immediate : ℕ → ℕ → ℕ → ℕ
alu_immediate op ins_class value =
    let max_shift = if ins_class == InsClass.alu then 32 else 64 in
    let shift = rem_32 value max_shift in
    if is_shift op
    then (if ltb shift (2 ^ 31) then shift else to_u32 (2 ^ 32 - shift))
    else if op == AluOp.neg
    then 0
    else value

unfoldable pub generate_imm_alu_instruction : ℕ → ℕ → ℕ → Gen Instruction
generate_imm_alu_instruction op ins_class dst_reg = do
  value ← rand_range 0 0xffff_ffff
  built (new_alu_instruction op ins_class dst_reg (int32 (alu_immediate op ins_class value)))

-- `for op == AluNeg`: the operation is drawn again, at most `fuel` times.
unfoldable pub redraw_neg : ℕ → ℕ → Gen ℕ
redraw_neg zero op ds = if op == AluOp.neg then starved else drew op ds
redraw_neg (suc fuel) op ds =
    let again = (rand_range 0x00 0x0c >>= λ v. redraw_neg fuel (v * 2 ^ 4)) ds in
    if op == AluOp.neg then again else drew op ds

-- Each round takes a raw number, so there are no more rounds than these.
unfoldable pub generate_reg_alu_instruction : ℕ → ℕ → ℕ → Gen Instruction
generate_reg_alu_instruction op ins_class dst_reg = do
  src_reg ← random_register
  op' ← (λ ds. redraw_neg (length ds) op ds)
  built (new_alu_instruction op' ins_class dst_reg (reg src_reg))

unfoldable pub random_alu_instruction : Gen Instruction
random_alu_instruction = do
  op ← random_alu_op
  dst_reg ← random_register
  c ← rand_range 0 1
  let ins_class = if c == 0 then InsClass.alu else InsClass.alu64
  s ← rand_range 0 1
  if s == 0
      then generate_imm_alu_instruction op ins_class dst_reg
      else generate_reg_alu_instruction op ins_class dst_reg

-- `for { op = RandomJumpOp(); if IsConditional(op) { break } }`
unfoldable pub conditional_op : ℕ → Gen ℕ
conditional_op zero ds = starved
conditional_op (suc fuel) ds =
    (random_jump_op >>= λ op.
    let again = conditional_op fuel in if is_conditional op then give op else again)
      ds

unfoldable pub random_jmp_instruction : ℕ → Gen Instruction
random_jmp_instruction max_offset = do
  op ← (λ ds. conditional_op (suc (length ds)) ds)
  narrow ← one_of 2
  let ins_class = if narrow then InsClass.jmp32 else InsClass.jmp
  dst_reg ← random_register
  o ← rand_range 1 max_offset
  let offset = to_u16 o
  constant ← one_of 2
  if constant
      then (do
        src ← rand_range 0 0xffff_ffff
        built (new_jmp_instruction op ins_class dst_reg (int32 (to_u32 src)) offset))
      else (do
        src ← random_register
        built (new_jmp_instruction op ins_class dst_reg (reg src) offset))

unfoldable pub random_size : Gen ℕ
random_size = do v ← rand_int; give (v % 4 * 2 ^ 3)

unfoldable pub alignment_for_size : ℕ → ℕ
alignment_for_size s =
    if s == StLdSize.b
    then 1
    else if s == StLdSize.h
    then 2
    else if s == StLdSize.w
    then 4
    else if s == StLdSize.dw
    then 8
    else 0

-- `for offset == 0`: a random int16 modulo 512, drawn until it is not zero.
unfoldable pub nonzero_offset : ℕ → Gen ℕ
nonzero_offset zero ds = starved
nonzero_offset (suc fuel) ds =
    (rand_int >>= λ v.
    let offset = rem_16 (to_u16 v) 512 in
    let again = nonzero_offset fuel in if offset == 0 then again else give offset)
      ds

-- `for offset % AlignmentForSize(s) != 0`, an int16 that goes down; the remainder by 0 panics.
unfoldable pub align : ℕ → ℕ → ℕ → Gen ℕ
align zero s offset = λ ds. starved
align (suc fuel) s offset =
    let lower = align fuel s (to_u16 (offset + 2 ^ 16 - 1)) in
    if alignment_for_size s == 0
    then fail
    else if rem_16 offset (alignment_for_size s) == 0
    then give offset
    else lower

unfoldable pub random_offset : ℕ → Gen ℕ
random_offset s = do
  offset ← (λ ds. nonzero_offset (suc (length ds)) ds)
  let negative = if ltb offset (2 ^ 15) then to_u16 (2 ^ 16 - offset) else offset
  align 8 s negative

abbrev pub valid_sizes : List ℕ
valid_sizes = StLdSize.w ∷ StLdSize.dw ∷ []

abbrev pub valid_operations : List ℕ
valid_operations = AluOp.add ∷ AluOp.and ∷ AluOp.or ∷ AluOp.xor ∷ []

unfoldable pub random_atomic_instruction : Gen Instruction
random_atomic_instruction = do
  src ← random_register
  i ← rand_int
  size ← or_fail (get_elem? valid_sizes (i % 2))
  offset ← random_offset size
  j ← rand_int
  operation ← or_fail (get_elem? valid_operations (j % 4))
  give (new_atomic_instruction 10 src size offset operation)

unfoldable pub random_store_instruction : Gen Instruction
random_store_instruction = do
  size ← random_size
  offset ← random_offset size
  constant ← one_of 2
  if constant
      then (do imm ← rand_int; built (new_store_operation size 10 (int32 (to_u32 imm)) offset))
      else (do src ← random_register; built (new_store_operation size 10 (reg src) offset))

unfoldable pub random_load_instruction : Gen Instruction
random_load_instruction = do
  size ← random_size
  offset ← random_offset size
  dst ← random_register
  give (new_load_operation size dst 10 offset)

unfoldable pub random_mem_instruction : Gen Instruction
random_mem_instruction = do
  t ← rand_int
  if t % 3 == 0
      then random_store_instruction
      else if t % 3 == 1
      then random_load_instruction
      else random_atomic_instruction

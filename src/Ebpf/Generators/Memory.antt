-- ===== src/Ebpf/Generators/Memory.antt =====
-- Random loads, stores and atomic operations: all stay in the stack frame.
use buzzer.Common.{ℕ, ◌%◌, ◌^◌, ◌≤◌, ◌<◌, ◌≡◌, ◌⊎◌, inl, inr, refl, arith, ◌==◌}
use buzzer.Common.Words.{IsU32, to_u32, sext_16_32}
use buzzer.Ebpf.{Instruction, Fields, Opcode, empty, pseudo_value, mem_opcode}
use buzzer.Ebpf.InsClass
use buzzer.Ebpf.StLdMode
use buzzer.Ebpf.StLd.{mem_fields, new_store_operation, new_load_operation, new_atomic_instruction}
use buzzer.Ebpf.Encoding.Format.{IsInstruction, IsFields}
use buzzer.Ebpf.Generators.{
  valid_sizes, valid_operations, random_atomic_instruction, random_store_instruction,
  random_load_instruction, random_mem_instruction,
}
use buzzer.Ebpf.Generators.Offsets.{
  IsSize, IsStackOffset, random_offset-IsStackOffset, random_size-IsSize,
}
use buzzer.Ebpf.Generators.Alu.{random_register-le}
use buzzer.Rand.Bounds.{rand_int-IsU64, one_of-total, get_elem?-Yields}
use buzzer.Rand.Draws.{Yields, Yields-give, Yields-bind, Yields-if}

-- What RandomMemInstruction may build: an access of the frame through R10, at an offset that is right
-- for its size. A load has the frame pointer for its source, the others for their destination.
abbrev pub MemRule : Fields → Opcode → Type 0
MemRule i (mem_opcode c) =
    IsStackOffset c.size (i.offset % 2 ^ 16)
    × (((c.instruction_class ≡ InsClass.ldx) × (i.src_reg ≡ 10))
        ⊎ (((c.instruction_class ≡ InsClass.st) ⊎ (c.instruction_class ≡ InsClass.stx))
            × (i.dst_reg ≡ 10)))
MemRule i other = ⊥

abbrev pub IsRandomMem : Instruction → Type 0
IsRandomMem (empty i) = IsInstruction (empty i) × MemRule i i.opcode
IsRandomMem (pseudo_value i p) = ⊥

module _ (size off : ℕ) (s : IsSize size) (o : IsStackOffset size off) where
  stack_offset : IsStackOffset size (sext_16_32 off % 2 ^ 16)
  stack_offset = let same : sext_16_32 off % 2 ^ 16 ≡ off = ground (arith, o.int16) in rw same o

  stack-IsFields :
      (mode class dst src imm : ℕ)
      → (mode % 32 ≡ 0) × (mode < 256)
      → class < 4
      → dst ≤ 10
      → src ≤ 10
      → imm < 2 ^ 32
      → IsFields (mem_fields mode size class dst src off imm)
  stack-IsFields mode class dst src imm m c p q h = record {
    opcode = record { mode = m; size = omega arith; class = c };
    dst = omega arith;
    src = omega arith;
    offset = ground (arith, o.int16);
    immediate = h;
  }

random_store-IsRandomMem : Yields IsRandomMem random_store_instruction
unfolding random_store_instruction new_store_operation
random_store-IsRandomMem = Yields-bind random_size-IsSize λ size s.
    Yields-bind (random_offset-IsStackOffset size s) λ off o.
      Yields-bind (one_of-total 2 (omega arith) (omega arith)) λ constant _.
        Yields-if constant
          (λ _. Yields-bind rand_int-IsU64 λ v h. Yields-give (
            (
              stack-IsFields size off s o StLdMode.mem InsClass.st 10 0 (to_u32 v) (omega arith)
                  (omega arith) (omega arith) (omega arith) (omega arith),
              omega arith,
            ),
            (stack_offset size off s o, inr (inl refl, refl)),
          ))
          λ _. Yields-bind random_register-le λ r h. Yields-give (
            (
              stack-IsFields size off s o StLdMode.mem InsClass.stx 10 r 0 (omega arith)
                  (omega arith) (omega arith) (omega arith) (omega arith),
              omega arith,
            ),
            (stack_offset size off s o, inr (inr refl, refl)),
          )

pub random_load-IsRandomMem : Yields IsRandomMem random_load_instruction
unfolding random_load_instruction new_load_operation
random_load-IsRandomMem = Yields-bind random_size-IsSize λ size s.
    Yields-bind (random_offset-IsStackOffset size s) λ off o. Yields-bind random_register-le λ r h.
      Yields-give (
        (
          stack-IsFields size off s o StLdMode.mem InsClass.ldx r 10 0 (omega arith) (omega arith)
              (omega arith) (omega arith) (omega arith),
          omega arith,
        ),
        (stack_offset size off s o, inl (refl, refl)),
      )

random_atomic-IsRandomMem : Yields IsRandomMem random_atomic_instruction
unfolding random_atomic_instruction new_atomic_instruction
random_atomic-IsRandomMem = Yields-bind random_register-le λ r h. Yields-bind rand_int-IsU64 λ i _.
    Yields-bind (get_elem?-Yields IsSize valid_sizes (omega arith) (i % 2) (omega arith)) λ size s.
      Yields-bind (random_offset-IsStackOffset size s) λ off o. Yields-bind rand_int-IsU64 λ j _.
        Yields-bind (get_elem?-Yields IsU32 valid_operations (omega arith) (j % 4) (omega arith))
          λ op u. Yields-give (
            (
              stack-IsFields size off s o StLdMode.atomic InsClass.stx 10 r op (omega arith)
                  (omega arith) (omega arith) (omega arith) u,
              omega arith,
            ),
            (stack_offset size off s o, inr (inr refl, refl)),
          )

-- Every instruction that RandomMemInstruction returns can be encoded and reads or writes the stack
-- frame: through R10, 1 to 512 bytes below it, at a multiple of the bytes that it reads or writes, which
-- are 4 for a word, 2 for a halfword, 1 for a byte and 8 for a double word, its only sizes. Generating
-- it never panics.
pub random_mem_instruction-IsRandomMem : Yields IsRandomMem random_mem_instruction
unfolding random_mem_instruction
random_mem_instruction-IsRandomMem = Yields-bind rand_int-IsU64 λ t _.
    Yields-if (t % 3 == 0) (λ _. random_store-IsRandomMem)
      λ _. Yields-if (t % 3 == 1) (λ _. random_load-IsRandomMem) λ _. random_atomic-IsRandomMem

-- ===== src/Ebpf/Assembly/Memory.antt =====
-- The stores, loads and atomic operations of st_ld_instructions.go.
use buzzer.Common.{ℕ, ◌+◌, ◌*◌, ◌%◌, ◌^◌, ◌<◌, ◌≡◌, arith, List, [], ◌&◌, ◌∷◌, All}
use buzzer.Common.Run.{Run, ok}
use buzzer.Ebpf.{Src, Instruction, reg, int32}
use buzzer.Ebpf.StLd
use buzzer.Ebpf.StLd.{new_store_operation, new_load_operation, new_atomic_instruction}
use buzzer.Ebpf.Assembly.{assemble, plain_word}

-- The three uses of memory at one size, with the size's bits of the opcode.
pub record SizeEntry : Type 0 where
  pub store : ℕ → Src → ℕ → Run Instruction
  pub load : ℕ → ℕ → ℕ → Instruction
  pub size : ℕ

pub record AtomicEntry : Type 0 where
  pub build : ℕ → ℕ → ℕ → Instruction
  pub byte : ℕ
  pub operation : ℕ

abbrev size_entry : (ℕ → Src → ℕ → Run Instruction) → (ℕ → ℕ → ℕ → Instruction) → ℕ → SizeEntry
size_entry store load size = record { store = store; load = load; size = size }

abbrev atomic_entry : (ℕ → ℕ → ℕ → Instruction) → ℕ → ℕ → AtomicEntry
atomic_entry build byte operation = record { build = build; byte = byte; operation = operation }

abbrev pub size_table : List SizeEntry
size_table =
    size_entry StLd.st_w StLd.ld_w 0x00
    ∷ size_entry StLd.st_h StLd.ld_h 0x08
    ∷ size_entry StLd.st_b StLd.ld_b 0x10
    ∷ size_entry StLd.st_dw StLd.ld_dw 0x18
    ∷ []

abbrev pub atomic_table : List AtomicEntry
atomic_table =
    atomic_entry StLd.mem_add64 0xdb 0x00
    ∷ atomic_entry StLd.mem_add 0xc3 0x00
    ∷ atomic_entry StLd.mem_or64 0xdb 0x40
    ∷ atomic_entry StLd.mem_or 0xc3 0x40
    ∷ atomic_entry StLd.mem_and64 0xdb 0x50
    ∷ atomic_entry StLd.mem_and 0xc3 0x50
    ∷ atomic_entry StLd.mem_xor64 0xdb 0xa0
    ∷ atomic_entry StLd.mem_xor 0xc3 0xa0
    ∷ []

-- A store of the register `src`, a store of the immediate `x`, and a load: classes STX, ST and LDX.
abbrev pub SizeAssembles : ℕ → ℕ → ℕ → ℕ → SizeEntry → Type 0
SizeAssembles dst src x off e =
    (assemble (e.store dst (reg src) off)
      ≡ ok ((e.size + 0x63 + dst * 2 ^ 8 + src * 2 ^ 12 + off * 2 ^ 16) ∷ []))
    × (assemble (e.store dst (int32 x) off)
        ≡ ok ((e.size + 0x62 + dst * 2 ^ 8 + off * 2 ^ 16 + x * 2 ^ 32) ∷ []))
    × (assemble (ok (e.load dst src off))
        ≡ ok ((e.size + 0x61 + dst * 2 ^ 8 + src * 2 ^ 12 + off * 2 ^ 16) ∷ []))

abbrev pub AtomicAssembles : ℕ → ℕ → ℕ → AtomicEntry → Type 0
AtomicAssembles dst src off e =
    assemble (ok (e.build dst src off))
    ≡ ok ((e.byte + dst * 2 ^ 8 + src * 2 ^ 12 + off * 2 ^ 16 + e.operation * 2 ^ 32) ∷ [])

module _ (dst src off : ℕ) (p : dst < 16) (q : src < 16) (f : off < 2 ^ 16) where
  module _ (x : ℕ) (s : x < 2 ^ 32) where
    size-assembles :
        (size : ℕ)
        → (size % 8 ≡ 0) × (size < 32)
        → SizeAssembles dst src x off
            (size_entry (new_store_operation size) (new_load_operation size) size)
    unfolding new_store_operation new_load_operation
    size-assembles size z =
        let mode : (◌%◌ 0x60 32 ≡ 0) × (0x60 < 256) = omega arith in
        (
          plain_word _ (record { mode = mode; size = z; class = omega arith }) (omega arith) p q off
              (ground arith) _ (omega arith),
          plain_word _ (record { mode = mode; size = z; class = omega arith }) s p (omega arith) off
              (ground arith) _ (omega arith),
          plain_word _ (record { mode = mode; size = z; class = omega arith }) (omega arith) p q off
              (ground arith) _ (omega arith),
        )

    -- For each of the four sizes, on registers below 16 and an int16 offset, the stores of a register and
    -- of an int32 and the load encode to one word with the kernel's opcode and the operands in place.
    pub size_table-assembles : All (SizeAssembles dst src x off) size_table
    unfolding StLd.st_w StLd.st_h StLd.st_b StLd.st_dw StLd.ld_w StLd.ld_h StLd.ld_b StLd.ld_dw
    size_table-assembles =
        size-assembles 0x00 (omega arith)
        & size-assembles 0x08 (omega arith)
        & size-assembles 0x10 (omega arith)
        & size-assembles 0x18 (omega arith)
        & tt

  atomic-assembles :
      (size operation : ℕ)
      → (size % 8 ≡ 0) × (size < 32)
      → operation < 2 ^ 32
      → AtomicAssembles dst src off (
          atomic_entry
            (λ d s o. new_atomic_instruction d s size o operation)
            (size + 0xc3)
            operation)
  unfolding new_atomic_instruction
  atomic-assembles size operation z h =
      plain_word _ (record { mode = omega arith; size = z; class = omega arith }) h p q off
        (ground arith) _ (omega arith)

  -- Each of the eight atomic operations, on registers below 16 and an int16 offset, encodes to one word
  -- with the kernel's opcode for its size, and the operation in the immediate field.
  pub atomic_table-assembles : All (AtomicAssembles dst src off) atomic_table
  unfolding StLd.mem_add64 StLd.mem_add StLd.mem_or64 StLd.mem_or StLd.mem_and64 StLd.mem_and
      StLd.mem_xor64 StLd.mem_xor
  atomic_table-assembles =
      atomic-assembles 0x18 0x00 (omega arith) (omega arith)
      & atomic-assembles 0x00 0x00 (omega arith) (omega arith)
      & atomic-assembles 0x18 0x40 (omega arith) (omega arith)
      & atomic-assembles 0x00 0x40 (omega arith) (omega arith)
      & atomic-assembles 0x18 0x50 (omega arith) (omega arith)
      & atomic-assembles 0x00 0x50 (omega arith) (omega arith)
      & atomic-assembles 0x18 0xa0 (omega arith) (omega arith)
      & atomic-assembles 0x00 0xa0 (omega arith) (omega arith)
      & tt

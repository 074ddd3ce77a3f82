-- ===== src/Cbpf/Generators/Memory.antt =====
-- What the random classic BPF loads and stores can be.
use buzzer.Common.{ℕ, ◌+◌, ◌*◌, ◌/◌, ◌%◌, ◌^◌, ◌≤◌, ◌<◌, ◌≡◌, ◌⊎◌, inl, inr, refl, arith, ◌==◌}
use buzzer.Common.Bits.{or_three, bit_and_07, bit_and_18, bit_and_e0}
use buzzer.Cbpf.{Instruction, extension_offset}
use buzzer.Cbpf.StLdMode
use buzzer.Cbpf.InsClass
use buzzer.Cbpf.StLd.{new_store_load_operation}
use buzzer.Cbpf.Generators.{
  random_size, random_mode, random_store_instruction, random_load_imm, random_load_instruction,
}
use buzzer.Rand.Bounds.{rand_range_bounds, rand_int-IsU64}
use buzzer.Rand.Draws.{Yields, Yields-give, Yields-bind, Yields-if, Yields-map}

-- What RandomStoreInstruction may build.
pub record IsCbpfStore (i : Instruction) : Type 0 where
  pub byte : i.opcode < 2 ^ 8
  pub class : (i.opcode % 8 ≡ InsClass.st) ⊎ (i.opcode % 8 ≡ InsClass.stx)
  pub size : i.opcode / 8 % 4 ≤ 2
  pub mode : i.opcode / 32 * 32 ≡ StLdMode.mem
  pub no_offsets : (i.jt ≡ 0) × (i.jf ≡ 0)
  pub k : i.k ≤ 512

-- What RandomLoadInstruction may build: K is a small number, or in absolute mode an extension.
pub record IsCbpfLoad (i : Instruction) : Type 0 where
  pub byte : i.opcode < 2 ^ 8
  pub class : (i.opcode % 8 ≡ InsClass.ld) ⊎ (i.opcode % 8 ≡ InsClass.ldx)
  pub size : i.opcode / 8 % 4 ≤ 2
  pub mode : i.opcode / 32 * 32 ≤ StLdMode.len
  pub no_offsets : (i.jt ≡ 0) × (i.jf ≡ 0)
  pub k :
      (i.k ≤ 512)
      ⊎ ((i.opcode / 32 * 32 ≡ StLdMode.abs)
          × (extension_offset ≤ i.k)
          × (i.k ≤ extension_offset + 64))

new_store_load :
    (mode size class k : ℕ)
    → class < 8
    → size < 256
    → mode < 256
    → new_store_load_operation mode size class k
      ≡ record { opcode = class + size / 8 % 4 * 8 + mode / 32 * 32; jt = 0; jf = 0; k = k }
unfolding new_store_load_operation
new_store_load mode size class k c s m =
    let low : class % 8 ≡ class = omega arith in
    rw
      (
        bit_and_07 class (omega arith),
        bit_and_18 size s,
        bit_and_e0 mode m,
        low,
        or_three class (size / 8 % 4) (mode / 32) 5 (omega arith) (omega arith),
      )
      refl

random_size-le : Yields (λ size. (size % 8 ≡ 0) × (size ≤ 16)) random_size
unfolding random_size
random_size-le = Yields-bind rand_int-IsU64 λ v h. Yields-give (omega arith)

-- Every instruction that RandomStoreInstruction returns is a store in mode MEM of the kernel, with its
-- offsets at 0 and K at most 512; generating it never panics.
pub random_store_instruction-IsCbpfStore : Yields IsCbpfStore random_store_instruction
unfolding random_store_instruction
random_store_instruction-IsCbpfStore = Yields-bind random_size-le λ size s.
    Yields-bind (rand_range_bounds 0 512 (omega arith) (omega arith)) λ k h.
      Yields-bind rand_int-IsU64 λ t _.
        Yields-if (t % 2 == 0)
          (λ _. Yields-give (store size k s (omega arith) InsClass.st (inl refl)))
          λ _. Yields-give (store size k s (omega arith) InsClass.stx (inr refl))
  where
    store :
        (size k : ℕ)
        → (size % 8 ≡ 0) × (size ≤ 16)
        → k ≤ 512
        → (class : ℕ) → (class ≡ InsClass.st) ⊎ (class ≡ InsClass.stx)
        → IsCbpfStore (new_store_load_operation StLdMode.mem size class k)
    store size k s h class c =
        rw (new_store_load StLdMode.mem size class k (omega arith) (omega arith) (omega arith))
          (record {
            byte = omega arith;
            class = omega arith;
            size = omega arith;
            mode = omega arith;
            no_offsets = (refl, refl);
            k = h;
          })

-- K of a load, with the mode that RandomMode returned.
abbrev IsLoadImm : ℕ → ℕ → Type 0
IsLoadImm mode k =
    (k ≤ 512) ⊎ ((mode ≡ StLdMode.abs) × (extension_offset ≤ k) × (k ≤ extension_offset + 64))

random_load_imm-IsLoadImm : (mode : ℕ) → Yields (IsLoadImm mode) (random_load_imm mode)
unfolding random_load_imm
random_load_imm-IsLoadImm mode =
    Yields-if (mode == StLdMode.abs)
      (λ e.
        Yields-bind (rand_range_bounds 0 64 (omega arith) (omega arith))
          λ v h. Yields-give (inr (ground arith)))
      λ e. Yields-map (rand_range_bounds 0 512 (omega arith) (omega arith)) λ v h. inl h.1

-- Every instruction that RandomLoadInstruction returns is a load of the kernel's modes IMM to LEN and
-- sizes W to B, with its offsets at 0; K is at most 512, or in mode ABS an extension. Generating it
-- never panics.
pub random_load_instruction-IsCbpfLoad : Yields IsCbpfLoad random_load_instruction
unfolding random_load_instruction random_mode
random_load_instruction-IsCbpfLoad =
    Yields-bind
      (Yields-bind (rand_range_bounds 0 8 (omega arith) (omega arith))
        λ v h. Yields-give {P = λ m. (m % 16 ≡ 0) × (m ≤ 128)} (omega arith))
      λ mode m. Yields-bind random_size-le λ size s.
        Yields-bind (random_load_imm-IsLoadImm mode) λ k h. Yields-bind rand_int-IsU64 λ t _.
          Yields-if (t % 2 == 0) (λ _. Yields-give (load mode size k m s h InsClass.ld (inl refl)))
            λ _. Yields-give (load mode size k m s h InsClass.ldx (inr refl))
  where
    load :
        (mode size k : ℕ)
        → (mode % 16 ≡ 0) × (mode ≤ 128)
        → (size % 8 ≡ 0) × (size ≤ 16)
        → IsLoadImm mode k
        → (class : ℕ) → (class ≡ InsClass.ld) ⊎ (class ≡ InsClass.ldx)
        → IsCbpfLoad (new_store_load_operation mode size class k)
    load mode size k m s h class c =
        rw (new_store_load mode size class k (omega arith) (omega arith) (omega arith)) (record {
          byte = omega arith;
          class = omega arith;
          size = omega arith;
          mode = omega arith;
          no_offsets = (refl, refl);
          k = omega arith;
        })

-- ===== src/Ebpf/Assembly/AluJmp.antt =====
-- The ALU operations of alu_instructions.go and the conditional jumps of jmp_instructions.go.
use buzzer.Common.{
  ℕ, ◌+◌, ◌*◌, ◌^◌, ◌%◌, ◌<◌, ◌≡◌, refl, arith, List, [], ◌&◌, ◌∷◌, All, ◌⊎◌, inl, inr, ◌==◌, true,
}
use buzzer.Common.Run.{Run, ok}
use buzzer.Common.Words.{sext_32_64, to_u32}
use buzzer.Ebpf.{Src, Instruction, reg, int32}
use buzzer.Ebpf.Alu
use buzzer.Ebpf.Alu.{new_alu_instruction}
use buzzer.Ebpf.Jmp
use buzzer.Ebpf.Jmp.{new_jmp_instruction}
use buzzer.Ebpf.Assembly.{assemble, plain_word}

-- An operation with its opcode in the immediate form; the register form has bit 3 set.
pub record AluEntry : Type 0 where
  pub build : ℕ → Src → Run Instruction
  pub byte : ℕ

pub record JmpEntry : Type 0 where
  pub build : ℕ → Src → ℕ → Run Instruction
  pub byte : ℕ

abbrev alu_entry : (ℕ → Src → Run Instruction) → ℕ → AluEntry
alu_entry build byte = record { build = build; byte = byte }

abbrev jmp_entry : (ℕ → Src → ℕ → Run Instruction) → ℕ → JmpEntry
jmp_entry build byte = record { build = build; byte = byte }

abbrev pub alu_table : List AluEntry
alu_table =
    alu_entry Alu.add64 0x7
    ∷ alu_entry Alu.add 0x4
    ∷ alu_entry Alu.sub64 0x17
    ∷ alu_entry Alu.sub 0x14
    ∷ alu_entry Alu.mul64 0x27
    ∷ alu_entry Alu.mul 0x24
    ∷ alu_entry Alu.div64 0x37
    ∷ alu_entry Alu.div 0x34
    ∷ alu_entry Alu.or64 0x47
    ∷ alu_entry Alu.or 0x44
    ∷ alu_entry Alu.and64 0x57
    ∷ alu_entry Alu.and 0x54
    ∷ alu_entry Alu.lsh64 0x67
    ∷ alu_entry Alu.lsh 0x64
    ∷ alu_entry Alu.rsh64 0x77
    ∷ alu_entry Alu.rsh 0x74
    ∷ alu_entry Alu.neg64 0x87
    ∷ alu_entry Alu.neg 0x84
    ∷ alu_entry Alu.modulo64 0x97
    ∷ alu_entry Alu.modulo 0x94
    ∷ alu_entry Alu.xor64 0xa7
    ∷ alu_entry Alu.xor 0xa4
    ∷ alu_entry Alu.mov64 0xb7
    ∷ alu_entry Alu.mov 0xb4
    ∷ alu_entry Alu.arsh64 0xc7
    ∷ alu_entry Alu.arsh 0xc4
    ∷ alu_entry Alu.end64 0xd7
    ∷ alu_entry Alu.end 0xd4
    ∷ []

abbrev pub jmp_table : List JmpEntry
jmp_table =
    jmp_entry Jmp.jmp_eq 0x15
    ∷ jmp_entry Jmp.jmp_eq32 0x16
    ∷ jmp_entry Jmp.jmp_gt 0x25
    ∷ jmp_entry Jmp.jmp_gt32 0x26
    ∷ jmp_entry Jmp.jmp_ge 0x35
    ∷ jmp_entry Jmp.jmp_ge32 0x36
    ∷ jmp_entry Jmp.jmp_set 0x45
    ∷ jmp_entry Jmp.jmp_set32 0x46
    ∷ jmp_entry Jmp.jmp_ne 0x55
    ∷ jmp_entry Jmp.jmp_ne32 0x56
    ∷ jmp_entry Jmp.jmp_sgt 0x65
    ∷ jmp_entry Jmp.jmp_sgt32 0x66
    ∷ jmp_entry Jmp.jmp_sge 0x75
    ∷ jmp_entry Jmp.jmp_sge32 0x76
    ∷ jmp_entry Jmp.jmp_lt 0xa5
    ∷ jmp_entry Jmp.jmp_lt32 0xa6
    ∷ jmp_entry Jmp.jmp_le 0xb5
    ∷ jmp_entry Jmp.jmp_le32 0xb6
    ∷ jmp_entry Jmp.jmp_slt 0xc5
    ∷ jmp_entry Jmp.jmp_slt32 0xc6
    ∷ jmp_entry Jmp.jmp_sle 0xd5
    ∷ jmp_entry Jmp.jmp_sle32 0xd6
    ∷ []

-- Both forms of an operation on the register `dst`: with the register `r`, and with the immediate `x`.
abbrev pub AluAssembles : ℕ → ℕ → ℕ → AluEntry → Type 0
AluAssembles dst r x e =
    (assemble (e.build dst (reg r)) ≡ ok ((e.byte + 8 + dst * 2 ^ 8 + r * 2 ^ 12) ∷ []))
    × (assemble (e.build dst (int32 x)) ≡ ok ((e.byte + dst * 2 ^ 8 + x * 2 ^ 32) ∷ []))

abbrev pub JmpAssembles : ℕ → ℕ → ℕ → ℕ → JmpEntry → Type 0
JmpAssembles dst r x off e =
    (assemble (e.build dst (reg r) off)
      ≡ ok ((e.byte + 8 + dst * 2 ^ 8 + r * 2 ^ 12 + off * 2 ^ 16) ∷ []))
    × (assemble (e.build dst (int32 x) off)
        ≡ ok ((e.byte + dst * 2 ^ 8 + off * 2 ^ 16 + x * 2 ^ 32) ∷ []))

module _ (dst r x : ℕ) (p : dst < 16) (q : r < 16) (s : x < 2 ^ 32) where
  module _ (op class : ℕ) (o : (op % 16 ≡ 0) × (op < 256)) where
    new_alu_instruction-assembles :
        (class ≡ 4) ⊎ (class ≡ 7)
        → AluAssembles dst r x (alu_entry (new_alu_instruction op class) (op + class))
    unfolding new_alu_instruction
    new_alu_instruction-assembles c = (
      plain_word _ (record { operation_code = o; source = inr refl }, c) (omega arith) p q 0 refl _
          (omega arith),
      plain_word _ (record { operation_code = o; source = inl refl }, c) s p (omega arith) 0 refl _
          (omega arith),
    )

    new_jmp_instruction-assembles :
        (off : ℕ)
        → off < 2 ^ 16
        → (class ≡ 5) ⊎ (class ≡ 6)
        → JmpAssembles dst r x off (jmp_entry (new_jmp_instruction op class) (op + class))
    unfolding new_jmp_instruction
    new_jmp_instruction-assembles off f c = (
      plain_word _ (record { operation_code = o; source = inr refl }, c) (omega arith) p q off
          (ground arith) _ (omega arith),
      plain_word _ (record { operation_code = o; source = inl refl }, c) s p (omega arith) off
          (ground arith) _ (omega arith),
    )

  mov64-assembles : AluAssembles dst r x (alu_entry Alu.mov64 0xb7)
  unfolding Alu.mov64
  mov64-assembles =
      let plain = new_alu_instruction-assembles 0xb0 7 (omega arith) (inr refl) in
      let fits : (sext_32_64 (to_u32 (sext_32_64 x)) == sext_32_64 x) ≡ true = ground arith in
      let small : (sext_32_64 (to_u32 (sext_32_64 r)) == sext_32_64 r) ≡ true = ground arith in
      (rw small plain.0, rw fits plain.1)

  -- Each of the 28 ALU constructors, on registers below 16, encodes to one word with the kernel's opcode
  -- for it: with a register in the source field and bit 3 of the opcode set, and with an int32 in the
  -- immediate field.
  pub alu_table-assembles : All (AluAssembles dst r x) alu_table
  unfolding Alu.add64 Alu.add Alu.sub64 Alu.sub Alu.mul64 Alu.mul Alu.div64 Alu.div Alu.or64 Alu.or
      Alu.and64 Alu.and Alu.lsh64 Alu.lsh Alu.rsh64 Alu.rsh Alu.neg64 Alu.neg Alu.modulo64
      Alu.modulo Alu.xor64 Alu.xor Alu.mov64 Alu.mov Alu.arsh64 Alu.arsh Alu.end64 Alu.end
  alu_table-assembles =
      new_alu_instruction-assembles 0x0 7 (omega arith) (inr refl)
      & new_alu_instruction-assembles 0x0 4 (omega arith) (inl refl)
      & new_alu_instruction-assembles 0x10 7 (omega arith) (inr refl)
      & new_alu_instruction-assembles 0x10 4 (omega arith) (inl refl)
      & new_alu_instruction-assembles 0x20 7 (omega arith) (inr refl)
      & new_alu_instruction-assembles 0x20 4 (omega arith) (inl refl)
      & new_alu_instruction-assembles 0x30 7 (omega arith) (inr refl)
      & new_alu_instruction-assembles 0x30 4 (omega arith) (inl refl)
      & new_alu_instruction-assembles 0x40 7 (omega arith) (inr refl)
      & new_alu_instruction-assembles 0x40 4 (omega arith) (inl refl)
      & new_alu_instruction-assembles 0x50 7 (omega arith) (inr refl)
      & new_alu_instruction-assembles 0x50 4 (omega arith) (inl refl)
      & new_alu_instruction-assembles 0x60 7 (omega arith) (inr refl)
      & new_alu_instruction-assembles 0x60 4 (omega arith) (inl refl)
      & new_alu_instruction-assembles 0x70 7 (omega arith) (inr refl)
      & new_alu_instruction-assembles 0x70 4 (omega arith) (inl refl)
      & new_alu_instruction-assembles 0x80 7 (omega arith) (inr refl)
      & new_alu_instruction-assembles 0x80 4 (omega arith) (inl refl)
      & new_alu_instruction-assembles 0x90 7 (omega arith) (inr refl)
      & new_alu_instruction-assembles 0x90 4 (omega arith) (inl refl)
      & new_alu_instruction-assembles 0xa0 7 (omega arith) (inr refl)
      & new_alu_instruction-assembles 0xa0 4 (omega arith) (inl refl)
      & mov64-assembles
      & new_alu_instruction-assembles 0xb0 4 (omega arith) (inl refl)
      & new_alu_instruction-assembles 0xc0 7 (omega arith) (inr refl)
      & new_alu_instruction-assembles 0xc0 4 (omega arith) (inl refl)
      & new_alu_instruction-assembles 0xd0 7 (omega arith) (inr refl)
      & new_alu_instruction-assembles 0xd0 4 (omega arith) (inl refl)
      & tt

  -- Each of the 22 conditional jumps, on registers below 16 and an int16 offset, encodes to one word with
  -- the kernel's opcode for it and the offset in its field: with a register in the source field and bit
  -- 3 of the opcode set, and with an int32 in the immediate field.
  pub jmp_table-assembles : (off : ℕ) → off < 2 ^ 16 → All (JmpAssembles dst r x off) jmp_table
  unfolding Jmp.jmp_eq Jmp.jmp_eq32 Jmp.jmp_gt Jmp.jmp_gt32 Jmp.jmp_ge Jmp.jmp_ge32 Jmp.jmp_set
      Jmp.jmp_set32 Jmp.jmp_ne Jmp.jmp_ne32 Jmp.jmp_sgt Jmp.jmp_sgt32 Jmp.jmp_sge Jmp.jmp_sge32
      Jmp.jmp_lt Jmp.jmp_lt32 Jmp.jmp_le Jmp.jmp_le32 Jmp.jmp_slt Jmp.jmp_slt32 Jmp.jmp_sle
      Jmp.jmp_sle32
  jmp_table-assembles off f =
      new_jmp_instruction-assembles 0x10 5 (omega arith) off f (inl refl)
      & new_jmp_instruction-assembles 0x10 6 (omega arith) off f (inr refl)
      & new_jmp_instruction-assembles 0x20 5 (omega arith) off f (inl refl)
      & new_jmp_instruction-assembles 0x20 6 (omega arith) off f (inr refl)
      & new_jmp_instruction-assembles 0x30 5 (omega arith) off f (inl refl)
      & new_jmp_instruction-assembles 0x30 6 (omega arith) off f (inr refl)
      & new_jmp_instruction-assembles 0x40 5 (omega arith) off f (inl refl)
      & new_jmp_instruction-assembles 0x40 6 (omega arith) off f (inr refl)
      & new_jmp_instruction-assembles 0x50 5 (omega arith) off f (inl refl)
      & new_jmp_instruction-assembles 0x50 6 (omega arith) off f (inr refl)
      & new_jmp_instruction-assembles 0x60 5 (omega arith) off f (inl refl)
      & new_jmp_instruction-assembles 0x60 6 (omega arith) off f (inr refl)
      & new_jmp_instruction-assembles 0x70 5 (omega arith) off f (inl refl)
      & new_jmp_instruction-assembles 0x70 6 (omega arith) off f (inr refl)
      & new_jmp_instruction-assembles 0xa0 5 (omega arith) off f (inl refl)
      & new_jmp_instruction-assembles 0xa0 6 (omega arith) off f (inr refl)
      & new_jmp_instruction-assembles 0xb0 5 (omega arith) off f (inl refl)
      & new_jmp_instruction-assembles 0xb0 6 (omega arith) off f (inr refl)
      & new_jmp_instruction-assembles 0xc0 5 (omega arith) off f (inl refl)
      & new_jmp_instruction-assembles 0xc0 6 (omega arith) off f (inr refl)
      & new_jmp_instruction-assembles 0xd0 5 (omega arith) off f (inl refl)
      & new_jmp_instruction-assembles 0xd0 6 (omega arith) off f (inr refl)
      & tt

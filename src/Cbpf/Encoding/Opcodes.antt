-- ===== src/Cbpf/Encoding/Opcodes.antt =====
-- The opcode of every constructor, as the kernel's filter.h numbers it.
use buzzer.Common.{ℕ, ◌+◌, ◌≡◌, refl, List, [], ◌∷◌, All, ◌&◌}
use buzzer.Common.Words.{to_u8, to_u32}
use buzzer.Cbpf.{Src, Instruction, reg, int32, int}
use buzzer.Cbpf.Alu
use buzzer.Cbpf.Alu.{new_alu_instruction, ret, misc}
use buzzer.Cbpf.Jmp
use buzzer.Cbpf.Jmp.{new_jmp_instruction}
use buzzer.Cbpf.StLd
use buzzer.Cbpf.StLd.{new_store_load_operation}
use buzzer.Cbpf.Encoding.{Filter, encode_filter}

abbrev pub filter : ℕ → ℕ → ℕ → ℕ → Filter
filter opcode jt jf k = record { opcode = opcode; jt = jt; jf = jf; k = k }

-- What a constructor is for: `byte` is the opcode with the operand K, and with X it is 8 more.
abbrev pub Operands : (Src → Instruction) → ℕ → ℕ → ℕ → Type 0
Operands build byte jt jf =
    ((k : ℕ) → encode_filter (build (int32 k)) ≡ filter byte jt jf k)
    × ((x : ℕ) → encode_filter (build (int x)) ≡ filter byte jt jf (to_u32 x))
    × ((r : ℕ) → encode_filter (build (reg r)) ≡ filter (byte + 8) jt jf 1)

pub record AluEntry : Type 0 where
  pub build : Src → Instruction
  pub byte : ℕ

pub record JmpEntry : Type 0 where
  pub build : ℕ → ℕ → Src → Instruction
  pub byte : ℕ

pub record StLdEntry : Type 0 where
  pub build : ℕ → Instruction
  pub byte : ℕ

abbrev alu_entry : (Src → Instruction) → ℕ → AluEntry
alu_entry build byte = record { build = build; byte = byte }

abbrev jmp_entry : (ℕ → ℕ → Src → Instruction) → ℕ → JmpEntry
jmp_entry build byte = record { build = build; byte = byte }

abbrev st_ld_entry : (ℕ → Instruction) → ℕ → StLdEntry
st_ld_entry build byte = record { build = build; byte = byte }

abbrev pub alu_table : List AluEntry
alu_table =
    alu_entry Alu.add 0x04
    ∷ alu_entry Alu.sub 0x14
    ∷ alu_entry Alu.mul 0x24
    ∷ alu_entry Alu.div 0x34
    ∷ alu_entry Alu.or 0x44
    ∷ alu_entry Alu.and 0x54
    ∷ alu_entry Alu.lsh 0x64
    ∷ alu_entry Alu.rsh 0x74
    ∷ alu_entry Alu.neg 0x84
    ∷ alu_entry Alu.modulo 0x94
    ∷ alu_entry Alu.xor 0xa4
    ∷ []

abbrev pub jmp_table : List JmpEntry
jmp_table =
    jmp_entry Jmp.jmp_eq 0x15
    ∷ jmp_entry Jmp.jmp_gt 0x25
    ∷ jmp_entry Jmp.jmp_ge 0x35
    ∷ jmp_entry Jmp.jmp_set 0x45
    ∷ []

abbrev pub st_ld_table : List StLdEntry
st_ld_table =
    st_ld_entry StLd.ld 0x60
    ∷ st_ld_entry StLd.ldi 0x00
    ∷ st_ld_entry StLd.ld_len 0x80
    ∷ st_ld_entry StLd.ld_abs_w 0x20
    ∷ st_ld_entry StLd.ld_abs_h 0x28
    ∷ st_ld_entry StLd.ld_abs_b 0x30
    ∷ st_ld_entry StLd.ld_ind_w 0x40
    ∷ st_ld_entry StLd.ld_ind_h 0x48
    ∷ st_ld_entry StLd.ld_ind_b 0x50
    ∷ st_ld_entry StLd.ldx 0x61
    ∷ st_ld_entry StLd.ldxi 0x01
    ∷ st_ld_entry StLd.ldx_len 0x81
    ∷ st_ld_entry StLd.ldx_abs 0x21
    ∷ st_ld_entry StLd.ldxb 0xb1
    ∷ st_ld_entry StLd.st 0x62
    ∷ st_ld_entry StLd.stx 0x63
    ∷ []

-- The eleven ALU constructors encode to the kernel's opcodes with an immediate in K, and with the
-- register X for every register.
pub alu_table-encodes : All (λ (e : AluEntry). Operands e.build e.byte 0 0) alu_table
unfolding Alu.add Alu.sub Alu.mul Alu.div Alu.or Alu.and Alu.lsh Alu.rsh Alu.neg Alu.modulo Alu.xor
    new_alu_instruction
alu_table-encodes =
    ((λ k. refl), (λ x. refl), (λ r. refl))
    & ((λ k. refl), (λ x. refl), (λ r. refl))
    & ((λ k. refl), (λ x. refl), (λ r. refl))
    & ((λ k. refl), (λ x. refl), (λ r. refl))
    & ((λ k. refl), (λ x. refl), (λ r. refl))
    & ((λ k. refl), (λ x. refl), (λ r. refl))
    & ((λ k. refl), (λ x. refl), (λ r. refl))
    & ((λ k. refl), (λ x. refl), (λ r. refl))
    & ((λ k. refl), (λ x. refl), (λ r. refl))
    & ((λ k. refl), (λ x. refl), (λ r. refl))
    & ((λ k. refl), (λ x. refl), (λ r. refl))
    & tt

-- The four conditional jumps encode to the kernel's opcodes, with the low bytes of their two offsets,
-- an immediate in K, and the register X for every register.
pub jmp_table-encodes :
    (jt jf : ℕ)
    → All (λ (e : JmpEntry). Operands (e.build jt jf) e.byte (to_u8 jt) (to_u8 jf)) jmp_table
unfolding Jmp.jmp_eq Jmp.jmp_gt Jmp.jmp_ge Jmp.jmp_set new_jmp_instruction
jmp_table-encodes jt jf =
    ((λ k. refl), (λ x. refl), (λ r. refl))
    & ((λ k. refl), (λ x. refl), (λ r. refl))
    & ((λ k. refl), (λ x. refl), (λ r. refl))
    & ((λ k. refl), (λ x. refl), (λ r. refl))
    & tt

-- The sixteen loads and stores encode to the kernel's opcodes, with their argument in K.
pub st_ld_table-encodes :
    (k : ℕ) → All (λ (e : StLdEntry). encode_filter (e.build k) ≡ filter e.byte 0 0 k) st_ld_table
unfolding StLd.ld StLd.ldi StLd.ld_len StLd.ld_abs_w StLd.ld_abs_h StLd.ld_abs_b StLd.ld_ind_w
    StLd.ld_ind_h StLd.ld_ind_b StLd.ldx StLd.ldxi StLd.ldx_len StLd.ldx_abs StLd.ldxb StLd.st
    StLd.stx new_store_load_operation
st_ld_table-encodes k =
    refl & refl & refl & refl & refl & refl & refl & refl & refl & refl & refl & refl & refl & refl
    & refl & refl & tt

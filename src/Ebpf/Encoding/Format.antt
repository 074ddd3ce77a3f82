-- ===== src/Ebpf/Encoding/Format.antt =====
-- The instruction format, stated apart from the encoder: which instructions it can carry, and a
-- decoder that reads them back by division and remainder.
use buzzer.Common.{
  ℕ, zero, suc, ◌+◌, ◌*◌, ◌/◌, ◌%◌, ◌^◌, ◌<◌, ◌≡◌, ◌≢◌, ◌⊎◌, ◌||◌, List, [], ◌∷◌, Option, none,
  some, ltb, ◌==◌, if◌then◌else◌,
}
use mathlib.Core.Option
use buzzer.Common.Words.{sext_16_32}
use buzzer.Ebpf.{
  AluOpcode, MemOpcode, Opcode, Fields, Instruction, unset, alu_opcode, jmp_opcode, mem_opcode,
  empty, pseudo_value,
}

-- The fields of an opcode are multiples of their place, and stay in it.
pub record IsAluJmp (c : AluOpcode) : Type 0 where
  pub operation_code : (c.operation_code % 16 ≡ 0) × (c.operation_code < 256)
  pub source : (c.source ≡ 0) ⊎ (c.source ≡ 8)

pub record IsMem (c : MemOpcode) : Type 0 where
  pub mode : (c.mode % 32 ≡ 0) × (c.mode < 256)
  pub size : (c.size % 8 ≡ 0) × (c.size < 32)
  pub class : c.instruction_class < 4

abbrev pub IsOpcode : Opcode → Type 0
IsOpcode unset = ⊥
IsOpcode (alu_opcode c) = IsAluJmp c × ((c.instruction_class ≡ 4) ⊎ (c.instruction_class ≡ 7))
IsOpcode (jmp_opcode c) = IsAluJmp c × ((c.instruction_class ≡ 5) ⊎ (c.instruction_class ≡ 6))
IsOpcode (mem_opcode c) = IsMem c

-- The byte of an opcode whose fields are in place.
abbrev pub opcode_byte : Opcode → ℕ
opcode_byte unset = 0
opcode_byte (alu_opcode c) = c.instruction_class + c.source + c.operation_code
opcode_byte (jmp_opcode c) = c.instruction_class + c.source + c.operation_code
opcode_byte (mem_opcode c) = c.instruction_class + c.size + c.mode

-- The opcode of a load of a 64-bit immediate, the one instruction of two words.
abbrev pub wide_byte : ℕ
wide_byte = 0x18

pub record IsFields (i : Fields) : Type 0 where
  pub opcode : IsOpcode i.opcode
  pub dst : i.dst_reg < 16
  pub src : i.src_reg < 16
  pub offset : sext_16_32 (i.offset % 2 ^ 16) ≡ i.offset
  pub immediate : i.immediate < 2 ^ 32

-- An instruction has a second word exactly when it loads a 64-bit immediate.
abbrev pub IsInstruction : Instruction → Type 0
IsInstruction (empty i) = IsFields i × (opcode_byte i.opcode ≢ wide_byte)
IsInstruction (pseudo_value i (empty p)) =
    IsFields i × (opcode_byte i.opcode ≡ wide_byte) × IsFields p
IsInstruction (pseudo_value i (pseudo_value p q)) = ⊥

unfoldable pub decode_opcode : ℕ → Opcode
decode_opcode byte =
    let class = byte % 8 in
    let c : AluOpcode = record {
      operation_code = byte / 16 * 16;
      source = byte / 8 % 2 * 8;
      instruction_class = class;
    } in
    if ltb class 4
    then mem_opcode
        (record { mode = byte / 32 * 32; size = byte / 8 % 4 * 8; instruction_class = class })
    else if class == 5 || class == 6
    then jmp_opcode c
    else alu_opcode c

unfoldable pub decode_word : ℕ → Fields
unfolding decode_opcode
decode_word w = record {
  opcode = decode_opcode (w % 256);
  dst_reg = w / 2 ^ 8 % 16;
  src_reg = w / 2 ^ 12 % 16;
  offset = sext_16_32 (w / 2 ^ 16 % 2 ^ 16);
  immediate = w / 2 ^ 32;
}

-- A wide instruction takes the next word too, and is cut off without it.
unfoldable pub decode_pair : ℕ → List ℕ → Option (Instruction × List ℕ)
unfolding decode_word
decode_pair w [] = none
decode_pair w (v ∷ vs) = some (pseudo_value (decode_word w) (empty (decode_word v)), vs)

-- The first instruction of a stream of words, with the words behind it.
unfoldable pub decode_first : List ℕ → Option (Instruction × List ℕ)
unfolding decode_word decode_pair
decode_first [] = none
decode_first (w ∷ ws) =
    if w % 256 == wide_byte then decode_pair w ws else some (empty (decode_word w), ws)

-- All the instructions of a stream, of at most `fuel` of them.
unfoldable pub decode_all : ℕ → List ℕ → Option (List Instruction)
decode_all fuel [] = some []
decode_all zero (w ∷ ws) = none
decode_all (suc fuel) (w ∷ ws) = elim (decode_first (w ∷ ws)) [
  | none ↦ none
  | some (i, rest) ↦ Option.map (λ is. i ∷ is) (decode_all fuel rest)
]

-- ===== src/Ebpf/Encoding/RoundTrip.antt =====
-- The decoder of the format reads back what the encoder writes.
use buzzer.Common.{
  ℕ, ◌+◌, ◌*◌, ◌/◌, ◌%◌, ◌^◌, ◌<◌, ◌≡◌, ap, ◌∙◌, arith, List, [], ◌∷◌, ◌++◌, some, All,
}
use buzzer.Common.Run.{ok}
use buzzer.Common.Words.{sext_16_32, IsU64}
use buzzer.Ebpf.{
  Opcode, Fields, Instruction, unset, alu_opcode, jmp_opcode, mem_opcode, empty, pseudo_value,
}
use buzzer.Ebpf.Encoding.{encode_opcode, encode_word, encode_instruction}
use buzzer.Ebpf.Encoding.Opcodes.{alu_jmp_byte, mem_byte, encode_word-layout}
use buzzer.Ebpf.Encoding.Format.{
  IsOpcode, opcode_byte, IsFields, IsInstruction, decode_opcode, decode_word, decode_first,
}

pub opcode_byte-lt : (c : Opcode) → IsOpcode c → opcode_byte c < 256
opcode_byte-lt unset h = absurd h
opcode_byte-lt (alu_opcode c) h = omega arith
opcode_byte-lt (jmp_opcode c) h = omega arith
opcode_byte-lt (mem_opcode c) h = omega arith

-- The masks lose nothing of an opcode whose fields are in place.
pub encode_opcode-ok : (c : Opcode) → IsOpcode c → encode_opcode c ≡ ok (opcode_byte c)
unfolding encode_opcode
encode_opcode-ok unset h = absurd h
encode_opcode-ok (alu_opcode c) h =
    alu_jmp_byte (c.operation_code % 2 ^ 8) (c.instruction_class % 2 ^ 8) (c.source % 2 ^ 8)
      (omega arith) (omega arith) (omega arith)
    ∙ ap ok (omega arith)
encode_opcode-ok (jmp_opcode c) h =
    alu_jmp_byte (c.operation_code % 2 ^ 8) (c.instruction_class % 2 ^ 8) (c.source % 2 ^ 8)
      (omega arith) (omega arith) (omega arith)
    ∙ ap ok (omega arith)
encode_opcode-ok (mem_opcode c) h = mem_byte c ∙ ap ok (omega arith)

pub decode_opcode-byte : (c : Opcode) → IsOpcode c → decode_opcode (opcode_byte c) ≡ c
unfolding decode_opcode
decode_opcode-byte unset h = absurd h
decode_opcode-byte (alu_opcode c) h = ground arith
decode_opcode-byte (jmp_opcode c) h = ground arith
decode_opcode-byte (mem_opcode c) h = ground arith

module _ (i : Fields) (h : IsFields i) where
  -- The word of an instruction whose fields are in place.
  abbrev word : ℕ
  word = encode_word i (opcode_byte i.opcode)

  word-layout :
      word
      ≡ opcode_byte i.opcode
        + i.dst_reg * 2 ^ 8
        + i.src_reg * 2 ^ 12
        + i.offset % 2 ^ 16 * 2 ^ 16
        + i.immediate * 2 ^ 32
  word-layout =
      encode_word-layout i (opcode_byte i.opcode) (opcode_byte-lt i.opcode h.opcode) h.immediate
      ∙ omega (arith, h.dst, h.src)

  word-mod : word % 256 ≡ opcode_byte i.opcode
  word-mod = omega (arith, word-layout, opcode_byte-lt i.opcode h.opcode)

  word-lt : word < 2 ^ 64
  word-lt = omega (arith, word-layout, opcode_byte-lt i.opcode h.opcode, h.dst, h.src, h.immediate)

  decode_word-word : decode_word word ≡ i
  unfolding decode_word
  decode_word-word =
      let code : decode_opcode (word % 256) ≡ i.opcode =
        ap decode_opcode word-mod ∙ decode_opcode-byte i.opcode h.opcode in
      let dst : word / 2 ^ 8 % 16 ≡ i.dst_reg = omega (arith, word-layout, byte, h.dst) in
      let src : word / 2 ^ 12 % 16 ≡ i.src_reg = omega (arith, word-layout, byte, h.dst, h.src) in
      let off : word / 2 ^ 16 % 2 ^ 16 ≡ i.offset % 2 ^ 16 =
        omega (arith, word-layout, byte, h.dst, h.src) in
      let imm : word / 2 ^ 32 ≡ i.immediate = omega (arith, word-layout, byte, h.dst, h.src) in
      λ t. record {
        opcode = code t;
        dst_reg = dst t;
        src_reg = src t;
        offset = (ap (λ (x : ℕ). sext_16_32 x) off ∙ h.offset) t;
        immediate = imm t;
      }
    where
      byte : opcode_byte i.opcode < 256
      byte = opcode_byte-lt i.opcode h.opcode

-- On an instruction that the format can carry the encoder returns 64-bit words, and the decoder reads
-- the instruction back from the front of any stream of words that begins with them.
pub decode_first-encode_instruction :
    (i : Instruction)
    → IsInstruction i
    → (ws : List ℕ) × (encode_instruction i ≡ ok ws)
      × All IsU64 ws
      × ((rest : List ℕ) → decode_first (ws ++ rest) ≡ some (i, rest))
unfolding encode_instruction decode_first
decode_first-encode_instruction (empty i) (h, narrow) = (
  word i h ∷ [],
  rw (encode_opcode-ok i.opcode h.opcode),
  (word-lt i h, tt),
  λ rest. ground (arith, word-mod i h, decode_word-word i h),
)
decode_first-encode_instruction (pseudo_value i (empty p)) (h, wide, hp) = (
  word i h ∷ word p hp ∷ [],
  rw (encode_opcode-ok i.opcode h.opcode, encode_opcode-ok p.opcode hp.opcode),
  (word-lt i h, (word-lt p hp, tt)),
  λ rest. ground (arith, word-mod i h, decode_word-word i h, decode_word-word p hp),
)
decode_first-encode_instruction (pseudo_value i (pseudo_value p q)) h = absurd h

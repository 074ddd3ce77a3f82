-- ===== src/Ebpf/Encoding/Opcodes.antt =====
-- The opcode byte and the instruction word in plain arithmetic.
use buzzer.Common.{ℕ, ◌+◌, ◌*◌, ◌/◌, ◌%◌, ◌^◌, ◌<◌, ◌≡◌, arith, ap, ◌∙◌, bit_and, bit_or}
use buzzer.Common.Bits.{
  or_three, zero-bit_or, bit_or_above, bit_and_07, bit_and_08, bit_and_0f, bit_and_18, bit_and_e0,
  bit_and_f0,
}
use buzzer.Common.Run.{ok}
use buzzer.Common.Words.{sext_32_64, to_u8, to_u16, to_u32, to_u64}
use buzzer.Ebpf.{MemOpcode, Fields}
use buzzer.Ebpf.Encoding.{encode_alu_jmp_opcode, encode_mem_opcode, encode_word}

-- On any three bytes, the opcode keeps the low 3 bits of the class, bit 3 of the source and the high
-- 4 bits of the operation.
pub alu_jmp_byte :
    (op class source : ℕ)
    → op < 256
    → class < 256
    → source < 256
    → encode_alu_jmp_opcode op class source ≡ ok (class % 8 + source / 8 % 2 * 8 + op / 16 * 16)
unfolding encode_alu_jmp_opcode
alu_jmp_byte op class source p q r =
    rw (bit_and_07 class q, bit_and_08 source r, bit_and_f0 op p)
      (ap ok (or_three (class % 8) (source / 8 % 2) (op / 16) 4 (omega arith) (omega arith)))

pub mem_byte :
    (c : MemOpcode)
    → encode_mem_opcode c
      ≡ ok (c.instruction_class % 8 + c.size / 8 % 4 * 8 + c.mode % 256 / 32 * 32)
unfolding encode_mem_opcode
mem_byte c =
    rw
      (
        bit_and_07 (c.instruction_class % 2 ^ 8) (omega arith),
        bit_and_18 (c.size % 2 ^ 8) (omega arith),
        bit_and_e0 (c.mode % 2 ^ 8) (omega arith),
      )
      (ap ok (
        or_three (c.instruction_class % 2 ^ 8 % 8) (c.size % 2 ^ 8 / 8 % 4) (c.mode % 2 ^ 8 / 32) 5
          (omega arith) (omega arith)
        ∙ omega arith))

registers_byte :
    (dst src : ℕ)
    → bit_or (to_u8 (bit_and (to_u8 dst) 0x0f)) (to_u8 (bit_and (to_u8 src) 0x0f * 2 ^ 4))
      ≡ dst % 16 + src % 16 * 2 ^ 4
registers_byte dst src =
    rw
      (
        bit_and_0f (dst % 2 ^ 8) (omega arith),
        bit_and_0f (src % 2 ^ 8) (omega arith),
        dst_part,
        src_part,
      )
      (bit_or_above 4 (dst % 16) (src % 16) (omega arith))
  where
    dst_part : dst % 2 ^ 8 % 16 % 2 ^ 8 ≡ dst % 16
    dst_part = omega arith

    src_part : src % 2 ^ 8 % 16 * 2 ^ 4 % 2 ^ 8 ≡ src % 16 * 2 ^ 4
    src_part = omega arith

-- The five fields of a word, from bit 0 on.
pub encode_word-layout :
    (i : Fields) (opcode : ℕ)
    → opcode < 256
    → i.immediate < 2 ^ 32
    → encode_word i opcode
      ≡ opcode
        + i.dst_reg % 16 * 2 ^ 8
        + i.src_reg % 16 * 2 ^ 12
        + i.offset % 2 ^ 16 * 2 ^ 16
        + i.immediate * 2 ^ 32
unfolding encode_word
encode_word-layout i opcode p q =
    rw (registers_byte i.dst_reg i.src_reg, zero-bit_or opcode, regs, offs, imm)
      (rw
        (
          bit_or_above 8 opcode r p,
          bit_or_above 16 (opcode + r * 2 ^ 8) o (omega arith),
          bit_or_above 32 (opcode + r * 2 ^ 8 + o * 2 ^ 16) i.immediate (omega arith),
        )
        (omega arith))
  where
    r : ℕ
    r = i.dst_reg % 16 + i.src_reg % 16 * 2 ^ 4

    o : ℕ
    o = i.offset % 2 ^ 16

    regs : to_u16 (r * 2 ^ 8) ≡ r * 2 ^ 8
    regs = omega arith

    offs : to_u32 (i.offset * 2 ^ 16) ≡ o * 2 ^ 16
    offs = omega arith

    imm : to_u64 (sext_32_64 i.immediate * 2 ^ 32) ≡ i.immediate * 2 ^ 32
    imm = ground arith

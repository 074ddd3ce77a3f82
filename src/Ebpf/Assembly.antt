-- ===== src/Ebpf/Assembly.antt =====
-- From a constructor to its word: what encodeInstruction makes of an instruction just built.
-- The children give the opcode of every named constructor as the kernel numbers it.
pub mod AluJmp
pub mod Memory
pub mod Values
mod Tests
use buzzer.Common.{ℕ, ◌+◌, ◌*◌, ◌%◌, ◌^◌, ◌<◌, ◌≡◌, ap, ◌∙◌, arith, List, [], ◌∷◌}
use buzzer.Common.Run.{Run, ok, ◌>>=◌}
use buzzer.Ebpf.{Instruction, Fields, empty}
use buzzer.Ebpf.Encoding.{encode_instruction}
use buzzer.Ebpf.Encoding.Opcodes.{encode_word-layout}
use buzzer.Ebpf.Encoding.Format.{IsOpcode, opcode_byte}
use buzzer.Ebpf.Encoding.RoundTrip.{encode_opcode-ok, opcode_byte-lt}

abbrev pub assemble : Run Instruction → Run (List ℕ)
assemble m = m >>= encode_instruction

-- The word of any instruction without a pseudo instruction.
pub plain_word :
    (i : Fields)
    → IsOpcode i.opcode
    → i.immediate < 2 ^ 32
    → i.dst_reg < 16
    → i.src_reg < 16
    → (o : ℕ) → o ≡ i.offset % 2 ^ 16
    → (w : ℕ)
    → w
      ≡ opcode_byte i.opcode
        + i.dst_reg * 2 ^ 8
        + i.src_reg * 2 ^ 12
        + o * 2 ^ 16
        + i.immediate * 2 ^ 32
    → assemble (ok (empty i)) ≡ ok (w ∷ [])
unfolding encode_instruction
plain_word i h p q r o e w d = rw (encode_opcode-ok i.opcode h) (
    ap (λ (t : ℕ). ok (t ∷ []))
      (encode_word-layout i (opcode_byte i.opcode) (opcode_byte-lt i.opcode h) p ∙ omega arith))

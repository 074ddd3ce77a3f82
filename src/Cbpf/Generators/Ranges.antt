-- ===== src/Cbpf/Generators/Ranges.antt =====
-- What the random classic BPF operations and jumps can be.
use buzzer.Common.{
  ℕ, zero, suc, ◌+◌, ◌*◌, ◌/◌, ◌%◌, ◌^◌, ◌≤◌, ◌<◌, ◌≡◌, ◌≢◌, ◌⊎◌, refl, arith, ◌==◌, length,
  bit_and, bit_or, ◌∙◌,
}
use buzzer.Common.Bits.{bit_or_above, bit_and_f0}
use buzzer.Common.Words.{to_u8, IsU32}
use buzzer.Cbpf.{Instruction, reg, int32, reg_x}
use buzzer.Cbpf.JmpOp
use buzzer.Cbpf.InsClass
use buzzer.Cbpf.Alu.{new_alu_instruction}
use buzzer.Cbpf.Jmp.{new_jmp_instruction}
use buzzer.Cbpf.Generators.{
  sext_8_32, alu_immediate, generate_imm_alu_instruction, random_alu_instruction, conditional_op,
  random_jmp_instruction,
}
use buzzer.Rand.Bounds.{rand_range_bounds, one_of-total}
use buzzer.Rand.Draws.{Yields, unfinished, Yields-give, Yields-bind, Yields-if}

-- What RandomAluInstruction may build: an ALU operation of the kernel with its offsets at 0, that shifts
-- by less than 32 if it shifts by an immediate.
pub record IsCbpfAlu (i : Instruction) : Type 0 where
  pub byte : i.opcode < 2 ^ 8
  pub class : i.opcode % 8 ≡ InsClass.alu
  pub operation : i.opcode / 16 ≤ 10
  pub no_offsets : (i.jt ≡ 0) × (i.jf ≡ 0)
  pub k : IsU32 i.k
  pub shift : ((i.opcode ≢ 0x64) × (i.opcode ≢ 0x74)) ⊎ (i.k < 32)

-- What RandomJmpInstruction may build: a conditional jump that goes on where it holds, and goes over at
-- most `max` instructions, in the 8 bits that its filter keeps, where it does not.
pub record IsCbpfJmp (max : ℕ) (i : Instruction) : Type 0 where
  pub byte : i.opcode < 2 ^ 8
  pub class : i.opcode % 8 ≡ InsClass.jmp
  pub operation : (1 ≤ i.opcode / 16) × (i.opcode / 16 ≤ 4)
  pub jt : i.jt ≡ 0
  pub jf : to_u8 i.jf ≤ max
  pub k : IsU32 i.k

or_operation :
    (lo op : ℕ) → lo < 16 → op % 16 ≡ 0 → op < 256 → bit_or lo (bit_and op 0xf0) ≡ lo + op
or_operation lo op q h p =
    rw (bit_and_f0 op p) (bit_or_above 4 lo (op / 16) (omega arith) ∙ omega arith)

new_alu-int32 :
    (op x : ℕ)
    → op % 16 ≡ 0
    → op < 256
    → new_alu_instruction op (int32 x) ≡ record { opcode = 4 + op; jt = 0; jf = 0; k = x }
unfolding new_alu_instruction
new_alu-int32 op x h p = rw (or_operation 4 op (omega arith) h p) refl

new_alu-reg :
    (op r : ℕ)
    → op % 16 ≡ 0
    → op < 256
    → new_alu_instruction op (reg r) ≡ record { opcode = 12 + op; jt = 0; jf = 0; k = 1 }
unfolding new_alu_instruction
new_alu-reg op r h p = rw (or_operation 12 op (omega arith) h p) refl

new_jmp-int32 :
    (op jt jf x : ℕ)
    → op % 16 ≡ 0
    → op < 256
    → new_jmp_instruction op jt jf (int32 x) ≡ record { opcode = 5 + op; jt = jt; jf = jf; k = x }
unfolding new_jmp_instruction
new_jmp-int32 op jt jf x h p = rw (or_operation 5 op (omega arith) h p) refl

new_jmp-reg :
    (op jt jf r : ℕ)
    → op % 16 ≡ 0
    → op < 256
    → new_jmp_instruction op jt jf (reg r) ≡ record { opcode = 13 + op; jt = jt; jf = jf; k = 1 }
unfolding new_jmp_instruction
new_jmp-reg op jt jf r h p = rw (or_operation 13 op (omega arith) h p) refl

alu_immediate-range :
    (op x : ℕ)
    → x < 2 ^ 32
    → IsU32 (alu_immediate op x) × (((op ≢ 0x60) × (op ≢ 0x70)) ⊎ (alu_immediate op x < 32))
unfolding alu_immediate
alu_immediate-range op x h = (ground arith, ground arith)

-- Every instruction that RandomAluInstruction returns is an ALU operation of the kernel with its offsets
-- at 0, and shifts by less than 32 if it shifts by an immediate; generating it never panics.
pub random_alu_instruction-IsCbpfAlu : Yields IsCbpfAlu random_alu_instruction
unfolding random_alu_instruction generate_imm_alu_instruction
random_alu_instruction-IsCbpfAlu =
    Yields-bind (rand_range_bounds 0 10 (omega arith) (omega arith)) λ v o.
      Yields-bind (rand_range_bounds 0 1 (omega arith) (omega arith)) λ imm _.
        Yields-if (imm == 0)
          (λ _. Yields-bind (rand_range_bounds 0 0xffff_ffff (omega arith) (omega arith)) λ x h.
            let (u, s) = alu_immediate-range (v * 2 ^ 4) x (omega arith) in
            Yields-give (
              rw
                (new_alu-int32 (v * 2 ^ 4) (alu_immediate (v * 2 ^ 4) x) (omega arith)
                  (omega arith))
                (record {
                  byte = omega arith;
                  class = omega arith;
                  operation = omega arith;
                  no_offsets = (refl, refl);
                  k = u;
                  shift = omega arith;
                })))
          λ _. Yields-give (
            rw (new_alu-reg (v * 2 ^ 4) reg_x (omega arith) (omega arith)) (record {
              byte = omega arith;
              class = omega arith;
              operation = omega arith;
              no_offsets = (refl, refl);
              k = omega arith;
              shift = omega arith;
            }))

conditional_op-range :
    (fuel : ℕ) → Yields (λ op. (op % 16 ≡ 0) × (16 ≤ op) × (op ≤ 64)) (conditional_op fuel)
unfolding conditional_op
conditional_op-range zero = λ ds. unfinished
conditional_op-range (suc fuel) =
    Yields-bind (rand_range_bounds 0 4 (omega arith) (omega arith)) λ v h.
      Yields-if (v * 2 ^ 4 == JmpOp.ja) (λ _. conditional_op-range fuel)
        λ e. Yields-give (ground arith)

-- The offset goes through an int8 and an int32 to the byte of the filter.
offset_byte : (o max : ℕ) → o ≤ max → to_u8 (sext_8_32 (to_u8 o)) ≤ max
offset_byte o max h = ground arith

-- Every instruction that RandomJmpInstruction returns is a conditional jump of the kernel that goes on
-- where it holds, and whose filter goes over at most `max` instructions where it does not, although the
-- offset has only 8 bits. This holds for each `max` that is not zero and below 2^63 - 1, and
-- generating the jump never panics.
pub random_jmp_instruction-IsCbpfJmp :
    (max : ℕ) → 1 ≤ max → max + 1 < 2 ^ 63 → Yields (IsCbpfJmp max) (random_jmp_instruction max)
unfolding random_jmp_instruction
random_jmp_instruction-IsCbpfJmp max p q =
    Yields-bind (λ ds. conditional_op-range (suc (length ds)) ds)
      λ op (h, lo, hi). Yields-bind (rand_range_bounds 1 max p q) λ o r.
        Yields-bind (one_of-total 2 (omega arith) (omega arith)) λ constant _.
          Yields-if constant
            (λ _. Yields-bind (rand_range_bounds 0 0xffff_ffff (omega arith) (omega arith)) λ x u.
              Yields-give (
                rw (new_jmp-int32 op 0 (sext_8_32 (to_u8 o)) x h (omega arith)) (record {
                  byte = omega arith;
                  class = omega arith;
                  operation = omega arith;
                  jt = refl;
                  jf = offset_byte o max r.1;
                  k = omega arith;
                })))
            λ _. Yields-give (
              rw (new_jmp-reg op 0 (sext_8_32 (to_u8 o)) reg_x h (omega arith)) (record {
                byte = omega arith;
                class = omega arith;
                operation = omega arith;
                jt = refl;
                jf = offset_byte o max r.1;
                k = omega arith;
              }))

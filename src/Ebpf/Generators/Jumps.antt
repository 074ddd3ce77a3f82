-- ===== src/Ebpf/Generators/Jumps.antt =====
-- Random jumps and random accesses to the stack: all can be encoded, and each obeys its rules.
use buzzer.Common.{
  ℕ, zero, suc, ◌%◌, ◌^◌, ◌≤◌, ◌<◌, ◌≡◌, ◌≢◌, ◌⊎◌, inl, inr, refl, arith, if◌then◌else◌, length,
  Bool, true, false,
}
use buzzer.Common.Words.{to_u16, sext_16_32}
use buzzer.Ebpf.{Instruction, Opcode, empty, pseudo_value, jmp_opcode}
use buzzer.Ebpf.InsClass
use buzzer.Ebpf.Jmp.{new_jmp_instruction}
use buzzer.Ebpf.Encoding.Format.{IsInstruction}
use buzzer.Ebpf.Generators.{random_jump_op, is_conditional, conditional_op, random_jmp_instruction}
use buzzer.Ebpf.Generators.Alu.{random_register-le}
use buzzer.Rand.Bounds.{rand_range_bounds, one_of-total}
use buzzer.Rand.Draws.{Yields, unfinished, Yields-give, Yields-bind, Yields-if}

-- The eleven conditional jumps of the instruction set: from Jeq 0x10 to Jsle 0xd0, less Call 0x80 and
-- Exit 0x90.
abbrev pub IsConditionalOp : ℕ → Type 0
IsConditionalOp op = (op % 16 ≡ 0) × (0x10 ≤ op) × (op ≤ 0xd0) × (op ≢ 0x80) × (op ≢ 0x90)

-- What RandomJmpInstruction may build: a conditional jump forward by at most `max` instructions.
abbrev pub JmpRule : Opcode → Type 0
JmpRule (jmp_opcode c) = IsConditionalOp c.operation_code
JmpRule other = ⊥

abbrev pub IsRandomJmp : ℕ → Instruction → Type 0
IsRandomJmp max (empty i) =
    IsInstruction (empty i) × JmpRule i.opcode × (1 ≤ i.offset) × (i.offset ≤ max)
IsRandomJmp max (pseudo_value i p) = ⊥

abbrev IsJmpOp : ℕ → Type 0
IsJmpOp op = (op % 16 ≡ 0) × (op ≤ 0xd0)

-- IsConditional picks these of the operations that RandomJumpOp draws.
is_conditional-IsConditionalOp :
    (op : ℕ) → IsJmpOp op → is_conditional op ≡ true → IsConditionalOp op
unfolding is_conditional
is_conditional-IsConditionalOp op o e = ground arith

conditional_op-IsConditionalOp : (fuel : ℕ) → Yields IsConditionalOp (conditional_op fuel)
unfolding conditional_op random_jump_op
conditional_op-IsConditionalOp zero = λ ds. unfinished
conditional_op-IsConditionalOp (suc fuel) =
    Yields-bind
      (Yields-bind (rand_range_bounds 0 0x0d (omega arith) (omega arith))
        λ v h. Yields-give {P = IsJmpOp} (omega arith))
      λ op o.
        Yields-if (is_conditional op) (λ e. Yields-give (is_conditional-IsConditionalOp op o e))
          (λ e. conditional_op-IsConditionalOp fuel)

offset-kept : (off : ℕ) → off < 2 ^ 16 → sext_16_32 (sext_16_32 off % 2 ^ 16) ≡ sext_16_32 off
offset-kept off h = ground arith

-- Every instruction that RandomJmpInstruction returns is one of the eleven conditional jumps of the instruction
-- set, never Ja, Call or Exit; it can be encoded, and jumps forward by 1 to `max` instructions; generating it never panics. This holds where `max` is an
-- int16 and not zero.
pub random_jmp_instruction-IsRandomJmp :
    (max : ℕ) → 1 ≤ max → max < 2 ^ 15 → Yields (IsRandomJmp max) (random_jmp_instruction max)
unfolding random_jmp_instruction new_jmp_instruction
random_jmp_instruction-IsRandomJmp max p q =
    Yields-bind (λ ds. conditional_op-IsConditionalOp (suc (length ds)) ds)
      λ op cond. Yields-bind (one_of-total 2 (omega arith) (omega arith)) λ narrow _.
        Yields-bind random_register-le λ dst d.
          Yields-bind (rand_range_bounds 1 max p (omega arith)) λ off (lo, hi).
            Yields-bind (one_of-total 2 (omega arith) (omega arith)) λ constant _.
              let forward : sext_16_32 (to_u16 off) ≡ off = ground arith in
              Yields-if constant
                (λ _.
                  Yields-bind (rand_range_bounds 0 0xffff_ffff (omega arith) (omega arith)) λ v h.
                    Yields-give (
                      (
                        record {
                          opcode = (
                            record { operation_code = (cond.0, omega arith); source = inl refl },
                            classes narrow,
                          );
                          dst = omega arith;
                          src = omega arith;
                          offset = offset-kept (to_u16 off) (omega arith);
                          immediate = omega arith;
                        },
                        omega (arith, classes narrow),
                      ),
                      cond,
                      omega (arith, forward),
                      omega (arith, forward),
                    ))
                λ _. Yields-bind random_register-le λ r h. Yields-give (
                  (
                    record {
                      opcode = (
                        record { operation_code = (cond.0, omega arith); source = inr refl },
                        classes narrow,
                      );
                      dst = omega arith;
                      src = omega arith;
                      offset = offset-kept (to_u16 off) (omega arith);
                      immediate = omega arith;
                    },
                    omega (arith, classes narrow),
                  ),
                  cond,
                  omega (arith, forward),
                  omega (arith, forward),
                )
  where
    IsJmpClass : ℕ → Type 0
    IsJmpClass c = (c ≡ 5) ⊎ (c ≡ 6)

    classes : (b : Bool) → IsJmpClass (if b then InsClass.jmp32 else InsClass.jmp)
    classes true = inr refl
    classes false = inl refl

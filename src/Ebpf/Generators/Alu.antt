-- ===== src/Ebpf/Generators/Alu.antt =====
-- Random ALU instructions: all can be encoded, and each obeys the rules of its operation.
use buzzer.Common.{
  ℕ, zero, suc, ◌*◌, ◌%◌, ◌^◌, ◌≤◌, ◌<◌, ◌≡◌, ◌≢◌, ◌⊎◌, inl, inr, refl, arith, ◌==◌, if◌then◌else◌,
  length, Bool-cases,
}
use buzzer.Ebpf.{Instruction, Opcode, empty, pseudo_value, alu_opcode}
use buzzer.Ebpf.AluOp
use buzzer.Ebpf.InsClass
use buzzer.Ebpf.Alu.{new_alu_instruction}
use buzzer.Ebpf.Encoding.Format.{IsInstruction}
use buzzer.Ebpf.Generators.{
  random_register, random_alu_op, alu_immediate, generate_imm_alu_instruction, redraw_neg,
  generate_reg_alu_instruction, random_alu_instruction,
}
use buzzer.Rand.Bounds.{rand_range_bounds}
use buzzer.Rand.Draws.{Yields, sound, unfinished, Yields-give, Yields-bind, Yields-if, Yields-map}

-- Neither Lsh, Rsh nor Arsh, by the numbers of the instruction set.
abbrev pub IsNoShift : ℕ → Type 0
IsNoShift op = (op ≢ 0x60) × (op ≢ 0x70) × (op ≢ 0xc0)

-- What RandomAluInstruction may build: a shift by an immediate stays below the width of its class (32 for
-- class 4, else 64), and a negation (0x80) has the immediate 0 for its source.
abbrev pub AluRule : Opcode → ℕ → Type 0
AluRule (alu_opcode c) imm =
    (IsNoShift c.operation_code
      ⊎ (c.source ≡ 8)
      ⊎ (imm < (if c.instruction_class == 4 then 32 else 64)))
    × ((c.operation_code ≢ 0x80) ⊎ ((c.source ≡ 0) × (imm ≡ 0)))
AluRule other imm = ⊥

abbrev pub IsRandomAlu : Instruction → Type 0
IsRandomAlu (empty i) = IsInstruction (empty i) × AluRule i.opcode i.immediate
IsRandomAlu (pseudo_value i p) = ⊥

pub random_register-le : Yields (λ r. r ≤ 9) random_register
unfolding random_register
random_register-le = Yields-map (rand_range_bounds 0 9 (omega arith) (omega arith)) λ v h. h.1

abbrev IsAluOp : ℕ → Type 0
IsAluOp op = (op % 16 ≡ 0) × (op < 256)

abbrev IsAluClass : ℕ → Type 0
IsAluClass c = (c ≡ InsClass.alu) ⊎ (c ≡ InsClass.alu64)

random_alu_op-IsAluOp : Yields IsAluOp random_alu_op
unfolding random_alu_op
random_alu_op-IsAluOp =
    Yields-bind (rand_range_bounds 0 0x0c (omega arith) (omega arith))
      λ v h. Yields-give (omega arith)

-- The immediate of a random operation, whatever int32 it is made of.
record IsImmediate (op class imm : ℕ) : Type 0 where
  int32 : imm < 2 ^ 32
  shift : IsNoShift op ⊎ (imm < (if class == 4 then 32 else 64))
  neg : (op ≢ 0x80) ⊎ (imm ≡ 0)

alu_immediate-IsImmediate :
    (op class value : ℕ) → value < 2 ^ 32 → IsImmediate op class (alu_immediate op class value)
unfolding alu_immediate
alu_immediate-IsImmediate op class value h = record {
  int32 = ground arith;
  shift = ground arith;
  neg = ground arith;
}

module _ (op class dst : ℕ) (o : IsAluOp op) (c : IsAluClass class) (d : dst ≤ 9) where
  generate_imm-IsRandomAlu : Yields IsRandomAlu (generate_imm_alu_instruction op class dst)
  unfolding generate_imm_alu_instruction new_alu_instruction
  generate_imm-IsRandomAlu =
      Yields-bind (rand_range_bounds 0 0xffff_ffff (omega arith) (omega arith)) λ v h.
        let i = alu_immediate-IsImmediate op class v (omega arith) in
        Yields-give (
          (
            record {
              opcode = omega arith;
              dst = omega arith;
              src = omega arith;
              offset = refl;
              immediate = i.int32;
            },
            omega arith,
          ),
          (
            elim i.shift [ inl e ↦ inl e | inr e ↦ inr (inr e) ],
            elim i.neg [ inl e ↦ inl e | inr e ↦ inr (refl, e) ],
          ),
        )

redraw_neg-ne :
    (fuel op : ℕ) → IsAluOp op → Yields (λ o. IsAluOp o × (o ≢ AluOp.neg)) (redraw_neg fuel op)
unfolding redraw_neg
redraw_neg-ne zero op o ds = elim (Bool-cases (op == AluOp.neg)) [
  | inl e ↦ rw e unfinished
  | inr e ↦ rw e (sound (o, ground arith))
]
redraw_neg-ne (suc fuel) op o ds = elim (Bool-cases (op == AluOp.neg)) [
  | inl e ↦ rw e (
      Yields-bind (rand_range_bounds 0 0x0c (omega arith) (omega arith))
        (λ v h. redraw_neg-ne fuel (v * 2 ^ 4) (omega arith)) ds)
  | inr e ↦ rw e (sound (o, ground arith))
]

module _ (op class dst : ℕ) (o : IsAluOp op) (c : IsAluClass class) (d : dst ≤ 9) where
  generate_reg-IsRandomAlu : Yields IsRandomAlu (generate_reg_alu_instruction op class dst)
  unfolding generate_reg_alu_instruction new_alu_instruction
  generate_reg-IsRandomAlu = Yields-bind random_register-le λ r h.
      Yields-bind (λ ds. redraw_neg-ne (length ds) op o ds)
        λ op' (o', ne). Yields-give (
          (
            record {
              opcode = omega arith;
              dst = omega arith;
              src = omega arith;
              offset = refl;
              immediate = omega arith;
            },
            omega arith,
          ),
          (inr (inl refl), inl ne),
        )

-- Every instruction that RandomAluInstruction returns can be encoded, takes one word, shifts by less
-- than the width of its class where it shifts by an immediate, and negates with the immediate 0;
-- generating it never panics. The amount of a shift by a register is not bounded.
pub random_alu_instruction-IsRandomAlu : Yields IsRandomAlu random_alu_instruction
unfolding random_alu_instruction
random_alu_instruction-IsRandomAlu = Yields-bind random_alu_op-IsAluOp λ op o.
    Yields-bind random_register-le λ dst d.
      Yields-bind (rand_range_bounds 0 1 (omega arith) (omega arith)) λ c _.
        Yields-bind (rand_range_bounds 0 1 (omega arith) (omega arith)) λ s _.
          Yields-if (s == 0) (λ _. generate_imm-IsRandomAlu op _ dst o (classes c) d)
            (λ _. generate_reg-IsRandomAlu op _ dst o (classes c) d)
  where
    classes : (c : ℕ) → IsAluClass (if c == 0 then InsClass.alu else InsClass.alu64)
    classes c = ground arith

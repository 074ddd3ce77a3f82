-- ===== src/Strategies/LoopPointerArithmetic/Body.antt =====
-- The random body of the function that is looped over.
use buzzer.Common.{
  ℕ, zero, suc, ◌-◌, ◌%◌, ◌^◌, ◌≤◌, ◌<◌, ◌≡◌, ◌≢◌, refl, arith, inl, inr, Bool-cases, List, [], ◌∷◌,
  ◌++◌, map, All, All-append, length, length-append, ltb, ◌==◌, ◌||◌,
}
use buzzer.Common.Run.{ok}
use buzzer.Common.Words.{to_u32}
use buzzer.Ebpf.{Instruction, int, reg}
use buzzer.Ebpf.AluOp
use buzzer.Ebpf.InsClass
use buzzer.Ebpf.SrcOperand
use buzzer.Ebpf.Alu.{add64, mul64, and, alu_instruction, new_alu_instruction}
use buzzer.Ebpf.StLd.{st_b, ld_dw}
use buzzer.Ebpf.Encoding.Format.{IsInstruction}
use buzzer.Ebpf.Generators.Alu.{random_alu_instruction-IsRandomAlu, random_register-le}
use buzzer.Ebpf.Generators.Jumps.{random_jmp_instruction-IsRandomJmp}
use buzzer.Ebpf.Generators.Memory.{random_load-IsRandomMem}
use buzzer.Rand.Bounds.{rand_int-IsU64, rand_range_bounds}
use buzzer.Rand.Draws.{Yields, sound, unfinished, Yields-give, Yields-bind, Yields-if, Yields-map}
use buzzer.Strategies.Calls.{value, sequence-Yields, mov64_int32}
use buzzer.Strategies.Targets.{
  Within, JumpsWithin, Within-mono, IsRandomAlu-Within, IsRandomJmp-Within, IsRandomMem-Within,
  IsRandomAlu-IsInstruction, IsRandomJmp-IsInstruction, IsRandomMem-IsInstruction,
}
use buzzer.Strategies.LoopPointerArithmetic.{
  redraw_register, pointer_calls, body_instructions, random_loop_body,
}

-- Neither R1 nor R2 is drawn.
redraw_register-ne :
    (fuel r : ℕ) → r ≤ 9 → Yields (λ s. (s ≤ 9) × (s ≢ 1) × (s ≢ 2)) (redraw_register fuel r)
unfolding redraw_register
redraw_register-ne zero r h ds = elim (Bool-cases (r == 2 || r == 1)) [
  | inl e ↦ rw e unfinished
  | inr e ↦ rw e (sound (h, ground arith, ground arith))
]
redraw_register-ne (suc fuel) r h ds = elim (Bool-cases (r == 2 || r == 1)) [
  | inl e ↦ rw e (Yields-bind random_register-le (redraw_register-ne fuel) ds)
  | inr e ↦ rw e (sound (h, ground arith, ground arith))
]

-- What a round adds: at least one instruction, and jumps over at most `left` of those that follow.
record Chunk (left : ℕ) (is : List Instruction) : Type 0 where
  carried : All IsInstruction is
  some_more : 1 ≤ length is
  within :
      (rest : List Instruction) → left ≤ length rest → JumpsWithin rest → JumpsWithin (is ++ rest)

Chunk-one : (left : ℕ) (i : Instruction) → IsInstruction i → Within left i → Chunk left (i ∷ [])
Chunk-one left i h w = record {
  carried = (h, tt);
  some_more = omega arith;
  within = λ rest p ws. (Within-mono left (length rest) i p w, ws);
}

-- The store below the stack's top, by a register that is masked and negated.
abbrev pointer_instructions : ℕ → ℕ → List Instruction
pointer_instructions r v =
    ld_dw 2 10 (2 ^ 16 - 8)
    ∷ value (and r (int 0x3f))
    ∷ value (mul64 r (int (2 ^ 64 - 1)))
    ∷ value (add64 2 (reg r))
    ∷ value (st_b 2 (int 16) 0)
    ∷ alu_instruction AluOp.mov InsClass.alu64 2 SrcOperand.immediate 0 (to_u32 v)
    ∷ []

pointer_calls-ok : (r v : ℕ) → pointer_calls r v ≡ map ok (pointer_instructions r v)
unfolding and mul64 add64 st_b new_alu_instruction
pointer_calls-ok r v = rw (mov64_int32 2 (to_u32 v) (omega arith)) refl

pointer_instructions-Chunk : (left r v : ℕ) → r ≤ 9 → Chunk left (pointer_instructions r v)
unfolding and mul64 add64 st_b ld_dw
pointer_instructions-Chunk left r v h = record {
  carried = omega arith;
  some_more = omega arith;
  within = λ rest p ws. (tt, (tt, (tt, (tt, (tt, (tt, ws))))));
}

body_instructions-Chunk : (left : ℕ) → left < 2 ^ 15 → Yields (Chunk left) (body_instructions left)
unfolding body_instructions
body_instructions-Chunk left p = Yields-bind rand_int-IsU64 λ t _.
    Yields-bind random_register-le λ r h.
      Yields-bind (λ ds. redraw_register-ne (length ds) r h ds)
        λ s (k, _, _).
          Yields-if (t % 4 == 0)
            (λ _. Yields-bind rand_int-IsU64 λ v _.
              Yields-map
                (sequence-Yields (pointer_calls s v) (pointer_instructions s v)
                  (pointer_calls-ok s v))
                λ is e. rw e (pointer_instructions-Chunk left s v k))
            λ _.
              Yields-if (t % 4 == 1)
                (λ _. Yields-bind random_load-IsRandomMem λ i m.
                  Yields-give (
                    Chunk-one left i (IsRandomMem-IsInstruction i m) (IsRandomMem-Within left i m)))
                λ _. Yields-bind (rand_range_bounds 1 100 (omega arith) (omega arith)) λ d _.
                  Yields-bind
                    (Yields-if {P = λ i. IsInstruction i × Within left i} (ltb 30 d || left == 0)
                      (λ _.
                        Yields-map random_alu_instruction-IsRandomAlu
                          λ i a. (IsRandomAlu-IsInstruction i a, IsRandomAlu-Within left i a))
                      λ e.
                        Yields-map (random_jmp_instruction-IsRandomJmp left (ground arith) p) λ i j.
                          (
                            IsRandomJmp-IsInstruction left i j,
                            IsRandomJmp-Within left left i j (omega arith),
                          ))
                    λ i (a, w). Yields-give (Chunk-one left i a w)

-- A body of at least `n` instructions that can be encoded, with every jump in it or right behind it.
abbrev pub IsLoopBody : ℕ → List Instruction → Type 0
IsLoopBody n is = (n ≤ length is) × All IsInstruction is × JumpsWithin is

pub random_loop_body-IsLoopBody : (n : ℕ) → n < 2 ^ 15 → Yields (IsLoopBody n) (random_loop_body n)
unfolding random_loop_body
random_loop_body-IsLoopBody zero p = Yields-give (omega arith, tt, tt)
random_loop_body-IsLoopBody (suc left) p =
    Yields-bind (body_instructions-Chunk left (omega arith)) λ is c.
      Yields-bind (random_loop_body-IsLoopBody left (omega arith)) λ rest (n, hs, ws).
        let more = c.some_more in
        Yields-give (
          omega (arith, length-append is rest),
          All-append IsInstruction is rest c.carried hs,
          c.within rest n ws,
        )

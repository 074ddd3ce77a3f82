-- ===== src/Strategies/PointerArithmetic/Jumps.antt =====
-- The programs of the strategy: they can be encoded, and their jumps go to instructions of them.
use buzzer.Common.{
  ℕ, zero, suc, ◌+◌, ◌%◌, ◌^◌, ◌≤◌, ◌<◌, ◌≡◌, refl, ap, arith, ◌↔◌, inl, inr, List, [], ◌&◌, ◌∷◌,
  ◌++◌, map, Option, none, some, ◌||◌, ltb, leb, ◌==◌, All, All-append, length, append-nil, leb→le,
}
use mathlib.Core.List.{tail}
use buzzer.Common.Run.{Run, ok}
use buzzer.Common.Words.{to_u32}
use buzzer.Ebpf.{Instruction, Program}
use buzzer.Ebpf.AluOp
use buzzer.Ebpf.InsClass
use buzzer.Ebpf.SrcOperand
use buzzer.Ebpf.Alu.{mov64, add64, alu_instruction}
use buzzer.Ebpf.Jmp.{call, exit, jmp_ne}
use buzzer.Ebpf.StLd.{st_w, st_dw, ld_map_by_fd}
use buzzer.Ebpf.Encoding.Format.{IsInstruction}
use buzzer.Ebpf.Generators.Alu.{random_alu_instruction-IsRandomAlu, random_register-le}
use buzzer.Ebpf.Generators.Jumps.{random_jmp_instruction-IsRandomJmp}
use buzzer.Ebpf.Encoding.Decoding.{AreInstructions, all_instructions}
use buzzer.Ebpf.Generators.{is_conditional}
use buzzer.Rand.Bounds.{rand_range_bounds, rand_int-IsU64}
use buzzer.Rand.Draws.{Yields, Yields-give, Yields-bind, Yields-if, Yields-map}
use buzzer.Strategies.Calls.{value, sequence-Yields, mov64_reg, mov64_int32}
use buzzer.Strategies.Targets.{
  Within, JumpsWithin, JumpsLand, IsRandomAlu-IsInstruction, IsRandomJmp-IsInstruction,
  IsRandomAlu-Within, IsRandomJmp-Within, JumpsLand-append, JumpsWithin-append,
}
use buzzer.Strategies.PointerArithmetic.{
  PointerArithmetic, random_moves, body_instruction, random_body, footer_calls, Generated,
  generate_program, single_function,
}

-- An instruction of a body: it can be encoded, and jumps over at most `n` others.
abbrev BodyInstruction : ℕ → Instruction → Type 0
BodyInstruction n i = IsInstruction i × Within n i

body_instruction-BodyInstruction :
    (left : ℕ) → left < 2 ^ 15 → Yields (BodyInstruction left) (body_instruction left)
unfolding body_instruction
body_instruction-BodyInstruction left p =
    Yields-bind (rand_range_bounds 1 100 (omega arith) (omega arith)) λ d _.
      Yields-if (ltb 30 d || left == 0)
        (λ _.
          Yields-map random_alu_instruction-IsRandomAlu
            λ i h. (IsRandomAlu-IsInstruction i h, IsRandomAlu-Within left i h))
        λ e. Yields-map (random_jmp_instruction-IsRandomJmp left (ground arith) p) λ i h.
          (IsRandomJmp-IsInstruction left i h, IsRandomJmp-Within left left i h (omega arith))

abbrev pub IsBody : ℕ → List Instruction → Type 0
IsBody n is = (length is ≡ n) × All IsInstruction is × JumpsWithin is

-- The body that the strategy generates for an instruction count has that many instructions. Each can
-- be encoded in one word, and each jump stays in the body or goes to the instruction right behind it.
pub random_body-JumpsWithin : (n : ℕ) → n < 2 ^ 15 → Yields (IsBody n) (random_body n)
unfolding random_body
random_body-JumpsWithin zero p = Yields-give (refl, tt, tt)
random_body-JumpsWithin (suc left) p =
    Yields-bind (body_instruction-BodyInstruction left (omega arith)) λ i (h, w).
      Yields-bind (random_body-JumpsWithin left (omega arith))
        λ rest (n, hs, ws). Yields-give (ap suc n, (h, hs), (rw n w, ws))

-- Calls of constructors that all return an instruction, and these instructions.
pub record Header (cs : List (Run Instruction)) : Type 0 where
  pub is : List Instruction
  pub calls : cs ≡ map ok is
  pub carried : All IsInstruction is
  pub within : JumpsWithin is

pub random_moves-Header : (n r : ℕ) → r + n ≤ 11 → Yields Header (random_moves n r)
unfolding random_moves
random_moves-Header zero r p =
    Yields-give (record { is = []; calls = refl; carried = tt; within = tt })
random_moves-Header (suc n) r p = Yields-bind rand_int-IsU64 λ v _.
    Yields-bind (random_moves-Header n (suc r) (omega arith)) λ rest h.
      let x : ℕ = to_u32 v in
      Yields-give (record {
        is = alu_instruction AluOp.mov InsClass.alu64 r SrcOperand.immediate 0 x ∷ h.is;
        calls = λ t. mov64_int32 r x (omega arith) t ∷ h.calls t;
        carried = (
          (
            record {
              opcode = omega arith;
              dst = omega arith;
              src = omega arith;
              offset = refl;
              immediate = omega arith;
            },
            omega arith,
          ),
          h.carried,
        );
        within = (tt, h.within);
      })

abbrev footer : ℕ → ℕ → List Instruction
footer r fd =
    alu_instruction AluOp.mov InsClass.alu64 8 SrcOperand.reg_src r 0
    ∷ map value (tail (footer_calls r fd))

footer_calls-footer : (r fd : ℕ) → r ≤ 9 → footer_calls r fd ≡ map ok (footer r fd)
unfolding mov64 add64 call exit jmp_ne st_w st_dw
footer_calls-footer r fd p = ap (λ c. c ∷ tail (footer_calls r fd)) (mov64_reg 8 r (omega arith))

footer-JumpsLand : (r fd : ℕ) → JumpsLand (footer r fd)
unfolding mov64 add64 call exit jmp_ne st_w st_dw ld_map_by_fd is_conditional
footer-JumpsLand r fd =
    tt
    & tt
    & tt
    & tt
    & tt
    & tt
    & inl refl
    & inr refl
    & inl refl
    & tt
    & tt
    & tt
    & tt
    & tt
    & inl refl
    & inr refl
    & inl refl
    & tt
    & tt
    & tt
    & inl refl
    & tt

footer-IsInstruction : (r fd : ℕ) → r ≤ 9 → All IsInstruction (footer r fd)
unfolding mov64 add64 call exit jmp_ne st_w st_dw ld_map_by_fd
footer-IsInstruction r fd p = omega arith

abbrev pub IsProgram : Option Program → Type 0
IsProgram none = Unit {0}
IsProgram (some p) = AreInstructions p.functions × JumpsLand (all_instructions p.functions)

joined :
    (header body : List Instruction) (r fd : ℕ)
    → All IsInstruction header
    → All IsInstruction body
    → r ≤ 9
    → JumpsWithin (header ++ body)
    → IsProgram (some (single_function ((header ++ body) ++ footer r fd)))
joined header body r fd hs bs hr w = (
  (
    All-append IsInstruction (header ++ body) (footer r fd)
        (All-append IsInstruction header body hs bs) (footer-IsInstruction r fd hr),
    tt,
  ),
  rw (append-nil ((header ++ body) ++ footer r fd))
      (JumpsLand-append (header ++ body) _ _ w (footer-JumpsLand r fd)),
)

-- Every program that GenerateProgram returns is in the instruction format, so that EncodeInstructions
-- takes it, and every conditional jump of it goes forward to the start of an instruction of it.
-- Generating never panics, and no program is returned exactly where the map was not created.
pub generate_program-IsProgram :
    (created : ℕ) (pa : PointerArithmetic)
    → Yields
        (λ (g : Generated). IsProgram g.2 × ((g.2 ≡ none) ↔ (2 ^ 63 ≤ created)))
        (generate_program created pa)
unfolding generate_program
generate_program-IsProgram created pa =
    Yields-bind (random_moves-Header 10 0 (omega arith)) λ moves h.
      Yields-bind (sequence-Yields moves h.is h.calls) λ header eh.
        Yields-bind rand_int-IsU64 λ v _.
          Yields-bind (random_body-JumpsWithin (v % 1000) (omega arith)) λ body (n, hs, ws).
            Yields-if (leb (2 ^ 63) created)
              (λ e. Yields-give (tt, ((λ _. leb→le _ _ e), (λ _. refl))))
              λ e. Yields-bind random_register-le λ r hr.
                Yields-bind
                  (sequence-Yields (footer_calls r created) (footer r created)
                    (footer_calls-footer r created hr))
                  λ js ej. Yields-give (
                    rw (eh, ej)
                        (joined h.is body r created h.carried hs hr
                          (JumpsWithin-append h.is body h.within ws)),
                    ((λ k. cc), (λ k. absurd (ground arith))),
                  )

-- ===== src/Strategies/CoverageBased/Footer.antt =====
-- The programs that the strategy mutates, and the footer that it adds to them.
use mathlib.Core.List.{tail}
use buzzer.Common.{
  ℕ, ◌≤◌, ◌<◌, ◌≡◌, refl, ap, arith, inl, inr, List, [], ◌∷◌, ◌++◌, map, some, All, All-append,
  append_assoc, append-nil, length, ◌&◌,
}
use buzzer.Common.Run.{ok}
use buzzer.Common.Words.{to_u32}
use buzzer.Ebpf.{Instruction, empty, pseudo_value, fields}
use buzzer.Ebpf.AluOp
use buzzer.Ebpf.InsClass
use buzzer.Ebpf.SrcOperand
use buzzer.Ebpf.Alu.{mov64, add64, alu_instruction}
use buzzer.Ebpf.Jmp.{call, exit, jmp_ne}
use buzzer.Ebpf.StLd.{st_w, st_dw, ld_map_by_fd}
use buzzer.Ebpf.Encoding.Format.{IsInstruction}
use buzzer.Ebpf.Generators.{is_conditional}
use buzzer.Strategies.Calls.{value, mov64_reg}
use buzzer.Strategies.Targets.{JumpsLand, JumpsLand-append, JumpsLand-join, OpcodeLands}
use buzzer.Strategies.PointerArithmetic.{single_function}
use buzzer.Strategies.PointerArithmetic.Jumps.{IsProgram}
use buzzer.Strategies.CoverageBased.Generation.{
  map_ptr_arithmetic_footer, with_immediate, patch_map_fd,
}
use buzzer.Strategies.CoverageBased.Mutations.{IsBody}

-- A head of `size` instructions whose jumps stay in it, and a body that has grown at most `count` times.
pub record IsFuzzed (size count : ℕ) (prog : List Instruction) : Type 0 where
  pub head : List Instruction
  pub body : List Instruction
  pub split : prog ≡ head ++ body
  pub head_size : length head ≡ size
  pub head_carried : All IsInstruction head
  pub head_lands : JumpsLand head
  pub body_ok : IsBody body
  pub short : length body ≤ count

pub IsFuzzed-later :
    (size n m : ℕ) (prog : List Instruction) → n ≤ m → IsFuzzed size n prog → IsFuzzed size m prog
IsFuzzed-later size n m prog h f = record {
  head = f.head;
  body = f.body;
  split = f.split;
  head_size = f.head_size;
  head_carried = f.head_carried;
  head_lands = f.head_lands;
  body_ok = f.body_ok;
  short = let short = f.short in omega arith;
}

abbrev pub footer : ℕ → ℕ → List Instruction
footer r fd =
    alu_instruction AluOp.mov InsClass.alu64 8 SrcOperand.reg_src r 0
    ∷ map value (tail (map_ptr_arithmetic_footer r fd))

pub footer-calls : (r fd : ℕ) → r ≤ 9 → map_ptr_arithmetic_footer r fd ≡ map ok (footer r fd)
unfolding mov64 add64 call exit jmp_ne st_w st_dw
footer-calls r fd p =
    ap (λ c. c ∷ tail (map_ptr_arithmetic_footer r fd)) (mov64_reg 8 r (omega arith))

footer-Lands : (r fd : ℕ) → JumpsLand (footer r fd)
unfolding mov64 add64 call exit jmp_ne st_w st_dw ld_map_by_fd is_conditional
footer-Lands r fd =
    tt & tt & tt & tt & tt & tt & inl refl & inr refl & inl refl & tt & tt & tt & inl refl & tt

footer-All : (r fd : ℕ) → r ≤ 9 → All IsInstruction (footer r fd)
unfolding mov64 add64 call exit jmp_ne st_w st_dw ld_map_by_fd
footer-All r fd p = omega arith

-- A fuzzed program in front of the footer.
pub IsFuzzed-IsProgram :
    (size count r fd : ℕ) (prog : List Instruction)
    → IsFuzzed size count prog
    → r ≤ 9
    → IsProgram (some (single_function (prog ++ footer r fd)))
IsFuzzed-IsProgram size count r fd prog f p =
    rw
      (
        f.split,
        append-nil ((f.head ++ f.body) ++ footer r fd),
        append_assoc f.head f.body (footer r fd),
      )
      (
        (
          All-append IsInstruction f.head (f.body ++ footer r fd) f.head_carried
              (All-append IsInstruction f.body (footer r fd) f.body_ok.1 (footer-All r fd p)),
          tt,
        ),
        JumpsLand-join f.head (f.body ++ footer r fd) f.head_lands
            (JumpsLand-append f.body _ _ f.body_ok.0 (footer-Lands r fd)),
      )

-- Another immediate does not change the format.
with_immediate-IsInstruction :
    (i : Instruction) (imm : ℕ) → IsInstruction i → IsInstruction (with_immediate i (to_u32 imm))
with_immediate-IsInstruction (empty i) imm (h, k) = (ground arith, k)
with_immediate-IsInstruction (pseudo_value i (empty p)) imm (h, k, p_ok) = (ground arith, k, p_ok)
with_immediate-IsInstruction (pseudo_value i (pseudo_value p q)) imm h = absurd h

with_immediate-OpcodeLands :
    (i : Instruction) (imm : ℕ) (is : List Instruction)
    → OpcodeLands is (fields i).opcode (fields i).offset
    → OpcodeLands is (fields (with_immediate i imm)).opcode (fields (with_immediate i imm)).offset
with_immediate-OpcodeLands (empty i) imm is h = h
with_immediate-OpcodeLands (pseudo_value i p) imm is h = h

patch_head :
    (size count fd : ℕ) (prog head body : List Instruction)
    → prog ≡ head ++ body
    → length head ≡ size
    → 0 < size
    → All IsInstruction head
    → JumpsLand head
    → IsBody body
    → length body ≤ count
    → (patched : List Instruction) × (patch_map_fd prog fd ≡ some patched)
      × IsFuzzed size count patched
patch_head size count fd prog [] body e n h a l b c = absurd (omega arith)
patch_head size count fd prog (i ∷ head) body e n h (a, rest) (l, ls) b c = (
  with_immediate i (to_u32 fd) ∷ (head ++ body),
  ap (λ p. patch_map_fd p fd) e,
  record {
    head = with_immediate i (to_u32 fd) ∷ head;
    body = body;
    split = refl;
    head_size = n;
    head_carried = (with_immediate-IsInstruction i fd a, rest);
    head_lands = (with_immediate-OpcodeLands i (to_u32 fd) head l, ls);
    body_ok = b;
    short = c;
  },
)

-- The descriptor goes into the first instruction, and the program stays well formed.
pub patch_map_fd-IsFuzzed :
    (size count fd : ℕ) (prog : List Instruction)
    → 0 < size
    → IsFuzzed size count prog
    → (patched : List Instruction) × (patch_map_fd prog fd ≡ some patched)
      × IsFuzzed size count patched
patch_map_fd-IsFuzzed size count fd prog h f =
    patch_head size count fd prog f.head f.body f.split f.head_size h f.head_carried f.head_lands
      f.body_ok f.short

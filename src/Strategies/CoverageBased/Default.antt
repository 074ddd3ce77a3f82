-- ===== src/Strategies/CoverageBased/Default.antt =====
-- The default program that a new strategy starts from.
use buzzer.Common.{
  ℕ, zero, suc, ◌+◌, ◌*◌, ◌^◌, ◌≤◌, ◌<◌, ◌≡◌, refl, ap, ◌∙◌, arith, inl, inr, Bool-cases, List, [],
  ◌∷◌, ◌++◌, map, All, All-append, length, length-append, ◌&◌,
}
use buzzer.Common.Run.{Run, ok}
use buzzer.Common.Words.{IsU64}
use buzzer.Ebpf.{Instruction, int}
use buzzer.Ebpf.Alu.{mov64, add64, new_alu_instruction}
use buzzer.Ebpf.Jmp.{call, exit, jmp_ne}
use buzzer.Ebpf.StLd.{st_w, st_dw, ld_dw, ld_map_by_fd, new_store_operation}
use buzzer.Ebpf.Assembly.Values.{fits_32, mov64-narrow, mov64-wide}
use buzzer.Ebpf.Encoding.Format.{IsInstruction}
use buzzer.Ebpf.Generators.{is_conditional}
use buzzer.Rand.Bounds.{rand_int-IsU64}
use buzzer.Rand.Draws.{Yields, Yields-give, Yields-bind}
use buzzer.Strategies.Calls.{value, arguments-ok, sequence-Yields}
use buzzer.Strategies.Targets.{JumpsLand, JumpsLand-join, Straight, Straight-JumpsLand}
use buzzer.Strategies.CoverageBased.Generation.{
  int_moves, stack_stores, store_rounds, default_start, default_program,
}

-- Calls of constructors that all return an instruction in the format, and none a jump.
record Plain (n : ℕ) (cs : List (Run Instruction)) : Type 0 where
  is : List Instruction
  calls : cs ≡ map ok is
  carried : All IsInstruction is
  straight : All Straight is
  size : length is ≡ n

-- One call more in front.
Plain-cons :
    (n : ℕ) (c : Run Instruction) (i : Instruction) (cs : List (Run Instruction))
    → c ≡ ok i
    → IsInstruction i
    → Straight i
    → Plain n cs
    → Plain (suc n) (c ∷ cs)
Plain-cons n c i cs e h k p = record {
  is = i ∷ p.is;
  calls = λ t. e t ∷ p.calls t;
  carried = (h, p.carried);
  straight = (k, p.straight);
  size = ap suc p.size;
}

Plain-nil : Plain 0 []
Plain-nil = record { is = []; calls = refl; carried = tt; straight = tt; size = refl }

-- A move of an int has one word or two.
mov64-int :
    (dst x : ℕ)
    → dst ≤ 10
    → IsU64 x
    → (i : Instruction) × (mov64 dst (int x) ≡ ok i) × IsInstruction i × Straight i
unfolding new_alu_instruction
mov64-int dst x d h = elim (Bool-cases (fits_32 (int x))) [
  | inl fits ↦ (_, mov64-narrow dst (int x) fits, (grind arith, omega arith), tt)
  | inr more ↦ (_, mov64-wide dst (int x) more, (grind arith, refl, grind arith), tt)
]

int_moves-Plain : (n r : ℕ) → r + n ≤ 11 → Yields (Plain n) (int_moves n r)
unfolding int_moves
int_moves-Plain zero r p = Yields-give Plain-nil
int_moves-Plain (suc n) r p = Yields-bind rand_int-IsU64 λ v h.
    Yields-bind (int_moves-Plain n (suc r) (omega arith)) λ rest plain.
      let (i, e, carried, straight) = mov64-int r v (omega arith) h in
      Yields-give (Plain-cons n _ i rest e carried straight plain)

stack_stores-Plain :
    (rounds i : ℕ) → 0 < i → i + 8 * rounds ≤ 2 ^ 15 → Plain rounds (stack_stores rounds i)
unfolding stack_stores st_dw new_store_operation
stack_stores-Plain zero i h p = Plain-nil
stack_stores-Plain (suc rounds) i h p =
    Plain-cons rounds _ _ _ refl (grind arith, omega arith) tt
      (stack_stores-Plain rounds (i + 8) (omega arith) (omega arith))

abbrev start : List Instruction
start = map value default_start

start-calls : default_start ≡ map ok start
unfolding mov64 add64 call exit jmp_ne st_w new_alu_instruction
start-calls = refl

start-IsInstruction : All IsInstruction start
unfolding mov64 add64 call exit jmp_ne st_w ld_dw ld_map_by_fd
start-IsInstruction = omega arith

start-JumpsLand : JumpsLand start
unfolding mov64 add64 call exit jmp_ne st_w ld_dw ld_map_by_fd is_conditional
start-JumpsLand = tt & tt & tt & tt & inl refl & inr refl & inl refl & tt & tt

-- What NewCoverageBasedStrategy makes the default program of: instructions that can be encoded, with
-- jumps that go to instructions of the program.
abbrev pub IsDefault : List Instruction → Type 0
IsDefault prog = (length prog ≡ 80) × All IsInstruction prog × JumpsLand prog

-- The default program has 80 instructions. All can be encoded, and every jump of it goes forward to an
-- instruction of it. Making it never panics, whatever the random numbers.
pub default_program-IsDefault : Yields IsDefault default_program
unfolding default_program
default_program-IsDefault = Yields-bind (int_moves-Plain 9 1 (omega arith)) λ moves m.
    Yields-bind
      (sequence-Yields (default_start ++ moves) (start ++ m.is)
        (ap (λ t. t ++ moves) start-calls ∙ ap (λ t. map ok start ++ t) m.calls))
      λ front e.
        let s = stack_stores-Plain store_rounds 16 (omega arith) (omega arith) in
        rw (s.calls, arguments-ok s.is, e)
          (Yields-give (
            omega (arith, m.size, s.size, length-append m.is s.is),
            All-append IsInstruction start (m.is ++ s.is) start-IsInstruction
                (All-append IsInstruction m.is s.is m.carried s.carried),
            JumpsLand-join start (m.is ++ s.is) start-JumpsLand (
                Straight-JumpsLand (m.is ++ s.is)
                  (All-append Straight m.is s.is m.straight s.straight)),
          ))

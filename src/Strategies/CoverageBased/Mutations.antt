-- ===== src/Strategies/CoverageBased/Mutations.antt =====
-- What a mutation keeps of a program.
use buzzer.Common.{
  take-append, drop-append, ℕ, zero, suc, ◌+◌, ◌-◌, ◌%◌, ◌^◌, ◌≤◌, ◌<◌, ◌≡◌, refl, ap, arith, List,
  [], ◌∷◌, ◌++◌, ltb, ◌==◌, length, take, drop, set, length-append, length-set, All, All-append,
}
use native.Mathlib.Nat.{mod-lt}
use buzzer.Ebpf.{Instruction}
use buzzer.Ebpf.Encoding.Format.{IsInstruction}
use buzzer.Ebpf.Generators.{random_alu_instruction}
use buzzer.Ebpf.Generators.Alu.{random_alu_instruction-IsRandomAlu}
use buzzer.Ebpf.Generators.Jumps.{random_jmp_instruction-IsRandomJmp}
use buzzer.Ebpf.Generators.Memory.{random_mem_instruction-IsRandomMem}
use buzzer.Rand.Bounds.{rand_int-IsU64}
use buzzer.Rand.Draws.{Yields, Yields-give, Yields-bind, Yields-if, Yields-map}
use buzzer.Strategies.CoverageBased.{
  new_random_instruction, insert_at, handle_add_instruction, handle_modify_instruction,
  mutate_program,
}
use buzzer.Strategies.Targets.{
  Within, JumpsWithin, JumpsWithin-append, Within-mono, IsRandomAlu-Within, IsRandomJmp-Within,
  IsRandomMem-Within, IsRandomAlu-IsInstruction, IsRandomJmp-IsInstruction,
  IsRandomMem-IsInstruction,
}

-- An instruction that can be encoded, and that jumps over at most `n` others.
abbrev BodyInstruction : ℕ → Instruction → Type 0
BodyInstruction n i = Within n i × IsInstruction i

new_random_instruction-BodyInstruction :
    (max : ℕ) → max < 2 ^ 15 → Yields (BodyInstruction max) (new_random_instruction max)
unfolding new_random_instruction
new_random_instruction-BodyInstruction max p = Yields-bind rand_int-IsU64 λ t _.
    Yields-if (t % 3 == 0) (λ _. alu)
      λ _.
        Yields-if (t % 3 == 1)
          (λ _.
            Yields-if (max == 0) (λ _. alu)
              λ e. Yields-map (random_jmp_instruction-IsRandomJmp max (ground arith) p) λ i h.
                (IsRandomJmp-Within max max i h (omega arith), IsRandomJmp-IsInstruction max i h))
          λ _.
            Yields-map random_mem_instruction-IsRandomMem
              λ i h. (IsRandomMem-Within max i h, IsRandomMem-IsInstruction i h)
  where
    alu : Yields (BodyInstruction max) random_alu_instruction
    alu =
        Yields-map random_alu_instruction-IsRandomAlu
          λ i h. (IsRandomAlu-Within max i h, IsRandomAlu-IsInstruction i h)

-- What the insertion before a position makes of a program: the new instruction stands twice, and the
-- one at the position is lost.
abbrev pub doubled : List Instruction → ℕ → Instruction → List Instruction
doubled prog pos i = take pos prog ++ i ∷ i ∷ drop (suc pos) prog

-- Where handleAddInstruction inserts before the position of an instruction, it writes the new instruction
-- at this position and the next one, and the instruction that stood at the position is lost.
pub insert_at-doubled :
    (prog : List Instruction) (pos : ℕ) (i : Instruction)
    → pos < length prog
    → insert_at prog pos i ≡ doubled prog pos i
unfolding insert_at
insert_at-doubled [] pos i h = absurd (omega arith)
insert_at-doubled (j ∷ prog) zero i h = refl
insert_at-doubled (j ∷ prog) (suc pos) i h =
    ap (λ t. j ∷ t) (insert_at-doubled prog pos i (omega arith))

-- A body that can be encoded, and whose jumps stay inside or go right behind it.
abbrev pub IsBody : List Instruction → Type 0
IsBody body = JumpsWithin body × All IsInstruction body

-- A body of the same length or one more.
abbrev pub Mutated : List Instruction → List Instruction → Type 0
Mutated body body' = IsBody body' × (length body ≤ length body') × (length body' ≤ length body + 1)

set-JumpsWithin :
    (body : List Instruction) (pos : ℕ) (i : Instruction)
    → JumpsWithin body
    → pos < length body
    → Within (length body - pos - 1) i
    → JumpsWithin (set body pos i)
set-JumpsWithin [] pos i w h v = absurd (omega arith)
set-JumpsWithin (j ∷ body) zero i (w, ws) h v = (Within-mono _ (length body) i (omega arith) v, ws)
set-JumpsWithin (j ∷ body) (suc pos) i (w, ws) h v = (
  Within-mono (length body) _ j (omega (arith, length-set body pos i)) w,
  set-JumpsWithin body pos i ws (omega arith) (Within-mono _ _ i (omega arith) v),
)

length-doubled :
    (body : List Instruction) (pos : ℕ) (i : Instruction)
    → pos < length body
    → length (doubled body pos i) ≡ suc (length body)
length-doubled [] pos i h = absurd (omega arith)
length-doubled (j ∷ body) zero i h = refl
length-doubled (j ∷ body) (suc pos) i h = ap suc (length-doubled body pos i (omega arith))

doubled-JumpsWithin :
    (body : List Instruction) (pos : ℕ) (i : Instruction)
    → JumpsWithin body
    → pos < length body
    → Within (length body - pos - 1) i
    → JumpsWithin (doubled body pos i)
doubled-JumpsWithin [] pos i w h v = absurd (omega arith)
doubled-JumpsWithin (j ∷ body) zero i (w, ws) h v = (
  Within-mono _ (suc (length body)) i (omega arith) v,
  (Within-mono _ (length body) i (omega arith) v, ws),
)
doubled-JumpsWithin (j ∷ body) (suc pos) i (w, ws) h v = (
  Within-mono (length body) _ j (omega (arith, length-doubled body pos i)) w,
  doubled-JumpsWithin body pos i ws (omega arith) (Within-mono _ _ i (omega arith) v),
)

set-All :
    (body : List Instruction) (pos : ℕ) (i : Instruction)
    → All IsInstruction body
    → IsInstruction i
    → All IsInstruction (set body pos i)
set-All [] pos i a h = tt
set-All (j ∷ body) zero i (a, rest) h = (h, rest)
set-All (j ∷ body) (suc pos) i (a, rest) h = (a, set-All body pos i rest h)

doubled-All :
    (body : List Instruction) (pos : ℕ) (i : Instruction)
    → All IsInstruction body
    → IsInstruction i
    → All IsInstruction (doubled body pos i)
doubled-All [] zero i a h = (h, (h, tt))
doubled-All [] (suc pos) i a h = (h, (h, tt))
doubled-All (j ∷ body) zero i (a, rest) h = (h, (h, rest))
doubled-All (j ∷ body) (suc pos) i (a, rest) h = (a, doubled-All body pos i rest h)

insert_at-Mutated :
    (body : List Instruction) (pos : ℕ) (i : Instruction)
    → IsBody body
    → pos < length body
    → BodyInstruction (length body - pos - 1) i
    → Mutated body (insert_at body pos i)
insert_at-Mutated body pos i (w, a) h (v, b) = rw (insert_at-doubled body pos i h) (
  (doubled-JumpsWithin body pos i w h v, doubled-All body pos i a b),
  omega (arith, length-doubled body pos i h),
  omega (arith, length-doubled body pos i h),
)

module _ (body : List Instruction) (w : IsBody body) (l : length body < 2 ^ 15) where
  handle_add_instruction-Mutated : Yields (Mutated body) (handle_add_instruction body)
  unfolding handle_add_instruction
  handle_add_instruction-Mutated = Yields-bind rand_int-IsU64 λ v _.
      let pos = v % (length body + 1) in
      Yields-if (pos == 0)
        (λ _. Yields-bind (new_random_instruction-BodyInstruction _ (ground arith)) λ i (h, b).
          Yields-give (
            ((Within-mono _ (length body) i (ground arith) h, w.0), (b, w.1)),
            omega arith,
            omega arith,
          ))
        λ a.
          Yields-if (pos == length body)
            (λ _. Yields-bind (new_random_instruction-BodyInstruction 0 (omega arith)) λ i (h, b).
              Yields-give (
                (
                  JumpsWithin-append body (i ∷ []) w.0 (h, tt),
                  All-append IsInstruction body (i ∷ []) w.1 (b, tt),
                ),
                omega (arith, length-append body (i ∷ [])),
                omega (arith, length-append body (i ∷ [])),
              ))
            λ b.
              let inside : pos < length body = ground arith in
              Yields-bind (new_random_instruction-BodyInstruction _ (ground arith)) λ i (h, c).
                Yields-give (
                  insert_at-Mutated body pos i w inside
                    (Within-mono _ (length body - pos - 1) i (ground arith) h, c))

  handle_modify_instruction-Mutated : Yields (Mutated body) (handle_modify_instruction body)
  unfolding handle_modify_instruction
  handle_modify_instruction-Mutated =
      Yields-if (length body == 0) (λ _. handle_add_instruction-Mutated)
        λ e. Yields-bind rand_int-IsU64 λ v _.
          let pos = v % length body in
          let inside : pos < length body = mod-lt v (ground arith) in
          Yields-bind (new_random_instruction-BodyInstruction _ (omega arith)) λ i (h, b).
            Yields-give (
              (set-JumpsWithin body pos i w.0 inside h, set-All body pos i w.1 b),
              omega (arith, length-set body pos i),
              omega (arith, length-set body pos i),
            )

-- Of a program whose head has the given size, mutateProgram keeps the head. The body that it returns is as
-- long as the old one or one longer. If every instruction of the old one could be encoded, and every jump
-- stayed inside or went to the instruction right behind it, the same holds for the new one. This is so for
-- bodies of fewer than 2 ^ 15 instructions, and mutating never panics.
pub mutate_program-Mutated :
    (head body : List Instruction)
    → IsBody body
    → length body < 2 ^ 15
    → Yields
        (λ prog. (body' : List Instruction) × (prog ≡ head ++ body') × Mutated body body')
        (mutate_program (head ++ body) (length head))
unfolding mutate_program
mutate_program-Mutated head body w l =
    rw (take-append head body, drop-append head body)
      (Yields-if (ltb (length (head ++ body)) (length head))
        (λ e. absurd (ground (arith, length-append head body)))
        λ _. Yields-bind rand_int-IsU64 λ operation _.
          Yields-bind
            (Yields-if (operation % 2 == 0) (λ _. handle_add_instruction-Mutated body w l)
              (λ _. handle_modify_instruction-Mutated body w l))
            λ body' m. Yields-give (body', refl, m))

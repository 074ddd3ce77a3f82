-- ===== src/Strategies/CoverageBased/Safety.antt =====
-- What GenerateProgram returns and keeps of the state, for any queue with the laws.
use buzzer.Common.{ℕ, ◌+◌, ◌^◌, ◌≤◌, ◌<◌, ◌≡◌, refl, arith, ◌↔◌, leb, leb→le, List, none, length}
use buzzer.Ebpf.{Instruction}
use buzzer.Ebpf.Generators.Alu.{random_register-le}
use buzzer.Rand.Draws.{Yields, Yields-give, Yields-bind, Yields-if}
use buzzer.Strategies.Calls.{FfiCall, sequence-Yields}
use buzzer.Strategies.PointerArithmetic.Jumps.{IsProgram}
use buzzer.Strategies.CoverageBased.{PriorityQueue, QueueLaws, CoverageBased}
use buzzer.Strategies.CoverageBased.Generation.{
  map_ptr_arithmetic_footer, Generated, finish_program, generate_program,
}
use buzzer.Strategies.CoverageBased.Footer.{
  IsFuzzed, footer, footer-calls, IsFuzzed-IsProgram, patch_map_fd-IsFuzzed,
}
use buzzer.Strategies.CoverageBased.Mutations.{mutate_program-Mutated}
use buzzer.Strategies.CoverageBased.Invariant.{
  IsReady, IsGenerated, Ready-later, choose_program-Yields,
}

module _ {Q : Type 0} {queue : PriorityQueue Q} (laws : QueueLaws queue) where
  -- The invariant after a program, the program's format, and whether there is one.
  abbrev pub IsGeneration : ℕ → Generated queue → Type 0
  IsGeneration created g =
      IsGenerated laws g.0 × IsProgram g.2 × ((g.2 ≡ none) ↔ (2 ^ 63 ≤ created))

  finish_program-IsGeneration :
      (created : ℕ) (calls : List FfiCall) (cv : CoverageBased Q) (mutated : List Instruction)
      → created < 2 ^ 63
      → IsReady laws cv
      → IsFuzzed (length cv.default_prog) cv.program_count mutated
      → Yields (IsGeneration created) (finish_program queue created calls cv mutated)
  unfolding finish_program
  finish_program-IsGeneration created calls cv mutated valid r f =
      let size = length cv.default_prog in
      let (patched, e, p) =
        patch_map_fd-IsFuzzed size cv.program_count created mutated r.nonempty f in
      rw e (
        Yields-bind random_register-le λ reg h.
          Yields-bind
            (sequence-Yields (map_ptr_arithmetic_footer reg created) (footer reg created)
              (footer-calls reg created h))
            λ js same. Yields-give (
              (r, p),
              rw same (IsFuzzed-IsProgram size cv.program_count reg created patched p h),
              ((λ k. cc), (λ k. absurd (omega arith))),
            ))

  -- In a state that is ready, the next program that GenerateProgram returns is in the instruction format,
  -- and every conditional jump of it goes forward to the start of an instruction. No program is returned
  -- exactly where the map was not created. The invariant of the state is kept: no trace in the queue has
  -- been put back more than 25 times, and every queued program and the last one are a head as long as
  -- the default program, with its jumps inside, and a well-formed body that has grown by at most one
  -- instruction a program. Generating never panics. This holds for the first 2 ^ 15 programs, with
  -- any queue that has the laws.
  pub generate_program-IsGeneration :
      (created : ℕ) (cv : CoverageBased Q)
      → IsReady laws cv
      → cv.program_count < 2 ^ 15
      → Yields (IsGeneration created) (generate_program queue created cv)
  unfolding generate_program
  generate_program-IsGeneration created cv r bound =
      choose_program-Yields laws cv.program_count
        (record cv { program_count = cv.program_count + 1 }) _ r
        λ pq prog old f.
          let short = f.short in
          let ready =
            Ready-later laws cv.default_prog cv.program_count (cv.program_count + 1) pq
              (omega arith) old in
          rw (f.split, ← f.head_size)
            (Yields-bind (mutate_program-Mutated f.head f.body f.body_ok (omega arith))
              λ mutated (body, split, (ok, _, longer)).
                let g : IsFuzzed (length cv.default_prog) (cv.program_count + 1) mutated = record {
                  head = f.head;
                  body = body;
                  split = split;
                  head_size = f.head_size;
                  head_carried = f.head_carried;
                  head_lands = f.head_lands;
                  body_ok = ok;
                  short = omega arith;
                } in
                let cv' = record cv {
                  pq = pq;
                  program_count = cv.program_count + 1;
                  last_program = mutated;
                  map_fd = created;
                } in
                Yields-if (leb (2 ^ 63) created)
                  (λ e. Yields-give ((ready, g), tt, ((λ _. leb→le _ _ e), (λ _. refl))))
                  λ e. finish_program-IsGeneration created _ cv' mutated (ground arith) ready g)

-- ===== src/Strategies/CoverageBased/Tests.antt =====
-- Mutations and verdicts at concrete programs, with a stack or the heap for a queue.
use buzzer.Common.{ℕ, ◌≡◌, refl, arith, List, [], ◌∷◌, ◌++◌, none, some, true, false, ◌&&◌}
use buzzer.Common.Run.{ok, panic}
use buzzer.Ebpf.{Instruction}
use buzzer.Ebpf.Alu.{alu_instruction}
use buzzer.Rand.Draws.{Yields}
use buzzer.Strategies.Container.{CoverageTrace}
use buzzer.Strategies.CoverageBased.{
  PriorityQueue, CoverageBased, insert_at, mutate_program, on_verify_done,
}
use buzzer.Strategies.CoverageBased.Mutations.{Mutated, insert_at-doubled, mutate_program-Mutated}
use buzzer.Strategies.CoverageBased.Coverage.{
  is_new, after_results, on_verify_done-verdict, on_verify_done-again,
}
use buzzer.Strategies.CoverageBased.Generation.{generate_program, judge, on_execute_done}
use buzzer.Strategies.CoverageBased.Footer.{IsFuzzed}
use buzzer.Strategies.CoverageBased.HeapQueue.{HeapQueue, heap_queue, heap_laws}
use buzzer.Strategies.CoverageBased.Invariant.{
  IsGenerated, queued_after, on_verify_done-IsGenerated,
}
use buzzer.Strategies.CoverageBased.Safety.{IsGeneration, generate_program-IsGeneration}
use buzzer.Units.{ValidationResult}

-- R1 += imm, by its immediate.
abbrev adds : ℕ → Instruction
adds imm = alu_instruction 0 7 1 0 0 imm

abbrev body : List Instruction
body = adds 1 ∷ adds 2 ∷ adds 3 ∷ []

insert_at-doubled_example : insert_at body 1 (adds 9) ≡ adds 1 ∷ adds 9 ∷ adds 9 ∷ adds 3 ∷ []
insert_at-doubled_example = insert_at-doubled body 1 (adds 9) (omega arith)

mutate_program-Mutated_example :
    Yields
      (λ prog. (body' : List Instruction) × (prog ≡ (adds 0 ∷ []) ++ body') × Mutated body body')
      (mutate_program ((adds 0 ∷ []) ++ body) 1)
mutate_program-Mutated_example =
    mutate_program-Mutated (adds 0 ∷ []) body (omega arith) (omega arith)

abbrev stack : PriorityQueue (List CoverageTrace)
stack = record {
  empty_queue = [];
  is_empty = λ q. elim q [ [] ↦ true | t ∷ rest ↦ false ];
  push = λ t q. t ∷ q;
  pop = λ q. elim q [ [] ↦ none | t ∷ rest ↦ some (t, rest) ];
}

abbrev fresh : CoverageBased (List CoverageTrace)
fresh = record {
  is_finished = false;
  pq = [];
  coverage_hash_table = [];
  fingerprint_hash_table = [];
  program_count = 0;
  valid_program_count = 0;
  last_program = body;
  map_fd = 5;
  default_prog = [];
}

abbrev covering : ValidationResult
covering = record {
  is_valid = true;
  program_fd = 7;
  did_collect_coverage = true;
  coverage_address = 0x10 ∷ 0x20 ∷ 0x10 ∷ [];
  socket_write = 0;
  socket_read = 0;
  verifier_log = [];
}

on_verify_done-verdict_example :
    (on_verify_done stack covering fresh).1 ≡ (true && true && is_new covering fresh)
on_verify_done-verdict_example = on_verify_done-verdict stack covering fresh

abbrev covering_more : ValidationResult
covering_more = record covering { coverage_address = 0x99 ∷ 0x98 ∷ [] }

on_verify_done-again_example :
    (on_verify_done stack covering
      (after_results stack (covering_more ∷ []) (on_verify_done stack covering fresh).0)).1
    ≡ false
on_verify_done-again_example = on_verify_done-again stack covering (covering_more ∷ []) fresh

-- A strategy that has one program in its queue.
abbrev fuzzing : CoverageBased HeapQueue
fuzzing = record {
  is_finished = false;
  pq =
      heap_queue.push
        (record {
          program = adds 0 ∷ body;
          coverage_signature = 0x20;
          coverage_size = 3;
          usage_count = 25;
        })
        heap_queue.empty_queue;
  coverage_hash_table = [];
  fingerprint_hash_table = [];
  program_count = 3;
  valid_program_count = 0;
  last_program = adds 0 ∷ body;
  map_fd = 5;
  default_prog = adds 0 ∷ [];
}

fuzzed : IsFuzzed 1 3 (adds 0 ∷ body)
fuzzed = record {
  head = adds 0 ∷ [];
  body = body;
  split = refl;
  head_size = refl;
  head_carried = omega arith;
  head_lands = (tt, tt);
  body_ok = omega arith;
  short = omega arith;
}

fuzzing-IsGenerated : IsGenerated heap_laws fuzzing
fuzzing-IsGenerated = (
  record {
    nonempty = omega arith;
    carried = omega arith;
    lands = (tt, tt);
    queued =
        heap_laws.Each-push (record { usage = omega arith; fuzzed = fuzzed })
          (heap_laws.Each-empty _);
  },
  fuzzed,
)

generate_program-IsGeneration_example :
    Yields (IsGeneration heap_laws 6) (generate_program heap_queue 6 fuzzing)
generate_program-IsGeneration_example =
    generate_program-IsGeneration heap_laws 6 fuzzing fuzzing-IsGenerated.0 (omega arith)

on_verify_done-IsGenerated_example :
    IsGenerated heap_laws (on_verify_done heap_queue covering fuzzing).0
    × ((on_verify_done heap_queue covering fuzzing).0.pq
        ≡ queued_after heap_queue covering fuzzing (on_verify_done heap_queue covering fuzzing).1)
on_verify_done-IsGenerated_example =
    on_verify_done-IsGenerated heap_laws covering fuzzing fuzzing-IsGenerated

-- OnExecuteDone goes on where the map has the value that the footer wrote.
execute-expected : on_execute_done fresh (some (0xcafe ∷ [])) ≡ ok (fresh, true)
unfolding on_execute_done judge
execute-expected = refl

execute-unexpected :
    on_execute_done fresh (some (0 ∷ [])) ≡ ok (record fresh { is_finished = true }, false)
unfolding on_execute_done judge
execute-unexpected = refl

execute-failed : on_execute_done fresh none ≡ panic
unfolding on_execute_done
execute-failed = refl

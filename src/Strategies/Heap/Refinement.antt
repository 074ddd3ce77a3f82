-- ===== src/Strategies/Heap/Refinement.antt =====
-- The priority queue as its callers see it: a bag of traces, without an order, that Pop takes a trace
-- with the most coverage from.
use mathlib.Core.List.Perm
use buzzer.Common.{◌≤◌, ◌≡◌, List, [], ◌∷◌, Mem, Perm, Option, none, some, arith}
use buzzer.Common.Run.{Run, ok, ◌>>=◌}
use buzzer.Common.Outcome.{Succeeds, with_value, Succeeds-then, Succeeds-map}
use buzzer.Strategies.Container.{CoverageTrace}
use buzzer.Strategies.Heap.{new, push, pop}
use buzzer.Strategies.Heap.Order.{IsHeap}
use buzzer.Strategies.Heap.Queue.{push-Pushed, pop_empty, pop-Popped}

pub data Call : Type 0 where
  push_call : CoverageTrace → Call
  pop_call : Call

-- What the calls of Pop answer, in turn.
unfoldable pub run : List CoverageTrace → List Call → Run (List (Option CoverageTrace))
run pq [] = ok []
run pq (push_call ct ∷ calls) = push pq ct >>= λ pq. run pq calls
run pq (pop_call ∷ calls) =
    pop pq >>= λ (answer, pq). run pq calls >>= λ answers. ok (answer ∷ answers)

-- The answers that a bag of traces may give.
pub data Answers : List CoverageTrace → List Call → List (Option CoverageTrace) → Type 0 where
  done : {bag : List CoverageTrace} → Answers bag [] []
  added :
      {bag : List CoverageTrace} {ct : CoverageTrace} {calls : List Call}
      {answers : List (Option CoverageTrace)}
      → Answers (ct ∷ bag) calls answers
      → Answers bag (push_call ct ∷ calls) answers
  nothing_left :
      {bag : List CoverageTrace} {calls : List Call} {answers : List (Option CoverageTrace)}
      → bag ≡ []
      → Answers bag calls answers
      → Answers bag (pop_call ∷ calls) (none ∷ answers)
  taken :
      {bag rest : List CoverageTrace} {t : CoverageTrace} {calls : List Call}
      {answers : List (Option CoverageTrace)}
      → Perm (t ∷ rest) bag
      → ((u : CoverageTrace) → Mem u bag → u.coverage_size ≤ t.coverage_size)
      → Answers rest calls answers
      → Answers bag (pop_call ∷ calls) (some t ∷ answers)

-- A queue in heap order that holds the traces of a bag answers as the bag may, and no call fails.
run-Answers :
    (calls : List Call) (pq bag : List CoverageTrace)
    → IsHeap pq
    → Perm pq bag
    → Succeeds (Answers bag calls) (run pq calls)
unfolding run
run-Answers [] pq bag h same = with_value done
run-Answers (push_call ct ∷ calls) pq bag h same = Succeeds-then (push-Pushed pq ct h) λ r p.
    Succeeds-map (run-Answers calls r (ct ∷ bag) p.ordered (Perm.trans p.same (Perm.cons ct same)))
      λ answers rest. added rest
run-Answers (pop_call ∷ calls) [] bag h same = rw pop_empty (
    Succeeds-then (run-Answers calls [] bag h same)
      λ answers rest. with_value (nothing_left (Perm.eq-nil (Perm.symm same)) rest))
run-Answers (pop_call ∷ calls) (x ∷ pq) bag h same =
    Succeeds-then (pop-Popped (x ∷ pq) h (omega arith)) λ r p.
      Succeeds-then (run-Answers calls r.1 r.1 p.ordered Perm.rfl) λ answers rest. rw p.answer (
        with_value
          (taken (Perm.trans p.same same) (λ u m. p.most u ((Perm.mem_iff same).1 m)) rest))

-- Whatever calls are made of a new queue, none fails, and the calls of Pop answer as those of a bag may:
-- each a trace with the most coverage among those pushed and not yet answered, nil where there is none.
pub run-new-Answers : (calls : List Call) → Succeeds (Answers [] calls) (run new calls)
run-new-Answers calls = run-Answers calls [] [] (λ c p q. absurd (omega arith)) Perm.rfl

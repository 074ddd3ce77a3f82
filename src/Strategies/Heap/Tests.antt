-- ===== src/Strategies/Heap/Tests.antt =====
-- The priority queue on a few traces.
use buzzer.Common.Arrays.{get_or}
use buzzer.Common.{ℕ, zero, suc, ◌≡◌, refl, arith, List, [], ◌∷◌, none, some}
use buzzer.Common.Run.{ok, panic}
use buzzer.Common.Outcome.{Succeeds}
use buzzer.Strategies.Container
use buzzer.Strategies.Container.{CoverageTrace}
use buzzer.Strategies.Heap.{new, push, pop}
use buzzer.Strategies.Heap.Order.{IsHeap}
use buzzer.Strategies.Heap.Queue.{Pushed, push-Pushed, Popped, pop-Popped}
use buzzer.Strategies.Heap.Refinement.{Call, push_call, pop_call, run, Answers, run-new-Answers}

-- A trace, by how much it covers.
abbrev covers : ℕ → CoverageTrace
covers n = record { program = []; coverage_signature = 0; coverage_size = n; usage_count = 0 }

abbrev calls : List Call
calls =
    push_call (covers 3)
    ∷ push_call (covers 9)
    ∷ push_call (covers 5)
    ∷ pop_call
    ∷ push_call (covers 4)
    ∷ pop_call
    ∷ pop_call
    ∷ pop_call
    ∷ pop_call
    ∷ []

largest_first :
    run new calls
    ≡ ok (some (covers 9) ∷ some (covers 5) ∷ some (covers 4) ∷ some (covers 3) ∷ none ∷ [])
unfolding run push pop
largest_first = refl

run-new-Answers_example : Succeeds (Answers [] calls) (run new calls)
run-new-Answers_example = run-new-Answers calls

abbrev three : List CoverageTrace
three = covers 9 ∷ covers 3 ∷ covers 5 ∷ []

three-IsHeap : IsHeap three
unfolding get_or
three-IsHeap zero p q = absurd (omega arith)
three-IsHeap (suc zero) p q = omega arith
three-IsHeap (suc (suc zero)) p q = omega arith
three-IsHeap (suc (suc (suc c))) p q = absurd (omega arith)

push-Pushed_example : Succeeds (Pushed three (covers 7)) (push three (covers 7))
push-Pushed_example = push-Pushed three (covers 7) three-IsHeap

pop-Popped_example : Succeeds (Popped three) (pop three)
pop-Popped_example = pop-Popped three three-IsHeap (omega arith)

-- The container's own Pop, which the queue never calls on an empty slice.
container-pop_empty : Container.pop [] ≡ panic
unfolding Container.pop
container-pop_empty = refl

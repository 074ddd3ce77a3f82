-- ===== src/Strategies/CoverageBased/HeapQueue.antt =====
-- pkg/strategies/heap.go as the queue of the strategy: slices in heap order, on which Push and Pop do not
-- fail.
use buzzer.Common.{
  ℕ, ◌<◌, ◌≡◌, refl, sym, subst, ap, ◌∙◌, arith, List, [], ◌∷◌, ◌++◌, Option, none, some, Bool,
  true, false, Bool-cases, inl, inr, length, length-append, ◌==◌,
}
use buzzer.Common.Run.{ok}
use buzzer.Common.Outcome.{result}
use buzzer.Common.Arrays.{get_or, get_or-append, get_or-last}
use buzzer.Strategies.Container.{CoverageTrace}
use buzzer.Strategies.Heap
use buzzer.Strategies.Heap.{no_trace}
use buzzer.Strategies.Heap.Order.{IsHeap, IsFrom}
use buzzer.Strategies.Heap.Queue.{Pushed, push-Pushed, Popped, pop-Popped}
use buzzer.Strategies.CoverageBased.{PriorityQueue, QueueLaws}

abbrev pub HeapQueue : Type 0
HeapQueue = (pq : List CoverageTrace) × IsHeap pq

-- Push returns a slice in heap order; this is the slice.
pushed :
    (t : CoverageTrace) (q : HeapQueue)
    → (pq : List CoverageTrace) × (Heap.push q.0 t ≡ ok pq) × Pushed q.0 t pq
pushed t q = result (push-Pushed q.0 t q.1)

popped :
    (q : HeapQueue)
    → 0 < length q.0
    → (r : Option CoverageTrace × List CoverageTrace) × (Heap.pop q.0 ≡ ok r) × Popped q.0 r
popped q h = result (pop-Popped q.0 q.1 h)

not_empty : (n : ℕ) → (n == 0) ≡ false → 0 < n
not_empty n e = ground arith

pop_heap : (q : HeapQueue) → (e : Bool) → Heap.is_empty q.0 ≡ e → Option (CoverageTrace × HeapQueue)
pop_heap q true e = none
pop_heap q false e =
    let (r, run, p) = popped q (not_empty (length q.0) e) in some (p.trace, (r.1, p.ordered))

pub heap_queue : PriorityQueue HeapQueue
heap_queue = record {
  empty_queue = ([], λ c p q. absurd (omega arith));
  is_empty = λ q. Heap.is_empty q.0;
  push = λ t q. let (pq, run, p) = pushed t q in (pq, p.ordered);
  pop = λ q. pop_heap q (Heap.is_empty q.0) refl;
}

-- Each trace satisfies `P`, by its place.
abbrev pub EachTrace : (CoverageTrace → Type 0) → List CoverageTrace → Type 0
EachTrace P pq = (i : ℕ) → i < length pq → P (get_or pq i no_trace)

module _ (P : CoverageTrace → Type 0) where
  EachTrace-IsFrom : (a b : List CoverageTrace) → IsFrom a b → EachTrace P a → EachTrace P b
  EachTrace-IsFrom a b from h i p = let (e, he, same) = from i p in subst P (sym same) (h e he)

  EachTrace-append :
      (pq : List CoverageTrace) (t : CoverageTrace)
      → P t
      → EachTrace P pq
      → EachTrace P (pq ++ t ∷ [])
  EachTrace-append pq t h k i p = elim (Bool-cases (i == length pq)) [
    | inl e ↦
        let last : i ≡ length pq = ground arith in
        subst P (sym (ap (λ j. get_or (pq ++ t ∷ []) j no_trace) last ∙ get_or-last no_trace pq t))
          h
    | inr e ↦
        let inside : i < length pq = ground (arith, length-append pq (t ∷ [])) in
        subst P (sym (get_or-append no_trace pq (t ∷ []) i inside)) (k i inside)
  ]

  pop_heap-Each :
      (q : HeapQueue) (e : Bool) (is : Heap.is_empty q.0 ≡ e)
      → e ≡ false
      → EachTrace P q.0
      → (r : CoverageTrace × HeapQueue) × (pop_heap q e is ≡ some r) × P r.0 × EachTrace P r.1.0
  unfolding pop_heap
  pop_heap-Each q true is e h = cc
  pop_heap-Each q false is e h =
      let some_left = not_empty (length q.0) is in
      let (r, run, p) = popped q some_left in
      (
        (p.trace, (r.1, p.ordered)),
        refl,
        subst P (sym p.root) (h 0 some_left),
        EachTrace-IsFrom q.0 r.1 p.origin h,
      )

-- The heap keeps what the strategy relies on.
pub heap_laws : QueueLaws heap_queue
unfolding heap_queue
heap_laws = record {
  Each = λ P q. EachTrace P q.0;
  Each-empty = λ P i p. absurd (omega arith);
  Each-map = λ f q h i p. f _ (h i p);
  Each-push = λ {P} {t} {q} h k.
      EachTrace-IsFrom P _ _ (pushed t q).2.origin (EachTrace-append P q.0 t h k);
  Each-pop = λ {P} {q} e h. pop_heap-Each P q (Heap.is_empty q.0) refl e h;
}

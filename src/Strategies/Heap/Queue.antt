-- ===== src/Strategies/Heap/Queue.antt =====
-- What Push and Pop of the priority queue do to the heap order and to the traces.
use mathlib.Core.List.{perm_append_singleton}
use mathlib.Core.List.Perm
use buzzer.Common.{
  ℕ, suc, ◌+◌, ◌-◌, ◌≤◌, ◌<◌, ◌≡◌, refl, ◌∙◌, List, [], ◌∷◌, ◌++◌, Mem, Perm, Option, none, some,
  arith, length, take, length-append, length-take, ◌==◌,
}
use buzzer.Common.Run.{ok}
use buzzer.Common.Outcome.{Succeeds, with_value, Succeeds-then, Succeeds-map, Succeeds-branch}
use buzzer.Common.Arrays.{
  get_or, get_elem?-get_or, get_or-append, get_or-take, exchange, length-exchange, get_or-exchange,
  exchange-perm, exchange-origin, last-perm, length-perm, mem-le,
}
use buzzer.Strategies.Container
use buzzer.Strategies.Container.{CoverageTrace}
use buzzer.Strategies.Heap.{parent, heap_push, heap_pop, push, pop, no_trace, swap-ok}
use buzzer.Strategies.Heap.Order.{IsHeap, IsFrom, Sifted, root_most}
use buzzer.Strategies.Heap.Up.{UpInv, up-Sifted}
use buzzer.Strategies.Heap.Down.{DownInv, down-Sifted}

-- The queue `r` after Push: the traces of `pq` and `ct`, in heap order.
pub record Pushed (pq : List CoverageTrace) (ct : CoverageTrace) (r : List CoverageTrace)
    : Type 0 where
  pub ordered : IsHeap r
  pub same : Perm r (ct ∷ pq)
  pub origin : IsFrom (pq ++ ct ∷ []) r

-- Push on a queue in heap order does not fail; it adds exactly the new trace and keeps the order.
pub push-Pushed :
    (pq : List CoverageTrace) (ct : CoverageTrace)
    → IsHeap pq
    → Succeeds (Pushed pq ct) (push pq ct)
unfolding push heap_push
push-Pushed pq ct h = Succeeds-map (up-Sifted _ _ start) λ r s. record {
  ordered = rw (length-perm s.same) s.ordered;
  same = Perm.trans s.same (perm_append_singleton ct pq);
  origin = s.origin;
}
  where
    longer : length (pq ++ ct ∷ []) ≡ length pq + 1
    longer = length-append pq (ct ∷ [])

    start : UpInv (pq ++ ct ∷ []) (length (pq ++ ct ∷ []) - 1)
    start = record {
      inside = omega (arith, longer);
      edges = λ c p r s. ground (
        arith,
        longer,
        h c,
        get_or-append no_trace pq (ct ∷ []) c,
        get_or-append no_trace pq (ct ∷ []) (parent c),
      );
      bridged = λ c p r s t. absurd (omega (arith, longer));
    }

-- Pop of an empty queue answers nil and changes nothing.
pub pop_empty : pop [] ≡ ok (none, [])
unfolding pop
pop_empty = refl

-- What Pop answers: a trace that no other covers more than, and the rest of the queue in heap order.
pub record Popped (pq : List CoverageTrace) (r : Option CoverageTrace × List CoverageTrace)
    : Type 0 where
  pub trace : CoverageTrace
  pub answer : r.0 ≡ some trace
  pub ordered : IsHeap r.1
  pub same : Perm (trace ∷ r.1) pq
  pub root : trace ≡ get_or pq 0 no_trace
  pub origin : IsFrom pq r.1
  pub most : (t : CoverageTrace) → Mem t pq → t.coverage_size ≤ trace.coverage_size

module _ (pq : List CoverageTrace) (n : ℕ) (full : length pq ≡ suc n) where
  -- The slice that heap.Pop hands to `down`.
  abbrev rotated : List CoverageTrace
  rotated = exchange no_trace pq 0 n

  rotated-DownInv : IsHeap pq → DownInv n rotated 0
  rotated-DownInv h =
      let at = get_or-exchange no_trace pq 0 n (omega arith) (omega arith) in
      record {
        edges = λ c p q r. ground (arith, h c, at c, at (parent c));
        bridged = λ c p q r s. absurd (omega arith);
      }

  module _ (b : List CoverageTrace) (s : Sifted n rotated b) where
    length-sifted : length b ≡ suc n
    length-sifted = length-perm s.same ∙ length-exchange no_trace pq 0 n ∙ full

    last-root : get_or b n no_trace ≡ get_or pq 0 no_trace
    last-root = ground (
      arith,
      s.beyond n (omega arith),
      get_or-exchange no_trace pq 0 n (omega arith) (omega arith) n,
    )

    rest-IsHeap : IsHeap (take n b)
    rest-IsHeap c p q =
        let short = length-take n b (omega (arith, length-sifted)) in
        ground (
          arith,
          short,
          s.ordered c,
          get_or-take no_trace n b c,
          get_or-take no_trace n b (parent c),
        )

    Container-pop-ok : Container.pop b ≡ ok (get_or pq 0 no_trace, take n b)
    unfolding Container.pop
    Container-pop-ok =
        let bound : n < length b = omega (arith, length-sifted) in
        let one_less : suc n - 1 ≡ n = omega arith in
        rw (length-sifted, ← last-root, one_less, get_elem?-get_or no_trace b n bound)
          (ground arith)

    rest-IsFrom : IsFrom pq (take n b)
    rest-IsFrom c h =
        let size = length-sifted in
        let short = length-take n b (omega (arith, size)) in
        let (e, he, from_rotated) = s.origin c (omega (arith, size, short)) in
        let (f, hf, from_pq) =
          exchange-origin no_trace pq 0 n (omega arith) (omega arith) e
            (omega (arith, length-exchange no_trace pq 0 n)) in
        (f, hf, get_or-take no_trace n b c (omega (arith, short)) ∙ from_rotated ∙ from_pq)

    rest-perm : Perm (get_or pq 0 no_trace ∷ take n b) pq
    rest-perm =
        let perm = last-perm no_trace n b length-sifted in
        Perm.trans (rw last-root at perm)
          (Perm.trans s.same (exchange-perm no_trace pq 0 n (omega arith) (omega arith)))

-- The root and what is left without it, in heap order.
abbrev Removed : List CoverageTrace → CoverageTrace × List CoverageTrace → Type 0
Removed pq r = (r.0 ≡ get_or pq 0 no_trace) × IsHeap r.1 × Perm (r.0 ∷ r.1) pq × IsFrom pq r.1

heap_pop-Removed :
    (pq : List CoverageTrace) → IsHeap pq → 0 < length pq → Succeeds (Removed pq) (heap_pop pq)
unfolding heap_pop
heap_pop-Removed pq h some_left =
    let n = length pq - 1 in
    let full : length pq ≡ suc n = omega arith in
    let bound : n ≤ length (rotated pq n full) = omega (arith, length-exchange no_trace pq 0 n) in
    rw (swap-ok pq 0 n some_left (omega arith)) (
      Succeeds-then (down-Sifted n (rotated pq n full) 0 bound (rotated-DownInv pq n full h)) λ b s.
        rw (Container-pop-ok pq n full b s) (
          with_value
            (refl, rest-IsHeap pq n full b s, rest-perm pq n full b s, rest-IsFrom pq n full b s)))

-- Pop of a queue in heap order that is not empty does not fail: it answers a trace that covers the most,
-- takes exactly that one away, and keeps the order.
pub pop-Popped :
    (pq : List CoverageTrace) → IsHeap pq → 0 < length pq → Succeeds (Popped pq) (pop pq)
unfolding pop
pop-Popped pq h some_left =
    Succeeds-branch (length pq == 0) (λ e. absurd (ground arith))
      λ _. Succeeds-then (heap_pop-Removed pq h some_left) λ r (root, ordered, same, origin).
        with_value (record {
          trace = r.0;
          answer = refl;
          ordered = ordered;
          same = same;
          root = root;
          origin = origin;
          most =
              rw root
                (mem-le no_trace (λ t. t.coverage_size) pq _ λ i p. root_most (length pq) pq i h p);
        })

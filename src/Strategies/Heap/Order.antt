-- ===== src/Strategies/Heap/Order.antt =====
-- The heap order of the traces below a bound, and what the two loops keep.
use mathlib.Core.List.Perm
use buzzer.Common.{ℕ, zero, suc, ◌≤◌, ◌<◌, ◌≡◌, ◌∙◌, List, Perm, arith, length}
use buzzer.Common.Run.{Run}
use buzzer.Common.Outcome.{Succeeds, Succeeds-map}
use buzzer.Common.Arrays.{
  get_or, exchange, get_or-exchange, exchange-perm, exchange-origin, length-exchange,
}
use buzzer.Strategies.Container.{CoverageTrace}
use buzzer.Strategies.Heap.{parent, size, no_trace}

-- No trace below `n` covers more than its parent.
abbrev pub IsHeapBelow : ℕ → List CoverageTrace → Type 0
IsHeapBelow n pq = (c : ℕ) → 0 < c → c < n → size pq c ≤ size pq (parent c)

abbrev pub IsHeap : List CoverageTrace → Type 0
IsHeap pq = IsHeapBelow (length pq) pq

-- No child of `i` covers more than the parent of `i`.
abbrev pub IsBridged : ℕ → List CoverageTrace → ℕ → Type 0
IsBridged n pq i = (c : ℕ) → 0 < c → c < n → parent c ≡ i → 0 < i → size pq c ≤ size pq (parent i)

-- Each trace of `after` is one of `before`.
abbrev pub IsFrom : List CoverageTrace → List CoverageTrace → Type 0
IsFrom before after =
    (c : ℕ)
    → c < length after
    → (e : ℕ) × (e < length before) × (get_or after c no_trace ≡ get_or before e no_trace)

pub IsFrom-trans : (a b c : List CoverageTrace) → IsFrom a b → IsFrom b c → IsFrom a c
IsFrom-trans a b c f g i h = let (j, hj, e) = g i h in let (k, hk, e') = f j hj in (k, hk, e ∙ e')

-- `sifted` has the traces of `pq`, in heap order below `n`; the places from `n` on are as they were.
pub record Sifted (n : ℕ) (pq sifted : List CoverageTrace) : Type 0 where
  pub ordered : IsHeapBelow n sifted
  pub same : Perm sifted pq
  pub origin : IsFrom pq sifted
  pub beyond : (c : ℕ) → n ≤ c → get_or sifted c no_trace ≡ get_or pq c no_trace

pub Sifted-exchange :
    (n i j : ℕ) (pq : List CoverageTrace) {r : Run (List CoverageTrace)}
    → n ≤ length pq
    → i < n
    → j < n
    → Succeeds (Sifted n (exchange no_trace pq i j)) r
    → Succeeds (Sifted n pq) r
Sifted-exchange n i j pq hn hi hj run = Succeeds-map run λ b s. record {
  ordered = s.ordered;
  same = Perm.trans s.same (exchange-perm no_trace pq i j (omega arith) (omega arith));
  origin =
      IsFrom-trans pq (exchange no_trace pq i j) b
        (λ c h.
          exchange-origin no_trace pq i j (omega arith) (omega arith) c
            (rw (length-exchange no_trace pq i j) at h))
        s.origin;
  beyond = λ c h.
      ground (arith, s.beyond c h, get_or-exchange no_trace pq i j (omega arith) (omega arith) c);
}

below_root :
    (k n : ℕ) (pq : List CoverageTrace) (i : ℕ)
    → IsHeapBelow n pq
    → i < k
    → i < n
    → size pq i ≤ size pq 0
below_root zero n pq i h f p = absurd (omega arith)
below_root (suc k) n pq i h f p = ground (arith, h i, below_root k n pq (parent i) h)

-- The root of a heap covers the most.
pub root_most :
    (n : ℕ) (pq : List CoverageTrace) (i : ℕ) → IsHeapBelow n pq → i < n → size pq i ≤ size pq 0
root_most n pq i h p = below_root (suc i) n pq i h (omega arith) p

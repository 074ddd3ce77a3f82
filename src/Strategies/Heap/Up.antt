-- ===== src/Strategies/Heap/Up.antt =====
-- `up` after one trace has been appended.
use mathlib.Core.List.Perm
use buzzer.Common.{ℕ, zero, suc, ◌+◌, ◌≤◌, ◌<◌, ◌≢◌, refl, List, arith, length, ltb, ◌==◌}
use buzzer.Common.Outcome.{Succeeds, with_value, Succeeds-branch}
use buzzer.Common.Arrays.{exchange, length-exchange, get_or-exchange}
use buzzer.Strategies.Container.{CoverageTrace}
use buzzer.Strategies.Heap.{parent, up_loop, up, size, no_trace, less-ok, swap-ok}
use buzzer.Strategies.Heap.Order.{IsBridged, Sifted, Sifted-exchange}

-- Only the edge above `j` may be out of order.
pub record UpInv (pq : List CoverageTrace) (j : ℕ) : Type 0 where
  pub inside : j < length pq
  pub edges : (c : ℕ) → 0 < c → c < length pq → c ≢ j → size pq c ≤ size pq (parent c)
  pub bridged : IsBridged (length pq) pq j

module _ (pq : List CoverageTrace) (j : ℕ) (v : UpInv pq j) (moved : parent j ≢ j) where
  abbrev raised : List CoverageTrace
  raised = exchange no_trace pq (parent j) j

  raised-UpInv : size pq (parent j) < size pq j → UpInv raised (parent j)
  raised-UpInv above =
      let inside = v.inside in
      let same = length-exchange no_trace pq (parent j) j in
      let at = get_or-exchange no_trace pq (parent j) j (omega arith) inside in
      record {
        inside = omega (arith, same);
        edges = λ c p q r. ground (arith, same, at c, at (parent c), v.edges c, v.bridged c);
        bridged = λ c p q r s.
            ground (arith, same, at c, at (parent (parent j)), v.edges c, v.edges (parent j));
      }

up_loop-Sifted :
    (rounds : ℕ) (pq : List CoverageTrace) (j : ℕ)
    → j < rounds
    → UpInv pq j
    → Succeeds (Sifted (length pq) pq) (up_loop rounds pq j)
unfolding up_loop
up_loop-Sifted zero pq j f v = absurd (omega arith)
up_loop-Sifted (suc rounds) pq j f v =
    Succeeds-branch (parent j == j)
      (λ root. with_value (record {
        ordered = λ c p q. v.edges c p q (ground arith);
        same = Perm.rfl;
        origin = λ c h. (c, h, refl);
        beyond = λ c h. refl;
      }))
      λ below.
        let inside = v.inside in
        let parent_inside : parent j < length pq = omega arith in
        let apart : parent j ≢ j = ground arith in
        let same = length-exchange no_trace pq (parent j) j in
        rw
          (
            less-ok pq j (parent j) inside parent_inside,
            swap-ok pq (parent j) j parent_inside inside,
          )
          (Succeeds-branch (ltb (size pq (parent j)) (size pq j))
            (λ above.
              Sifted-exchange (length pq) (parent j) j pq (omega arith) parent_inside inside (
                rw same at (
                  up_loop-Sifted rounds (exchange no_trace pq (parent j) j) (parent j) (omega arith)
                    (raised-UpInv pq j v apart (ground arith)))))
            (λ settled. with_value (record {
              ordered = λ c p q. ground (arith, v.edges c);
              same = Perm.rfl;
              origin = λ c h. (c, h, refl);
              beyond = λ c h. refl;
            })))

-- `up` puts one trace that may stand too low in its place, and does not fail.
pub up-Sifted :
    (pq : List CoverageTrace) (j : ℕ) → UpInv pq j → Succeeds (Sifted (length pq) pq) (up pq j)
unfolding up
up-Sifted pq j v = up_loop-Sifted (j + 1) pq j (omega arith) v

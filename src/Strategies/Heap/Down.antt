-- ===== src/Strategies/Heap/Down.antt =====
-- `down` after the root has been replaced.
use mathlib.Core.List.Perm
use buzzer.Common.{
  ℕ, zero, suc, ◌+◌, ◌-◌, ◌*◌, ◌≤◌, ◌<◌, ◌≡◌, ◌≢◌, ◌⊎◌, refl, List, arith, length, ltb, leb,
}
use buzzer.Common.Outcome.{Succeeds, with_value, Succeeds-then, Succeeds-branch}
use buzzer.Common.Arrays.{exchange, length-exchange, get_or-exchange}
use buzzer.Strategies.Container.{CoverageTrace}
use buzzer.Strategies.Heap.{parent, first_child, down_loop, down, size, no_trace, less-ok, swap-ok}
use buzzer.Strategies.Heap.Order.{IsBridged, Sifted, Sifted-exchange}

-- Only the edges below `i` may be out of order.
pub record DownInv (n : ℕ) (pq : List CoverageTrace) (i : ℕ) : Type 0 where
  pub edges : (c : ℕ) → 0 < c → c < n → parent c ≢ i → size pq c ≤ size pq (parent c)
  pub bridged : IsBridged n pq i

-- `m` is a child of `i` below `n`, and no other covers more.
record IsFirstChild (n : ℕ) (pq : List CoverageTrace) (i m : ℕ) : Type 0 where
  inside : m < n
  child : (m ≡ 2 * i + 1) ⊎ (m ≡ 2 * i + 2)
  most : (c : ℕ) → 0 < c → c < n → parent c ≡ i → size pq c ≤ size pq m

module _ (n : ℕ) (pq : List CoverageTrace) (i : ℕ) (bound : n ≤ length pq) where
  first_child-IsFirstChild : 2 * i + 1 < n → Succeeds (IsFirstChild n pq i) (first_child pq i n)
  unfolding first_child
  first_child-IsFirstChild h = grind (arith, less-ok pq (2 * i + 1 + 1) (2 * i + 1), with_value)

  lowered-DownInv :
      (m : ℕ)
      → DownInv n pq i
      → IsFirstChild n pq i m
      → size pq i < size pq m
      → DownInv n (exchange no_trace pq i m) m
  lowered-DownInv m v s above =
      let inside = s.inside in
      let at = get_or-exchange no_trace pq i m (omega arith) (omega arith) in
      record {
        edges = λ c p q r. ground (arith, at c, at (parent c), v.edges c, v.bridged m, s.most c);
        bridged = λ c p q r t. ground (arith, at c, at (parent m), v.edges c);
      }

down_loop-Sifted :
    (rounds n : ℕ) (pq : List CoverageTrace) (i : ℕ)
    → n ≤ length pq
    → n - i < rounds
    → DownInv n pq i
    → Succeeds (Sifted n pq) (down_loop rounds pq i n)
unfolding down_loop
down_loop-Sifted zero n pq i bound f v = absurd (omega arith)
down_loop-Sifted (suc rounds) n pq i bound f v =
    Succeeds-branch (leb n (2 * i + 1))
      (λ leaf. with_value (record {
        ordered = λ c p q. ground (arith, v.edges c);
        same = Perm.rfl;
        origin = λ c h. (c, h, refl);
        beyond = λ c h. refl;
      }))
      λ inner. Succeeds-then (first_child-IsFirstChild n pq i bound (ground arith)) λ m s.
        let inside = s.inside in
        let hi : i < length pq = ground arith in
        let hm : m < length pq = omega arith in
        rw (less-ok pq m i hm hi, swap-ok pq i m hi hm)
          (Succeeds-branch (ltb (size pq i) (size pq m))
            (λ above. Sifted-exchange n i m pq bound (ground arith) inside (
              down_loop-Sifted rounds n (exchange no_trace pq i m) m
                (omega (arith, length-exchange no_trace pq i m)) (ground (arith, s.child))
                (lowered-DownInv n pq i bound m v s (ground arith))))
            (λ settled. with_value (record {
              ordered = λ c p q. ground (arith, v.edges c, s.most c);
              same = Perm.rfl;
              origin = λ c h. (c, h, refl);
              beyond = λ c h. refl;
            })))

-- `down` puts the root in its place among the traces below `n`, and does not fail.
pub down-Sifted :
    (n : ℕ) (pq : List CoverageTrace) (i : ℕ)
    → n ≤ length pq
    → DownInv n pq i
    → Succeeds (Sifted n pq) (down pq i n)
unfolding down
down-Sifted n pq i bound v = down_loop-Sifted (n + 1) n pq i bound (omega arith) v

-- ===== src/Strategies/Container.antt =====
-- pkg/strategies/heap.go: the traces, and the methods of PriorityQueueContainer, which container/heap calls.
use buzzer.Common.{
  ℕ, ◌-◌, List, [], ◌∷◌, ◌++◌, Bool, ltb, ◌==◌, if◌then◌else◌, length, get_elem?, set, take,
}
use buzzer.Common.Run.{Run, panic, ok, ◌>>=◌, or_panic}
use buzzer.Ebpf.{Instruction}

pub record CoverageTrace : Type 0 where
  pub program : List Instruction
  pub coverage_signature : ℕ
  pub coverage_size : ℕ
  pub usage_count : ℕ

abbrev pub container_len : List CoverageTrace → ℕ
container_len = length

unfoldable pub less : List CoverageTrace → ℕ → ℕ → Run Bool
less pq i j = do
  x ← or_panic (get_elem? pq i)
  y ← or_panic (get_elem? pq j)
  ok (ltb y.coverage_size x.coverage_size)

unfoldable pub swap : List CoverageTrace → ℕ → ℕ → Run (List CoverageTrace)
swap pq i j = do
  y ← or_panic (get_elem? pq j)
  x ← or_panic (get_elem? pq i)
  ok (set (set pq i y) j x)

abbrev pub push : CoverageTrace → List CoverageTrace → List CoverageTrace
push x pq = pq ++ x ∷ []

-- `old[n-1]` of an empty slice panics.
unfoldable pub pop : List CoverageTrace → Run (CoverageTrace × List CoverageTrace)
pop old =
    let n = length old in
    let last : Run (CoverageTrace × List CoverageTrace) = do
      item ← or_panic (get_elem? old (n - 1))
      ok (item, take (n - 1) old)
    in if n == 0 then panic else last

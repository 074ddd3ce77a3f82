-- ===== src/Strategies/Heap.antt =====
-- pkg/strategies/heap.go: the priority queue of coverage traces, and the loops of Go's container/heap
-- that it is run by. A queue is the slice of its traces, and an index out of range panics.
pub mod Order
pub mod Up
pub mod Down
pub mod Queue
pub mod Refinement
mod Tests
use buzzer.Common.{
  ℕ, zero, suc, ◌+◌, ◌-◌, ◌*◌, ◌/◌, ◌<◌, ◌≡◌, List, [], ◌∷◌, ◌++◌, Option, none, some, Bool, ltb,
  leb, ◌==◌, if◌then◌else◌, length, get_elem?, set, take,
}
use buzzer.Common.Run.{Run, panic, ok, ◌>>=◌, or_panic}
use buzzer.Common.Arrays.{get_or, get_elem?-get_or, exchange}
use buzzer.Strategies.Container
use buzzer.Strategies.Container.{CoverageTrace}

abbrev pub parent : ℕ → ℕ
parent j = (j - 1) / 2

-- The first argument bounds the rounds; to run out of them would count as a panic.
unfoldable pub up_loop : ℕ → List CoverageTrace → ℕ → Run (List CoverageTrace)
unfolding Container.less Container.swap
up_loop zero pq j = panic
up_loop (suc rounds) pq j =
    let rise = Container.swap pq (parent j) j >>= λ pq. up_loop rounds pq (parent j) in
    let step = Container.less pq j (parent j) >>= λ above. if above then rise else ok pq in
    if parent j == j then ok pq else step

unfoldable pub up : List CoverageTrace → ℕ → Run (List CoverageTrace)
unfolding up_loop
up pq j = up_loop (j + 1) pq j

-- The child of `i` that Less prefers, among those below `n`.
unfoldable pub first_child : List CoverageTrace → ℕ → ℕ → Run ℕ
unfolding Container.less
first_child pq i n =
    let left = 2 * i + 1 in
    let right = left + 1 in
    if ltb right n
    then (do above ← Container.less pq right left; ok (if above then right else left))
    else ok left

unfoldable pub down_loop : ℕ → List CoverageTrace → ℕ → ℕ → Run (List CoverageTrace)
unfolding Container.less Container.swap first_child
down_loop zero pq i n = panic
down_loop (suc rounds) pq i n =
    let step : Run (List CoverageTrace) = do
      j ← first_child pq i n
      above ← Container.less pq j i
      let sink = Container.swap pq i j >>= λ pq. down_loop rounds pq j n
      if above then sink else ok pq
    in if leb n (2 * i + 1) then ok pq else step

unfoldable pub down : List CoverageTrace → ℕ → ℕ → Run (List CoverageTrace)
unfolding down_loop
down pq i n = down_loop (n + 1) pq i n

-- heap.Push and heap.Pop
unfoldable pub heap_push : CoverageTrace → List CoverageTrace → Run (List CoverageTrace)
unfolding up
heap_push x pq = let pq = Container.push x pq in up pq (Container.container_len pq - 1)

unfoldable pub heap_pop : List CoverageTrace → Run (CoverageTrace × List CoverageTrace)
unfolding Container.swap down Container.pop
heap_pop pq = do
  let n = Container.container_len pq - 1
  pq ← Container.swap pq 0 n
  pq ← down pq 0 n
  Container.pop pq

-- The methods of PriorityQueue. Pop of an empty queue returns nil.
abbrev pub new : List CoverageTrace
new = []

unfoldable pub push : List CoverageTrace → CoverageTrace → Run (List CoverageTrace)
unfolding heap_push
push pq ct = heap_push ct pq

abbrev pub queue_len : List CoverageTrace → ℕ
queue_len pq = Container.container_len pq

abbrev pub is_empty : List CoverageTrace → Bool
is_empty pq = queue_len pq == 0

unfoldable pub pop : List CoverageTrace → Run (Option CoverageTrace × List CoverageTrace)
unfolding heap_pop
pop pq =
    let popped = heap_pop pq >>= λ r. ok (some r.0, r.1) in
    if is_empty pq then ok (none, pq) else popped

-- To read at an index that is known to be in range.
abbrev pub no_trace : CoverageTrace
no_trace = record { program = []; coverage_signature = 0; coverage_size = 0; usage_count = 0 }

abbrev pub size : List CoverageTrace → ℕ → ℕ
size pq i = (get_or pq i no_trace).coverage_size

module _ (pq : List CoverageTrace) (i j : ℕ) (hi : i < length pq) (hj : j < length pq) where
  pub less-ok : Container.less pq i j ≡ ok (ltb (size pq j) (size pq i))
  unfolding Container.less
  less-ok = rw (get_elem?-get_or no_trace pq i hi, get_elem?-get_or no_trace pq j hj)

  pub swap-ok : Container.swap pq i j ≡ ok (exchange no_trace pq i j)
  unfolding Container.swap exchange
  swap-ok = rw (get_elem?-get_or no_trace pq j hj, get_elem?-get_or no_trace pq i hi)

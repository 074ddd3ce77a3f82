-- ===== src/Units/Metrics.antt =====
-- pkg/units/metrics_unit.go: the queue of validation results, and when coverage is collected.
-- The mutexes make each of these operations one step.
pub mod Queue
pub mod Sampling
mod Tests
use buzzer.Common.{
  ℕ, ◌+◌, ◌-◌, ◌%◌, ◌^◌, List, [], ◌∷◌, ◌++◌, Option, none, some, Bool, true, false, not, ltb, ◌==◌,
  if◌then◌else◌, length, drop,
}
use buzzer.Common.Run.{Run, ok, panic, ◌>>=◌}
use buzzer.Common.Words.{to_u64}
use buzzer.Units.{ValidationResult}

-- Metrics, with the two counters of its MetricsCollection; the numbers are int and uint64.
pub record Metrics : Type 0 where
  pub sampling_threshold : ℕ
  pub kcov_size : ℕ
  pub is_kcov_supported : Bool
  pub validation_result_queue : List ValidationResult
  pub programs_verified : ℕ
  pub valid_programs : ℕ

unfoldable pub enqueue_validation_result : ValidationResult → Metrics → Metrics
enqueue_validation_result vr mu = record mu {
  validation_result_queue = mu.validation_result_queue ++ vr ∷ [];
}

-- The queue without its first element.
abbrev pub rest_of : List ValidationResult → List ValidationResult
rest_of queue = if length queue == 1 then [] else drop 1 queue

unfoldable pub dequeue_from : Metrics → List ValidationResult → Metrics × Option ValidationResult
dequeue_from mu [] = (mu, none)
dequeue_from mu (res ∷ others) =
    (record mu { validation_result_queue = rest_of (res ∷ others) }, some res)

unfoldable pub dequeue_validation_result : Metrics → Metrics × Option ValidationResult
unfolding dequeue_from
dequeue_validation_result mu = dequeue_from mu mu.validation_result_queue

-- The size of an int. The remainder of Go is zero exactly where that of the sizes is.
abbrev pub magnitude : ℕ → ℕ
magnitude x = if ltb x (2 ^ 63) then x else 2 ^ 64 - x

unfoldable pub should_collect_detailed_info : Metrics → Run Bool
should_collect_detailed_info mu =
    if mu.sampling_threshold == 0
    then panic
    else ok (magnitude mu.programs_verified % magnitude mu.sampling_threshold == 0)

unfoldable pub record_verified_program : Metrics → Metrics
record_verified_program mu = record mu { programs_verified = to_u64 (mu.programs_verified + 1) }

unfoldable pub should_get_coverage : Metrics → Run (Metrics × Bool × ℕ)
unfolding record_verified_program should_collect_detailed_info
should_get_coverage mu =
    let mu = record_verified_program mu in
    if not mu.is_kcov_supported
    then ok (mu, false, 0)
    else (should_collect_detailed_info mu >>= λ collect.
        if collect then ok (mu, mu.is_kcov_supported, mu.kcov_size) else ok (mu, false, 0))

unfoldable pub record_valid_program : Metrics → Metrics
record_valid_program mu = record mu { valid_programs = to_u64 (mu.valid_programs + 1) }

unfoldable pub record_verification_results : ValidationResult → Metrics → Metrics
unfolding enqueue_validation_result record_valid_program
record_verification_results vr mu =
    enqueue_validation_result vr (if vr.is_valid then record_valid_program mu else mu)

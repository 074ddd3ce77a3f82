-- ===== src/Units/MetricsCollection/Routine.antt =====
-- What validationResultProcessingRoutine has counted when the queue is empty.
use buzzer.Common.{ℕ, ◌+◌, ◌≤◌, ◌≡◌, refl, arith, List, [], ◌∷◌, Option, some, length}
use buzzer.Common.Outcome.{Succeeds, with_value, Succeeds-then, Succeeds-map}
use buzzer.Common.Words.{to_u64}
use buzzer.Units.{ValidationResult}
use buzzer.Units.Metrics.{Metrics, dequeue_validation_result, dequeue_from}
use buzzer.Units.Metrics.Queue.{rest_of-tail}
use buzzer.Units.CoverageManager.{CoverageManager, process_coverage_addresses}
use buzzer.Units.MetricsCollection.{MetricsCollection, process_result, processing_routine}
use buzzer.Units.MetricsCollection.Reports.{
  Report, counts_for, count, Counted, process_verifier_log-Counted,
}

-- Results, each with what its log reports.
pub data Reports : List ValidationResult → Type 0 where
  all_reported : Reports []
  next_report :
      {vres : ValidationResult} {others : List ValidationResult}
      → Report vres
      → Reports others
      → Reports (vres ∷ others)

-- How many of the results report a verdict.
abbrev pub tally : {queue : List ValidationResult} → List ℕ → Reports queue → ℕ
tally verdict all_reported = 0
tally verdict (next_report report reports) = counts_for verdict report + tally verdict reports

-- ProcessCoverageAddresses, which gives an answer or an error.
abbrev pub Settles : (List ℕ → Option (List ℕ)) → Type 0
Settles address_to_line =
    (now : ℕ) (cov : List ℕ) (cm : CoverageManager)
    → Succeeds (λ r. Unit {0}) (process_coverage_addresses address_to_line now cov cm)

-- The queue is empty, and each verdict is counted once more for each result that reports it.
pub record Drained {queue : List ValidationResult} (reports : Reports queue)
    (mc : MetricsCollection) (state : Metrics × MetricsCollection) : Type 0 where
  pub empty : state.0.validation_result_queue ≡ []
  pub counted :
      (verdict : List ℕ)
      → to_u64 (count state.1 verdict) ≡ to_u64 (count mc verdict + tally verdict reports)

module _ (address_to_line : List ℕ → Option (List ℕ)) (settles : Settles address_to_line) where
  process_result-Counted :
      (now : ℕ) {vres : ValidationResult} (report : Report vres) (mc : MetricsCollection)
      → Succeeds
          (λ (after, took). Counted report mc after)
          (process_result address_to_line now (some vres) mc)
  unfolding process_result
  process_result-Counted now {vres} report mc =
      Succeeds-then (settles now vres.coverage_address mc.coverage_manager) λ (cm, covered) u.
        Succeeds-then
          (process_verifier_log-Counted vres report (record mc { coverage_manager = cm }))
          λ after counted. with_value counted

  -- Where no run of ProcessCoverageAddresses panics, each queued result has no log, or is of a valid program, or has a
  -- verdict in the second line from the end of its log, and nothing is recorded meanwhile: as many rounds of
  -- validationResultProcessingRoutine as there are results, or more, end without a panic and leave the queue
  -- empty, and the count of every verdict has grown by the number of the results that report it, as an int.
  pub processing_routine-Drained :
      (times : List ℕ) {queue : List ValidationResult} (reports : Reports queue) (mu : Metrics)
      (mc : MetricsCollection)
      → mu.validation_result_queue ≡ queue
      → length queue ≤ length times
      → Succeeds (Drained reports mc) (processing_routine address_to_line times (mu, mc))
  unfolding processing_routine dequeue_validation_result dequeue_from process_result
  processing_routine-Drained [] all_reported mu mc e h =
      with_value (record { empty = e; counted = λ verdict. omega arith })
  processing_routine-Drained [] (next_report report reports) mu mc e h = absurd (omega arith)
  processing_routine-Drained (now ∷ times) all_reported mu mc e h = rw e (
      processing_routine-Drained times all_reported (record mu { validation_result_queue = [] }) mc
        refl (omega arith))
  processing_routine-Drained (now ∷ times) (next_report {vres} {others} report reports) mu mc e h =
      rw (e, rest_of-tail vres others)
        (Succeeds-then (process_result-Counted now report mc) λ (after, took) counted.
          Succeeds-map
            (processing_routine-Drained times reports
              (record mu { validation_result_queue = others }) after refl (omega arith))
            λ state drained. record {
              empty = drained.empty;
              counted = λ verdict. omega (arith, drained.counted verdict, counted verdict);
            })

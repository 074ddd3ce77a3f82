-- ===== src/Units/MetricsCollection.antt =====
-- pkg/units/metrics_collection.go, but for the two counters, which Units.Metrics has: what the metrics keep of the
-- verifier's logs, and the processing routine of pkg/units/metrics_unit.go, which fills them.
pub mod Reports
pub mod Routine
mod Tests
use buzzer.Common.{
  ℕ, ◌+◌, ◌-◌, List, [], ◌∷◌, ◌++◌, Option, none, some, Bool, true, false, ltb, ◌==◌, if◌then◌else◌,
  length, get_elem?,
}
use buzzer.Common.Run.{Run, ok, panic, or_panic, ◌>>=◌}
use buzzer.Common.Words.{to_u64}
use buzzer.Common.Text.{same_text, split, last_part}
use buzzer.Common.Maps.{find, assign}
use buzzer.Units.{ValidationResult}
use buzzer.Units.Metrics.{Metrics, dequeue_validation_result}
use buzzer.Units.CoverageManager.{CoverageManager, newline, slash, process_coverage_addresses}

pub record MetricsCollection : Type 0 where
  pub coverage_manager : CoverageManager
  pub latest_verifier_log : List ℕ
  pub verifier_verdicts : List (List ℕ × ℕ)

abbrev pub one_more : Option ℕ → ℕ
one_more none = 1
one_more (some n) = to_u64 (n + 1)

unfoldable pub count_verdict : List ℕ → MetricsCollection → MetricsCollection
count_verdict verifier_error mc = record mc {
  verifier_verdicts =
      assign same_text mc.verifier_verdicts verifier_error
        (one_more (find same_text mc.verifier_verdicts verifier_error));
}

-- `logSplits[len(logSplits)-3]`
abbrev pub third_last : List (List ℕ) → Option (List ℕ)
third_last parts = if ltb (length parts) 3 then none else get_elem? parts (length parts - 3)

unfoldable pub process_verifier_log : ValidationResult → MetricsCollection → Run MetricsCollection
unfolding count_verdict
process_verifier_log vres mc =
    let seen = record mc { latest_verifier_log = vres.verifier_log } in
    if length vres.verifier_log == 0
    then ok mc
    else if vres.is_valid
    then ok seen
    else (or_panic (third_last (split newline vres.verifier_log)) >>= λ verifier_error.
        ok (count_verdict verifier_error seen))

-- What a round of validationResultProcessingRoutine does with the result that it took, if any; and whether it
-- took one, since without one it sleeps.
module _ (address_to_line : List ℕ → Option (List ℕ)) where
  unfoldable pub process_result :
      ℕ → Option ValidationResult → MetricsCollection → Run (MetricsCollection × Bool)
  process_result now none mc = ok (mc, false)
  process_result now (some vres) mc = do
    (cm, covered) ←
        process_coverage_addresses address_to_line now vres.coverage_address mc.coverage_manager
    mc ← process_verifier_log vres (record mc { coverage_manager = cm })
    ok (mc, true)

  -- The rounds of validationResultProcessingRoutine at some times, with nothing recorded in between.
  unfoldable pub processing_routine :
      List ℕ → Metrics × MetricsCollection → Run (Metrics × MetricsCollection)
  unfolding process_result
  processing_routine [] state = ok state
  processing_routine (now ∷ times) (mu, mc) =
      let (mu, vres) = dequeue_validation_result mu in
      process_result now vres mc >>= λ (mc, took). processing_routine times (mu, mc)

-- CoverageInfo and getMetrics, with the counters of the metrics.
pub record CoverageInfo : Type 0 where
  pub file_name : List ℕ
  pub full_path : List ℕ
  pub covered_lines : List ℕ

unfoldable pub coverage_infos : List (List ℕ × List ℕ) → List CoverageInfo
coverage_infos [] = []
coverage_infos ((file_path, cov) ∷ rest) =
    record {
      file_name = last_part (split slash file_path);
      full_path = file_path;
      covered_lines = cov;
    }
    ∷ coverage_infos rest

unfoldable pub get_metrics : Metrics → MetricsCollection → ℕ × ℕ × List CoverageInfo
unfolding coverage_infos
get_metrics mu mc =
    (mu.programs_verified, mu.valid_programs, coverage_infos mc.coverage_manager.coverage_info_map)

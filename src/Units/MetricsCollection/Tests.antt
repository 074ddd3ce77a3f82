-- ===== src/Units/MetricsCollection/Tests.antt =====
-- Logs of an invalid program, with and without a verdict.
use buzzer.Common.{
  ℕ, ◌≡◌, refl, arith, List, [], ◌∷◌, Option, none, Bool, true, false, length, ◌==◌,
}
use buzzer.Common.Run.{ok, panic}
use buzzer.Common.Outcome.{Succeeds, with_value, Succeeds-branch}
use buzzer.Common.Text.{split}
use buzzer.Common.Maps.{assign}
use buzzer.Units.{ValidationResult}
use buzzer.Units.Metrics.{Metrics}
use buzzer.Units.CoverageManager.{
  new_coverage_manager, unknown_addr, process_output, process_coverage_addresses,
}
use buzzer.Units.MetricsCollection.{
  MetricsCollection, count_verdict, process_verifier_log, processing_routine, coverage_infos,
  get_metrics,
}
use buzzer.Units.MetricsCollection.Reports.{Report, passed, failed}
use buzzer.Units.MetricsCollection.Routine.{
  Reports, all_reported, next_report, Settles, Drained, processing_routine-Drained,
}

abbrev result_with : Bool → List ℕ → ValidationResult
result_with valid log = record {
  is_valid = valid;
  program_fd = 3;
  did_collect_coverage = true;
  coverage_address = 7 ∷ [];
  socket_write = 0;
  socket_read = 0;
  verifier_log = log;
}

-- "a", "R1", "0", each with a newline.
abbrev failure : ValidationResult
failure = result_with false (97 ∷ 10 ∷ 82 ∷ 49 ∷ 10 ∷ 48 ∷ 10 ∷ [])

failure-Report : Report failure
failure-Report =
    failed ((97 ∷ []) ∷ []) (82 ∷ 49 ∷ []) (48 ∷ []) (refl, (refl, (refl, tt))) refl refl

abbrev nothing_counted : MetricsCollection
nothing_counted = record {
  coverage_manager = new_coverage_manager;
  latest_verifier_log = [];
  verifier_verdicts = [];
}

abbrev waiting : List ValidationResult → Metrics
waiting queue = record {
  sampling_threshold = 1;
  kcov_size = 64;
  is_kcov_supported = true;
  validation_result_queue = queue;
  programs_verified = 3;
  valid_programs = 1;
}

-- An addr2line that always fails.
abbrev no_tool : List ℕ → Option (List ℕ)
no_tool text = none

no_tool-Settles : Settles no_tool
unfolding process_coverage_addresses process_output
no_tool-Settles now cov cm =
    Succeeds-branch (length (unknown_addr cm cov) == 0) (λ e. with_value tt) (λ e. with_value tt)

three_reports : Reports (failure ∷ result_with true (97 ∷ []) ∷ failure ∷ [])
three_reports =
    next_report failure-Report (next_report (passed refl) (next_report failure-Report all_reported))

processing_routine-Drained_example : Succeeds (Drained three_reports nothing_counted) (
    processing_routine no_tool
      (1 ∷ 2 ∷ 3 ∷ 4 ∷ [])
      (waiting (failure ∷ result_with true (97 ∷ []) ∷ failure ∷ []), nothing_counted))
processing_routine-Drained_example =
    processing_routine-Drained no_tool no_tool-Settles (1 ∷ 2 ∷ 3 ∷ 4 ∷ []) three_reports
      (waiting (failure ∷ result_with true (97 ∷ []) ∷ failure ∷ [])) nothing_counted refl
      (omega arith)

-- One line without a newline.
short_log : process_verifier_log (result_with false (97 ∷ [])) nothing_counted ≡ panic
unfolding process_verifier_log split
short_log = refl

-- "a" and "b", each with a newline: the verdict would be "a", the second line from the end.
two_lines :
    process_verifier_log (result_with false (97 ∷ 10 ∷ 98 ∷ 10 ∷ [])) nothing_counted
    ≡ ok (record nothing_counted {
      latest_verifier_log = 97 ∷ 10 ∷ 98 ∷ 10 ∷ [];
      verifier_verdicts = (97 ∷ [], 1) ∷ [];
    })
unfolding process_verifier_log count_verdict split assign
two_lines = refl

-- The file "k/v" with two lines.
one_file :
    get_metrics (waiting []) (record nothing_counted {
      coverage_manager = record new_coverage_manager {
        coverage_info_map = (107 ∷ 47 ∷ 118 ∷ [], 12 ∷ 9 ∷ []) ∷ [];
      };
    })
    ≡ (
      3,
      1,
      record { file_name = 118 ∷ []; full_path = 107 ∷ 47 ∷ 118 ∷ []; covered_lines = 12 ∷ 9 ∷ [] }
          ∷ [],
    )
unfolding get_metrics coverage_infos split
one_file = refl

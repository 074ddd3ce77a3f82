-- ===== src/Units/Metrics/Tests.antt =====
-- The metrics at concrete states.
use buzzer.Common.{false, ℕ, ◌+◌, ◌/◌, ◌≡◌, refl, arith, List, [], ◌∷◌, ◌++◌, true}
use buzzer.Common.Run.{ok, panic}
use buzzer.Units.{ValidationResult}
use buzzer.Units.Metrics.{
  should_get_coverage, should_collect_detailed_info, record_verified_program,
}
use buzzer.Units.Metrics.Queue.{Turn, put, take, turns, puts, turns-fifo}
use buzzer.Units.Metrics.Sampling.{watching, sampled, sampled-multiples}

abbrev result : ℕ → ValidationResult
result fd = record {
  is_valid = true;
  program_fd = fd;
  did_collect_coverage = false;
  coverage_address = [];
  socket_write = 0;
  socket_read = 0;
  verifier_log = [];
}

abbrev mixed : List Turn
mixed = take ∷ put (result 1) ∷ put (result 2) ∷ take ∷ put (result 3) ∷ take ∷ []

turns-fifo_example :
    (turns mixed (watching 1 64 [] 0 0)).0
      ++ (turns mixed (watching 1 64 [] 0 0)).1.validation_result_queue
    ≡ [] ++ puts mixed
turns-fifo_example = turns-fifo mixed (watching 1 64 [] 0 0)

sampled-multiples_example :
    (count : ℕ) × (sampled 250 (watching 100 64 [] 0 0) ≡ ok (count, watching 100 64 [] 250 0))
    × (250 / 100 ≡ 0 / 100 + count)
sampled-multiples_example =
    sampled-multiples 100 64 [] 0 (omega arith) (omega arith) 250 0 (omega arith)

-- A threshold of zero divides by zero.
threshold-zero : should_get_coverage (watching 0 64 [] 0 0) ≡ panic
unfolding should_get_coverage should_collect_detailed_info record_verified_program
threshold-zero = refl

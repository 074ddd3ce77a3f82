-- ===== src/Units/Ffi/Validations.antt =====
-- What a validation leaves in the metrics.
use buzzer.Common.{
  ℕ, ◌+◌, ◌%◌, ◌^◌, ◌≡◌, ◌≢◌, refl, arith, List, [], ◌++◌, append-nil, sym, ◌∙◌, Option, none, some,
  keep, Bool, false, Bool-cases, inl, inr, length, ◌==◌,
}
use buzzer.Common.Run.{ok}
use buzzer.Cbpf.Encoding.{Filter}
use buzzer.Common.Words.{to_u64}
use buzzer.Units.{ValidationResult}
use buzzer.Units.Control.{Result, answered, failed}
use buzzer.Units.Metrics.{
  Metrics, should_get_coverage, should_collect_detailed_info, record_verified_program,
  record_verification_results, enqueue_validation_result, magnitude,
}
use buzzer.Units.Ffi.{record_result, validate_cbpf_program}

-- The result of a validation that was answered.
abbrev pub answer : Result ValidationResult → Option ValidationResult
answer (answered r) = some r
answer (failed e) = none

-- One more program is counted, and an answer is queued behind the others.
pub record Recorded (mu mu' : Metrics) (r : Result ValidationResult) : Type 0 where
  pub counted : mu'.programs_verified ≡ (mu.programs_verified + 1) % 2 ^ 64
  pub queued : mu'.validation_result_queue ≡ mu.validation_result_queue ++ keep (answer r) []

record_result-Recorded :
    {K : Type 0} (mu mu' : Metrics) (k : K) (r : Result ValidationResult)
    → mu'.programs_verified ≡ (mu.programs_verified + 1) % 2 ^ 64
    → mu'.validation_result_queue ≡ mu.validation_result_queue
    → let (mu'', k', r') = record_result mu' (k, r) in Recorded mu mu'' r'
unfolding record_result record_verification_results enqueue_validation_result
record_result-Recorded mu mu' k (failed e) c q = record {
  counted = c;
  queued = q ∙ sym (append-nil mu.validation_result_queue);
}
record_result-Recorded mu mu' k (answered r) c q = elim (Bool-cases r.is_valid) [
  | inl valid ↦ simp valid (record { counted = c; queued = rw q refl })
  | inr invalid ↦ simp invalid (record { counted = c; queued = rw q refl })
]

should_get_coverage-ok :
    (mu : Metrics)
    → mu.sampling_threshold ≢ 0
    → (collect : Bool) × (size : ℕ) × (should_get_coverage mu
        ≡ ok (record_verified_program mu, collect, size))
unfolding should_get_coverage should_collect_detailed_info record_verified_program
should_get_coverage-ok mu h =
    let set : (mu.sampling_threshold == 0) ≡ false = ground arith in
    let sampled = magnitude (to_u64 (mu.programs_verified + 1)) % magnitude mu.sampling_threshold in
    elim (Bool-cases mu.is_kcov_supported) [
      | inl yes' ↦ elim (Bool-cases (sampled == 0)) [
        | inl hit ↦ (mu.is_kcov_supported, mu.kcov_size, simp (yes', set, hit) refl)
        | inr miss ↦ (false, 0, simp (yes', set, miss) refl)
      ]
      | inr no' ↦ (false, 0, simp no' refl)
    ]

verified-Recorded :
    {K : Type 0} (mu : Metrics) (k : K) (r : Result ValidationResult)
    → let (mu', k', r') = record_result (record_verified_program mu) (k, r) in Recorded mu mu' r'
unfolding record_verified_program
verified-Recorded mu k r = record_result-Recorded mu (record_verified_program mu) k r refl refl

module _ {K : Type 0} (mu : Metrics) (k : K) (t : mu.sampling_threshold ≢ 0) where
  -- ValidateCbpfProgram does not panic on a program that is not empty where the sampling threshold is not
  -- zero. It counts one more program, and queues the kernel's answer behind the others where there is
  -- one, whatever the kernel does.
  pub validate_cbpf_program-Recorded :
      (load : List Filter → Bool → ℕ → K → K × Result ValidationResult) (p : List Filter)
      → length p ≢ 0
      → (mu' : Metrics) × (k' : K) × (r : Result ValidationResult) × (validate_cbpf_program load p
            mu k
          ≡ ok (mu', k', r))
        × Recorded mu mu' r
  unfolding validate_cbpf_program
  validate_cbpf_program-Recorded load p h =
      let (collect, size, e) = should_get_coverage-ok mu t in
      let full : (length p == 0) ≡ false = ground arith in
      let (k', r) = load p collect size k in
      let (mu'', k'', r') = record_result (record_verified_program mu) (k', r) in
      (mu'', k'', r', rw (full, e) refl, verified-Recorded mu k' r)

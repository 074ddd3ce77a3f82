-- ===== src/Units/Ffi.antt =====
-- pkg/units/ffi.go: the validation of a program. The C call that loads it, which answers with a decoded
-- ValidationResult or an error, is a parameter that changes the kernel's state `K`.
pub mod Validations
pub mod Struct
mod Tests
use buzzer.Common.{ℕ, List, [], ◌∷◌, Bool, if◌then◌else◌, length, ◌==◌}
use buzzer.Common.Run.{Run, ok, empty_program, ◌>>=◌}
use buzzer.Cbpf.Encoding.{Filter}
use buzzer.Units.{ValidationResult, EncodedProgram}
use buzzer.Units.Control.{Result, answered, failed}
use buzzer.Units.Metrics.{Metrics, should_get_coverage, record_verification_results}

module _ {K : Type 0} where
  -- What follows on the answer of the C call.
  unfoldable pub record_result :
      Metrics → K × Result ValidationResult → Metrics × K × Result ValidationResult
  record_result mu (k, failed e) = (mu, k, failed e)
  record_result mu (k, answered r) = (record_verification_results r mu, k, answered r)

  unfoldable pub validate_ebpf_program :
      (EncodedProgram → Bool → ℕ → K → K × Result ValidationResult)
      → EncodedProgram
      → Metrics
      → K
      → Run (Metrics × K × Result ValidationResult)
  validate_ebpf_program load encoded_program mu k =
      if length encoded_program.program == 0
      then ok (mu, k, failed empty_program)
      else (should_get_coverage mu >>= λ (mu', should_collect, coverage_size).
          ok (record_result mu' (load encoded_program should_collect coverage_size k)))

  unfoldable pub validate_cbpf_program :
      (List Filter → Bool → ℕ → K → K × Result ValidationResult)
      → List Filter
      → Metrics
      → K
      → Run (Metrics × K × Result ValidationResult)
  validate_cbpf_program load prog mu k =
      if length prog == 0
      then ok (mu, k, failed empty_program)
      else (should_get_coverage mu >>= λ (mu', should_collect, coverage_size).
          ok (record_result mu' (load prog should_collect coverage_size k)))

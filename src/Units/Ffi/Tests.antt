-- ===== src/Units/Ffi/Tests.antt =====
-- Validations by a kernel that answers each program with the next descriptor.
use buzzer.Common.{ℕ, ◌+◌, ◌≡◌, refl, List, [], ◌∷◌, Bool, true, false}
use buzzer.Common.Run.{ok, empty_program}
use buzzer.Cbpf.Encoding.{Filter}
use buzzer.Units.{ValidationResult, EncodedProgram}
use buzzer.Units.Control.{Result, answered, failed}
use buzzer.Units.Metrics.{Metrics}
use buzzer.Units.Ffi.{validate_ebpf_program}

abbrev answer_with : ℕ → ℕ × Result ValidationResult
answer_with k = (
  k + 1,
  answered (record {
    is_valid = true;
    program_fd = k;
    did_collect_coverage = false;
    coverage_address = [];
    socket_write = 0;
    socket_read = 0;
    verifier_log = [];
  }),
)

abbrev load_ebpf : EncodedProgram → Bool → ℕ → ℕ → ℕ × Result ValidationResult
load_ebpf p collect size k = answer_with k

abbrev load_cbpf : List Filter → Bool → ℕ → ℕ → ℕ × Result ValidationResult
load_cbpf p collect size k = answer_with k

abbrev fresh : Metrics
fresh = record {
  sampling_threshold = 200;
  kcov_size = 64;
  is_kcov_supported = true;
  validation_result_queue = [];
  programs_verified = 0;
  valid_programs = 0;
}

abbrev one_byte : EncodedProgram
one_byte = record { program = 0x95 ∷ []; btf = []; function = [] }

abbrev one_filter : List Filter
one_filter = record { opcode = 6; jt = 0; jf = 0; k = 4 } ∷ []

empty-refused :
    validate_ebpf_program load_ebpf (record { program = []; btf = []; function = [] }) fresh 7
    ≡ ok (fresh, 7, failed empty_program)
unfolding validate_ebpf_program
empty-refused = refl

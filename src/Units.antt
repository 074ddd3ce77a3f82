-- ===== src/Units.antt =====
-- pkg/units: what drives the fuzzer.
pub mod Control
pub mod Metrics
pub mod CoverageManager
pub mod MetricsCollection
pub mod Ffi
use buzzer.Common.{ℕ, Bool, List}

-- ValidationResult of proto/ffi.proto, with the fields that the units read.
pub record ValidationResult : Type 0 where
  pub is_valid : Bool
  pub program_fd : ℕ
  pub did_collect_coverage : Bool
  pub coverage_address : List ℕ
  pub socket_write : ℕ
  pub socket_read : ℕ
  pub verifier_log : List ℕ

-- EncodedProgram of proto/ffi.proto.
pub record EncodedProgram : Type 0 where
  pub program : List ℕ
  pub btf : List ℕ
  pub function : List ℕ

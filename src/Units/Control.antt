-- ===== src/Units/Control.antt =====
-- pkg/units/control.go: the main loop of the fuzzer.
-- The strategy and the FFI are parameters that change a state of their own; every call is noted in a log.
pub mod Log
pub mod Runs
pub mod Loop
mod Tests
use buzzer.Common.{
  ℕ, zero, suc, List, [], ◌∷◌, ◌++◌, Option, none, some, Bool, true, false, not, ◌||◌,
  if◌then◌else◌,
}
use buzzer.Common.Run
use buzzer.Common.Run.{Run, Error, ok, err, panic, nil_strategy}
use buzzer.Cbpf
use buzzer.Cbpf.Encoding.{Filter, encode_cbpf_instructions}
use buzzer.Ebpf.{Program}
use buzzer.Ebpf.Encoding.{encode_instructions}
use buzzer.Units.{ValidationResult, EncodedProgram}

-- A value with a nil error, or an error.
pub data Result (A : Type 0) : Type 0 where
  answered : A → Result A
  failed : Error → Result A

-- The oneof of proto/program.proto.
pub data Generated : Type 0 where
  unset : Generated
  cbpf : List Cbpf.Instruction → Generated
  ebpf : Program → Generated

-- The Strategy interface, on the state `S` of all that is not the control unit; its methods can call the
-- FFI, which is a part of this state too. `X` is an execution result.
pub record Strategy (S X : Type 0) : Type 0 where
  pub generate_program : S → S × Result Generated
  pub on_verify_done : ValidationResult → S → S × Bool
  pub on_execute_done : X → S → S × Bool
  pub on_error : Error → S → S × Bool
  pub is_fuzzing_done : S → Bool

-- The methods of FFI that the control unit calls, and GeneratePoc, which writes a file.
pub record Ffi (S X : Type 0) : Type 0 where
  pub validate_ebpf_program : EncodedProgram → S → S × Result ValidationResult
  pub run_ebpf_program : ℕ → S → S × Result X
  pub validate_cbpf_program : List Filter → S → S × Result ValidationResult
  pub run_cbpf_program : ℕ → ℕ → S → S × Result X
  pub close_fd : ℕ → S → S
  pub generate_poc : Program → S → S

-- The calls, with what they answered. An execution and a verification name the result they are about.
pub data Event : Type 0 where
  generated : Event
  validated : ValidationResult → Event
  invalidated : Error → Event
  verify_done : ValidationResult → Bool → Event
  executed : ValidationResult → Event
  execute_done : Bool → Event
  closed : ℕ → Event
  reported : Error → Bool → Event
  wrote_poc : Event

-- How a part of the loop ends: its state, its log and what it returns, or a panic.
pub data Done (S A : Type 0) : Type 0 where
  done : S → List Event → A → Done S A
  panicked : Done S A

abbrev pub Act : Type 0 → Type 0 → Type 0
Act S A = S → Done S A

abbrev pub give : {S A : Type 0} → A → Act S A
give a s = done s [] a

abbrev pub after : {S A : Type 0} → List Event → Done S A → Done S A
after log (done s log' a) = done s (log ++ log') a
after log panicked = panicked

abbrev pub resume : {S A B : Type 0} → (A → Act S B) → Done S A → Done S B
resume k (done s log a) = after log (k a s)
resume k panicked = panicked

infixl 5 ◌>>=◌
abbrev pub ◌>>=◌ : {S A B : Type 0} → Act S A → (A → Act S B) → Act S B
(m >>= k) s = resume k (m s)

-- The events of a validation and of a call of the verification handler.
abbrev pub validation : Result ValidationResult → Event
validation (answered r) = validated r
validation (failed e) = invalidated e

pub record Control (S X : Type 0) : Type 0 where
  pub strat : Option (Strategy S X)
  pub rdy : Bool

-- Init: the error is nil where the strategy is not.
unfoldable pub init :
    {S X : Type 0} → Option (Strategy S X) → Control S X → Control S X × Option Error
init none cu = (cu, some nil_strategy)
init (some strat) cu = (record cu { strat = some strat; rdy = true }, none)

unfoldable pub is_ready : {S X : Type 0} → Control S X → Bool
is_ready cu = cu.rdy

module _ {S X : Type 0} (strat : Strategy S X) (ffi : Ffi S X) where
  abbrev on_error : Error → Act S Bool
  on_error e s = let (s', go) = strat.on_error e s in done s' (reported e go ∷ []) go

  abbrev on_verify_done : ValidationResult → Act S Bool
  on_verify_done r s = let (s', go) = strat.on_verify_done r s in done s' (verify_done r go ∷ []) go

  abbrev on_execute_done : X → Act S Bool
  on_execute_done x s =
      let (s', fine) = strat.on_execute_done x s in done s' (execute_done fine ∷ []) fine

  abbrev close_fd : ℕ → Act S (Unit {0})
  close_fd fd s = done (ffi.close_fd fd s) (closed fd ∷ []) tt

  abbrev generate_poc : Program → Act S (Unit {0})
  generate_poc prog s = done (ffi.generate_poc prog s) (wrote_poc ∷ []) tt

  abbrev validate_ebpf : EncodedProgram → Act S (Result ValidationResult)
  validate_ebpf p s = let (s', r) = ffi.validate_ebpf_program p s in done s' (validation r ∷ []) r

  abbrev validate_cbpf : List Filter → Act S (Result ValidationResult)
  validate_cbpf p s = let (s', r) = ffi.validate_cbpf_program p s in done s' (validation r ∷ []) r

  abbrev execute_ebpf : ValidationResult → Act S (Result X)
  execute_ebpf r s =
      let (s', x) = ffi.run_ebpf_program r.program_fd s in done s' (executed r ∷ []) x

  abbrev execute_cbpf : ValidationResult → Act S (Result X)
  execute_cbpf r s =
      let (s', x) = ffi.run_cbpf_program r.socket_write r.socket_read s in
      done s' (executed r ∷ []) x

  -- `if !OnError(err) { return err }; return nil`
  abbrev pub report : Error → Act S (Option Error)
  report e = on_error e >>= λ go. give (if go then none else some e)

  -- What follows on the execution result.
  unfoldable pub check_ebpf : Program → Result X → Act S (Option Error)
  check_ebpf prog (failed e) = report e
  check_ebpf prog (answered x) = on_execute_done x >>= λ fine.
      if fine then give none else (generate_poc prog >>= λ _. give none)

  -- What follows on the validation result.
  unfoldable pub verify_ebpf : Program → Result ValidationResult → Act S (Option Error)
  unfolding check_ebpf
  verify_ebpf prog (failed e) = report e
  verify_ebpf prog (answered r) = on_verify_done r >>= λ go.
      if not go || not r.is_valid
      then (close_fd r.program_fd >>= λ _. give none)
      else (execute_ebpf r >>= λ x. close_fd r.program_fd >>= λ _. check_ebpf prog x)

  unfoldable pub validate_and_run : Program → List ℕ × List ℕ → Act S (Option Error)
  unfolding verify_ebpf
  validate_and_run prog (encoded_prog, encoded_func_info) =
      validate_ebpf
        (record { program = encoded_prog; btf = prog.btf; function = encoded_func_info })
      >>= verify_ebpf prog

  -- Where the encoding failed and OnError wants to go on, the loop goes on with a nil program.
  unfoldable pub run_encoded : Program → Run (List ℕ × List ℕ) → Act S (Option Error)
  unfolding validate_and_run
  run_encoded prog (ok encoded) = validate_and_run prog encoded
  run_encoded prog (err e) =
      on_error e >>= λ go. if go then validate_and_run prog ([], []) else give (some e)
  run_encoded prog panic = λ s. panicked

  unfoldable pub run_ebpf : Program → Act S (Option Error)
  unfolding run_encoded
  run_ebpf prog = run_encoded prog (encode_instructions prog)

  unfoldable pub check_cbpf : Result X → Act S (Option Error)
  check_cbpf (failed e) = report e
  check_cbpf (answered x) = on_execute_done x >>= λ fine. give none

  unfoldable pub verify_cbpf : Result ValidationResult → Act S (Option Error)
  unfolding check_cbpf
  verify_cbpf (failed e) = report e
  verify_cbpf (answered r) = on_verify_done r >>= λ go.
      if not go || not r.is_valid
      then (close_fd r.program_fd >>= λ _. give none)
      else (execute_cbpf r >>= check_cbpf)

  unfoldable pub run_cbpf : List Cbpf.Instruction → Act S (Option Error)
  unfolding verify_cbpf
  run_cbpf prog = validate_cbpf (encode_cbpf_instructions prog) >>= verify_cbpf

  -- What a program's run returned: on an error the strategy is asked once more.
  unfoldable pub next : Act S (Option (Option Error)) → Option Error → Act S (Option (Option Error))
  next rest none = rest
  next rest (some e) = on_error e >>= λ go. if go then rest else give (some (some e))

  unfoldable pub run_generated :
      Act S (Option (Option Error)) → Result Generated → Act S (Option (Option Error))
  unfolding next run_cbpf run_ebpf
  run_generated rest (failed e) = next rest (some e)
  run_generated rest (answered unset) = rest
  run_generated rest (answered (cbpf p)) = run_cbpf p >>= next rest
  run_generated rest (answered (ebpf p)) = run_ebpf p >>= next rest

  -- `for !IsFuzzingDone()`, for at most `rounds` rounds: `none` is a loop that has not ended yet.
  unfoldable pub run_fuzzer : ℕ → Act S (Option (Option Error))
  unfolding run_generated
  run_fuzzer zero s = give none s
  run_fuzzer (suc rounds) s =
      let rest = run_fuzzer rounds in
      let (s', g) = strat.generate_program s in
      if strat.is_fuzzing_done s
      then give (some none) s
      else after (generated ∷ []) (run_generated rest g s')

-- ===== src/Units/Control/Tests.antt =====
-- The main loop with a strategy that generates one program and an FFI that takes every program in.
use buzzer.Common.{ℕ, ◌+◌, ◌≡◌, refl, ltb, [], ◌∷◌, none, some, Bool, true, false}
use buzzer.Common.Run.{unknown_opcode_type, nil_strategy}
use buzzer.Ebpf
use buzzer.Ebpf.Encoding.{
  encode_instructions, encode_functions, encode_body, encode_instruction, encode_opcode,
}
use buzzer.Units.{ValidationResult}
use buzzer.Units.Control.{
  answered, ebpf, Strategy, Ffi, generated, reported, done, init, run_fuzzer, run_ebpf, run_cbpf,
  run_generated, next, run_encoded,
}
use buzzer.Units.Control.Log.{Finishes}
use buzzer.Units.Control.Runs.{Orderly, Closed, run_ebpf-Orderly, run_cbpf-Orderly}
use buzzer.Units.Control.Loop.{Loops, run_fuzzer-Loops}

-- One instruction whose opcode is not set.
abbrev blank : Ebpf.Program
blank = record {
  btf = [];
  functions =
      record {
        instructions =
            Ebpf.empty
              (record { opcode = Ebpf.unset; dst_reg = 0; src_reg = 0; offset = 0; immediate = 0 })
            ∷ [];
        func_info = none;
      }
      ∷ [];
}

abbrev once : Strategy ℕ Bool
once = record {
  generate_program = λ s. (s + 1, answered (ebpf blank));
  on_verify_done = λ r s. (s, true);
  on_execute_done = λ x s. (s, x);
  on_error = λ e s. (s, false);
  is_fuzzing_done = λ s. ltb 0 s;
}

abbrev taken : ValidationResult
taken = record {
  is_valid = true;
  program_fd = 7;
  did_collect_coverage = false;
  coverage_address = [];
  socket_write = 8;
  socket_read = 9;
  verifier_log = [];
}

abbrev willing : Ffi ℕ Bool
willing = record {
  validate_ebpf_program = λ p s. (s, answered taken);
  run_ebpf_program = λ fd s. (s, answered true);
  validate_cbpf_program = λ p s. (s, answered taken);
  run_cbpf_program = λ w r s. (s, answered true);
  close_fd = λ fd s. s;
  generate_poc = λ p s. s;
}

run_ebpf-Orderly_example :
    Finishes (λ s l r. Orderly l r × Closed l) (run_ebpf once willing blank 0)
run_ebpf-Orderly_example = run_ebpf-Orderly once willing blank 0

run_cbpf-Orderly_example : Finishes (λ s l r. Orderly l r) (run_cbpf once willing [] 0)
run_cbpf-Orderly_example = run_cbpf-Orderly once willing [] 0

run_fuzzer-Loops_example : Finishes (Loops once 3) (run_fuzzer once willing 3 0)
run_fuzzer-Loops_example = run_fuzzer-Loops once willing 3 0

-- The strategy hears of the encoding error twice.
encoding_error-twice :
    run_fuzzer once willing 3 0
    ≡ done 1
        (generated ∷ reported unknown_opcode_type false ∷ reported unknown_opcode_type false ∷ [])
        (some (some unknown_opcode_type))
unfolding run_fuzzer run_generated run_ebpf run_encoded next encode_instructions encode_functions
    encode_body encode_instruction encode_opcode
encoding_error-twice = refl

init-nil :
    init none (record { strat = some once; rdy = false })
    ≡ (record { strat = some once; rdy = false }, some nil_strategy)
unfolding init
init-nil = refl

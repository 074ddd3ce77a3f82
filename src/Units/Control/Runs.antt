-- ===== src/Units/Control/Runs.antt =====
-- One program's run, and the loop of the fuzzer, for every strategy and every FFI.
use buzzer.Common.{
  ℕ, ◌≡◌, ◌⊎◌, refl, sym, ◌∙◌, List, [], ◌∷◌, Option, true, Bool-cases, inl, inr, keep,
}
use buzzer.Common.Run.{Error, ok, err}
use buzzer.Cbpf
use buzzer.Cbpf.Encoding.{encode_cbpf_instructions}
use buzzer.Ebpf.{Program}
use buzzer.Ebpf.Encoding.{encode_instructions}
use buzzer.Ebpf.Encoding.Programs.{
  functions_set, encode_instructions-set, encode_instructions-unset,
}
use buzzer.Units.{ValidationResult}
use buzzer.Units.Control.{
  Result, answered, failed, Strategy, Ffi, Event, verify_done, executed, closed, reported, report,
  check_ebpf, verify_ebpf, validate_and_run, run_encoded, run_ebpf, check_cbpf, verify_cbpf,
  run_cbpf, validation,
}
use buzzer.Units.Control.Log.{
  pick, opened, released, approved, run, refused, made, Finishes, finishes, Finishes-after,
  Finishes-map,
}

-- What the log of one program shows: no other program is generated, the programs approved are the ones executed, and an error is returned exactly where
-- the strategy refused to go on after it.
pub record Orderly (log : List Event) (returned : Option Error) : Type 0 where
  pub rounds : pick made log ≡ []
  pub runs : pick run log ≡ pick approved log
  pub refusals : pick refused log ≡ keep returned []

-- Every descriptor that was opened is closed, once, in this order.
abbrev pub Closed : List Event → Type 0
Closed log = pick opened log ≡ pick released log

-- A part of a log without programs.
record Quiet (log : List Event) (returned : Option Error) : Type 0 where
  rounds : pick made log ≡ []
  runs : pick run log ≡ []
  approvals : pick approved log ≡ []
  opens : pick opened log ≡ []
  closes : pick released log ≡ []
  refusals : pick refused log ≡ keep returned []

module _ {S X : Type 0} (strat : Strategy S X) (ffi : Ffi S X) where
  report-Quiet : (e : Error) (s : S) → Finishes (λ s l r. Quiet l r) (report strat ffi e s)
  report-Quiet e s = elim (Bool-cases (strat.on_error e s).1) [
    | inl go ↦ rw go (
        finishes (record {
          rounds = refl;
          runs = refl;
          approvals = refl;
          opens = refl;
          closes = refl;
          refusals = refl;
        }))
    | inr halt ↦ rw halt (
        finishes (record {
          rounds = refl;
          runs = refl;
          approvals = refl;
          opens = refl;
          closes = refl;
          refusals = refl;
        }))
  ]

  check_ebpf-Quiet :
      (prog : Program) (x : Result X) (s : S)
      → Finishes (λ s l r. Quiet l r) (check_ebpf strat ffi prog x s)
  unfolding check_ebpf
  check_ebpf-Quiet prog (failed e) s = report-Quiet e s
  check_ebpf-Quiet prog (answered x) s = elim (Bool-cases (strat.on_execute_done x s).1) [
    | inl fine ↦ rw fine (
        finishes (record {
          rounds = refl;
          runs = refl;
          approvals = refl;
          opens = refl;
          closes = refl;
          refusals = refl;
        }))
    | inr bad ↦ rw bad (
        finishes (record {
          rounds = refl;
          runs = refl;
          approvals = refl;
          opens = refl;
          closes = refl;
          refusals = refl;
        }))
  ]

  -- What a validated program's handling adds to the log.
  abbrev Settles : Result ValidationResult → List Event → Option Error → Type 0
  Settles v l r = Orderly (validation v ∷ l) r × Closed (validation v ∷ l)

  verify_ebpf-Settles :
      (prog : Program) (v : Result ValidationResult) (s : S)
      → Finishes (λ s l r. Settles v l r) (verify_ebpf strat ffi prog v s)
  unfolding verify_ebpf
  verify_ebpf-Settles prog (failed e) s = Finishes-map (report-Quiet e s) λ s l r q. (
    record { rounds = q.rounds; runs = q.runs ∙ sym q.approvals; refusals = q.refusals },
    q.opens ∙ sym q.closes,
  )
  verify_ebpf-Settles prog (answered r) s = elim (Bool-cases (strat.on_verify_done r s).1) [
    | inl go ↦ elim (Bool-cases r.is_valid) [
      | inl valid ↦ rw go (
          simp valid (
            Finishes-after (verify_done r true ∷ []) (
              Finishes-after (executed r ∷ []) (
                Finishes-after (closed r.program_fd ∷ []) (
                  Finishes-map (check_ebpf-Quiet prog _ _) λ s l o q. (
                    record {
                      rounds = q.rounds;
                      runs = simp (valid, q.runs, q.approvals) refl;
                      refusals = q.refusals;
                    },
                    simp (q.opens, q.closes) refl,
                  ))))))
      | inr invalid ↦ rw go (
          simp invalid
            (finishes (record { rounds = refl; runs = simp invalid refl; refusals = refl }, refl)))
    ]
    | inr halt ↦ rw halt (finishes (record { rounds = refl; runs = refl; refusals = refl }, refl))
  ]

  validate_and_run-Orderly :
      (prog : Program) (encoded : List ℕ × List ℕ) (s : S)
      → Finishes (λ s l r. Orderly l r × Closed l) (validate_and_run strat ffi prog encoded s)
  unfolding validate_and_run
  validate_and_run-Orderly prog (p, f) s =
      let (s', v) =
        ffi.validate_ebpf_program (record { program = p; btf = prog.btf; function = f }) s in
      Finishes-after (validation v ∷ []) (verify_ebpf-Settles prog v s')

  encode_instructions-cases :
      (prog : Program)
      → ((r : List ℕ × List ℕ) × (encode_instructions prog ≡ ok r))
        ⊎ ((e : Error) × (encode_instructions prog ≡ err e))
  encode_instructions-cases prog = elim (Bool-cases (functions_set prog.functions)) [
    | inl e ↦ let r = encode_instructions-set prog e in inl ((r.0, r.1), r.2)
    | inr e ↦ inr (_, encode_instructions-unset prog e)
  ]

  -- For every strategy and FFI, a run of an eBPF program ends without a panic. The descriptors that the
  -- kernel opened are closed, each once; the program is executed exactly where the kernel finds it valid
  -- and OnVerifyDone approves; and runEbpf returns an error exactly where OnError refused to go on.
  pub run_ebpf-Orderly :
      (prog : Program) (s : S)
      → Finishes (λ s l r. Orderly l r × Closed l) (run_ebpf strat ffi prog s)
  unfolding run_ebpf run_encoded
  run_ebpf-Orderly prog s = elim (encode_instructions-cases prog) [
    | inl (r, e) ↦ rw e (validate_and_run-Orderly prog r s)
    | inr (e, failed') ↦ rw failed' (elim (Bool-cases (strat.on_error e s).1) [
      | inl go ↦ rw go (
          Finishes-after (reported e true ∷ []) (
            Finishes-map (validate_and_run-Orderly prog ([], []) _) λ s l r (o, c).
              (record { rounds = o.rounds; runs = o.runs; refusals = o.refusals }, c)))
      | inr halt ↦ rw halt (finishes (record { rounds = refl; runs = refl; refusals = refl }, refl))
    ])
  ]

  check_cbpf-Quiet :
      (x : Result X) (s : S) → Finishes (λ s l r. Quiet l r) (check_cbpf strat ffi x s)
  unfolding check_cbpf
  check_cbpf-Quiet (failed e) s = report-Quiet e s
  check_cbpf-Quiet (answered x) s = finishes (record {
    rounds = refl;
    runs = refl;
    approvals = refl;
    opens = refl;
    closes = refl;
    refusals = refl;
  })

  verify_cbpf-Orderly :
      (v : Result ValidationResult) (s : S)
      → Finishes (λ s l r. Orderly (validation v ∷ l) r) (verify_cbpf strat ffi v s)
  unfolding verify_cbpf
  verify_cbpf-Orderly (failed e) s = Finishes-map (report-Quiet e s) λ s l r q. record {
    rounds = q.rounds;
    runs = q.runs ∙ sym q.approvals;
    refusals = q.refusals;
  }
  verify_cbpf-Orderly (answered r) s = elim (Bool-cases (strat.on_verify_done r s).1) [
    | inl go ↦ elim (Bool-cases r.is_valid) [
      | inl valid ↦ rw go (
          simp valid (
            Finishes-after (verify_done r true ∷ []) (
              Finishes-after (executed r ∷ []) (
                Finishes-map (check_cbpf-Quiet _ _) λ s l o q. record {
                  rounds = q.rounds;
                  runs = simp (valid, q.runs, q.approvals) refl;
                  refusals = q.refusals;
                }))))
      | inr invalid ↦ rw go (
          simp invalid
            (finishes (record { rounds = refl; runs = simp invalid refl; refusals = refl })))
    ]
    | inr halt ↦ rw halt (finishes (record { rounds = refl; runs = refl; refusals = refl }))
  ]

  -- For every strategy and FFI, a run of a classic BPF program ends without a panic. The program is executed
  -- exactly where the kernel finds it valid and OnVerifyDone approves, and runCbpf returns an error exactly
  -- where OnError refused to go on.
  pub run_cbpf-Orderly :
      (prog : List Cbpf.Instruction) (s : S)
      → Finishes (λ s l r. Orderly l r) (run_cbpf strat ffi prog s)
  unfolding run_cbpf
  run_cbpf-Orderly prog s =
      let (s', v) = ffi.validate_cbpf_program (encode_cbpf_instructions prog) s in
      Finishes-after (validation v ∷ []) (verify_cbpf-Orderly v s')

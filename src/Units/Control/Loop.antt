-- ===== src/Units/Control/Loop.antt =====
-- RunFuzzer: what its log shows, and how it ends.
use buzzer.Common.{
  ℕ, zero, suc, ◌≤◌, ◌≡◌, refl, sym, ap, ◌∙◌, arith, List, [], ◌∷◌, ◌++◌, append_assoc, length,
  Option, none, some, true, false, Bool-cases, inl, inr,
}
use buzzer.Common.Run.{Error}
use buzzer.Units.Control.{
  Result, answered, failed, Generated, unset, cbpf, ebpf, Strategy, Ffi, Event, reported, generated,
  Act, next, run_generated, run_fuzzer, run_cbpf, run_ebpf, ◌>>=◌,
}
use buzzer.Units.Control.Log.{
  pick, pick-append, approved, run, made, Finishes, finishes, Finishes-after, Finishes-map,
  Finishes-resume,
}
use buzzer.Units.Control.Runs.{Orderly, run_ebpf-Orderly, run_cbpf-Orderly}

module _ {S X : Type 0} (strat : Strategy S X) where
  -- A loop that has not ended yet went through all the rounds; one that returned nil found the fuzzing
  -- done; one that returned an error did so because OnError refused to go on after it.
  abbrev pub Ended : ℕ → S → List Event → Option (Option Error) → Type 0
  Ended n s l none = length (pick made l) ≡ n
  Ended n s l (some none) = strat.is_fuzzing_done s ≡ true
  Ended n s l (some (some e)) = (before : List Event) × (l ≡ before ++ reported e false ∷ [])

  -- The programs executed are the ones approved, and there were at most `n` rounds.
  pub record Loops (n : ℕ) (s : S) (l : List Event) (r : Option (Option Error)) : Type 0 where
    pub runs : pick run l ≡ pick approved l
    pub rounds : length (pick made l) ≤ n
    pub ended : Ended n s l r

  Ended-after :
      (n : ℕ) (s : S) (l₀ l : List Event) (r : Option (Option Error))
      → pick made l₀ ≡ []
      → Ended n s l r
      → Ended n s (l₀ ++ l) r
  Ended-after n s l₀ l none m e = rw (pick-append made l₀ l, m) e
  Ended-after n s l₀ l (some none) m e = e
  Ended-after n s l₀ l (some (some x)) m (before, e) =
      (l₀ ++ before, ap (λ t. l₀ ++ t) e ∙ sym (append_assoc l₀ before (reported x false ∷ [])))

  Loops-after :
      (n : ℕ) (s : S) (l₀ l : List Event) (r : Option (Option Error))
      → pick made l₀ ≡ []
      → pick run l₀ ≡ pick approved l₀
      → Loops n s l r
      → Loops n s (l₀ ++ l) r
  Loops-after n s l₀ l r m o p = record {
    runs = rw (pick-append run l₀ l, pick-append approved l₀ l, o, p.runs) refl;
    rounds = rw (pick-append made l₀ l, m) p.rounds;
    ended = Ended-after n s l₀ l r m p.ended;
  }

  Ended-round :
      (n : ℕ) (s : S) (l : List Event) (r : Option (Option Error))
      → Ended n s l r
      → Ended (suc n) s (generated ∷ l) r
  Ended-round n s l none e = ap suc e
  Ended-round n s l (some none) e = e
  Ended-round n s l (some (some x)) (before, e) = (generated ∷ before, ap (λ t. generated ∷ t) e)

  module _ (ffi : Ffi S X) where
    module _ (n : ℕ) (rest : Act S (Option (Option Error)))
        (h : (s : S) → Finishes (Loops n) (rest s)) where
      next-Loops : (r : Option Error) (s : S) → Finishes (Loops n) (next strat ffi rest r s)
      unfolding next
      next-Loops none s = h s
      next-Loops (some e) s = elim (Bool-cases (strat.on_error e s).1) [
        | inl go ↦ rw go (
            Finishes-after (reported e true ∷ []) (
              Finishes-map (h (strat.on_error e s).0)
                λ s l r p. Loops-after n s (reported e true ∷ []) l r refl refl p))
        | inr halt ↦
            rw halt (finishes (record { runs = refl; rounds = omega arith; ended = ([], refl) }))
      ]

      program-Loops :
          (d : Act S (Option Error)) (s : S)
          → Finishes (λ s l r. Orderly l r) (d s)
          → Finishes (Loops n) ((d >>= next strat ffi rest) s)
      program-Loops d s o = Finishes-resume o λ s l r p.
          Finishes-map (next-Loops r s) λ s' l' r' q. Loops-after n s' l l' r' p.rounds p.runs q

      run_generated-Loops :
          (g : Result Generated) (s : S) → Finishes (Loops n) (run_generated strat ffi rest g s)
      unfolding run_generated
      run_generated-Loops (failed e) s = next-Loops (some e) s
      run_generated-Loops (answered unset) s = h s
      run_generated-Loops (answered (cbpf p)) s =
          program-Loops (run_cbpf strat ffi p) s (run_cbpf-Orderly strat ffi p s)
      run_generated-Loops (answered (ebpf p)) s =
          program-Loops (run_ebpf strat ffi p) s
            (Finishes-map (run_ebpf-Orderly strat ffi p s) λ s l r o. o.0)

    -- For every strategy and FFI, RunFuzzer never panics. Over any number of rounds the programs executed
    -- are, in order, the ones that the kernel found valid and the strategy approved. RunFuzzer returns nil
    -- only where the fuzzing is done, and an error only where the last call was OnError refusing to go
    -- on after it; where it has not returned yet, it has generated a program in every round.
    pub run_fuzzer-Loops : (n : ℕ) (s : S) → Finishes (Loops n) (run_fuzzer strat ffi n s)
    unfolding run_fuzzer
    run_fuzzer-Loops zero s = finishes (record { runs = refl; rounds = omega arith; ended = refl })
    run_fuzzer-Loops (suc n) s = elim (Bool-cases (strat.is_fuzzing_done s)) [
      | inl over ↦ rw over (finishes (record { runs = refl; rounds = omega arith; ended = over }))
      | inr more ↦ rw more (
          Finishes-after (generated ∷ []) (
            Finishes-map
              (run_generated-Loops n (run_fuzzer strat ffi n) (run_fuzzer-Loops n)
                (strat.generate_program s).1 (strat.generate_program s).0)
              λ s l r p. record {
                runs = p.runs;
                rounds = omega (arith, p.rounds);
                ended = Ended-round n s l r p.ended;
              }))
    ]

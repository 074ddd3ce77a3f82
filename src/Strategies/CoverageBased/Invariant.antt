-- ===== src/Strategies/CoverageBased/Invariant.antt =====
-- The invariant of the strategy's state, for any queue with the laws, and what OnVerifyDone keeps.
use buzzer.Common.{
  ℕ, ◌+◌, ◌≤◌, ◌<◌, ◌≡◌, refl, sym, arith, inl, inr, Bool, true, false, Bool-cases, if◌then◌else◌,
  ltb, List, [], All, length, append-nil,
}
use buzzer.Ebpf.{Instruction}
use buzzer.Ebpf.Encoding.Format.{IsInstruction}
use buzzer.Rand.Draws.{Gen, Yields, Yields-give, Yields-bind, ◌>>=◌}
use buzzer.Strategies.Container.{CoverageTrace}
use buzzer.Strategies.Targets.{JumpsLand}
use buzzer.Strategies.CoverageBased.{
  PriorityQueue, QueueLaws, CoverageBased, record_coverage, on_verify_done,
}
use buzzer.Strategies.CoverageBased.Coverage.{guard, finger_print}
use buzzer.Strategies.CoverageBased.Default.{default_program-IsDefault}
use buzzer.Strategies.CoverageBased.Generation.{
  new_coverage_based_strategy, put_back, choose_program, Generated,
}
use buzzer.Strategies.CoverageBased.Footer.{IsFuzzed, IsFuzzed-later}
use buzzer.Units.{ValidationResult}

-- A trace that has been taken out at most 25 times and put back.
pub record IsTrace (size count : ℕ) (t : CoverageTrace) : Type 0 where
  pub usage : t.usage_count ≤ 25
  pub fuzzed : IsFuzzed size count t.program

IsTrace-later : (size n m : ℕ) → n ≤ m → (t : CoverageTrace) → IsTrace size n t → IsTrace size m t
IsTrace-later size n m h t k = record {
  usage = k.usage;
  fuzzed = IsFuzzed-later size n m t.program h k.fuzzed;
}

if-both {ℓ κ} :
    {A : Type ℓ} (P : A → Type κ) (b : Bool) (x y : A)
    → P x
    → P y
    → P (if◌then◌else◌ {A = A × Bool} b (x, true) (y, false)).0
if-both P true x y p q = p
if-both P false x y p q = q

guard-both {ℓ κ} :
    {A : Type ℓ} (P : A → Type κ) (v d : Bool) (x y : A) (r : A × Bool)
    → P x
    → P y
    → P r.0
    → P (guard v d x y r).0
guard-both P false d x y r p q h = p
guard-both P true false x y r p q h = q
guard-both P true true x y r p q h = h

module _ {Q : Type 0} (queue : PriorityQueue Q) (vr : ValidationResult) (cv : CoverageBased Q) where
  -- The queue with the last program and the coverage of a result, for the first time, if it was approved.
  abbrev pub queued_after : Bool → Q
  queued_after approved =
      if approved
      then queue.push
          (record {
            program = cv.last_program;
            coverage_signature = finger_print vr;
            coverage_size = length vr.coverage_address;
            usage_count = 0;
          })
          cv.pq
      else cv.pq

  chosen-pq :
      (b : Bool) (x y : CoverageBased Q)
      → x.pq ≡ queued_after true
      → y.pq ≡ queued_after false
      → let r = if◌then◌else◌ {A = CoverageBased Q × Bool} b (x, true) (y, false) in
        r.0.pq ≡ queued_after r.1
  chosen-pq true x y p q = p
  chosen-pq false x y p q = q

  guarded-pq :
      (v d : Bool) (x y : CoverageBased Q) (r : CoverageBased Q × Bool)
      → x.pq ≡ cv.pq
      → y.pq ≡ cv.pq
      → r.0.pq ≡ queued_after r.1
      → (guard v d x y r).0.pq ≡ queued_after (guard v d x y r).1
  guarded-pq false d x y r p q h = p
  guarded-pq true false x y r p q h = q
  guarded-pq true true x y r p q h = h

module _ {Q : Type 0} {queue : PriorityQueue Q} (laws : QueueLaws queue) where
  -- The default program, and the traces in the queue, after `count` programs.
  pub record Ready (default : List Instruction) (count : ℕ) (pq : Q) : Type 0 where
    pub nonempty : 0 < length default
    pub carried : All IsInstruction default
    pub lands : JumpsLand default
    pub queued : laws.Each (IsTrace (length default) count) pq

  abbrev pub IsReady : CoverageBased Q → Type 0
  IsReady cv = Ready cv.default_prog cv.program_count cv.pq

  -- Once a program has been generated.
  abbrev pub IsGenerated : CoverageBased Q → Type 0
  IsGenerated cv = IsReady cv × IsFuzzed (length cv.default_prog) cv.program_count cv.last_program

  pub new_coverage_based_strategy-IsReady : Yields IsReady (new_coverage_based_strategy queue)
  unfolding new_coverage_based_strategy
  new_coverage_based_strategy-IsReady =
      Yields-bind default_program-IsDefault λ prog (size, carried, lands). Yields-give (record {
        nonempty = omega arith;
        carried = carried;
        lands = lands;
        queued = laws.Each-empty _;
      })

  pub Ready-later :
      (default : List Instruction) (n m : ℕ) (pq : Q)
      → n ≤ m
      → Ready default n pq
      → Ready default m pq
  Ready-later default n m pq h r = record {
    nonempty = r.nonempty;
    carried = r.carried;
    lands = r.lands;
    queued = laws.Each-map (IsTrace-later (length default) n m h) pq r.queued;
  }

  default-IsFuzzed :
      (default : List Instruction) (count : ℕ) (pq : Q)
      → Ready default count pq
      → IsFuzzed (length default) count default
  default-IsFuzzed default count pq r = record {
    head = default;
    body = [];
    split = sym (append-nil default);
    head_size = refl;
    head_carried = r.carried;
    head_lands = r.lands;
    body_ok = (tt, tt);
    short = omega arith;
  }

  put_back-Each :
      (size count : ℕ) (t : CoverageTrace) (pq : Q)
      → IsTrace size count t
      → laws.Each (IsTrace size count) pq
      → laws.Each (IsTrace size count) (put_back queue t pq)
  unfolding put_back
  put_back-Each size count t pq h each = elim (Bool-cases (ltb t.usage_count 25)) [
    | inl e ↦ rw e (laws.Each-push (record { usage = ground arith; fuzzed = h.fuzzed }) each)
    | inr e ↦ rw e each
  ]

  -- What comes after a program has been chosen is given a well-formed one.
  pub choose_program-Yields {ℓ} :
      {P : Generated queue → Type ℓ} (count : ℕ) (cv : CoverageBased Q)
      (k : CoverageBased Q × List Instruction → Gen (Generated queue))
      → Ready cv.default_prog count cv.pq
      → ((pq : Q) (prog : List Instruction)
          → Ready cv.default_prog count pq
          → IsFuzzed (length cv.default_prog) count prog
          → Yields P (k (record cv { pq = pq }, prog)))
      → Yields P (choose_program queue cv >>= k)
  unfolding choose_program
  choose_program-Yields count cv k r f = elim (Bool-cases (queue.is_empty cv.pq)) [
    | inl e ↦ rw e (f cv.pq cv.default_prog r (default-IsFuzzed _ _ _ r))
    | inr e ↦
        let (taken, popped, t, each) = laws.Each-pop e r.queued in
        rw (e, popped)
          (f (put_back queue taken.0 taken.1) taken.0.program
            (record {
              nonempty = r.nonempty;
              carried = r.carried;
              lands = r.lands;
              queued = put_back-Each _ _ taken.0 taken.1 t each;
            })
            t.fuzzed)
  ]

  new_trace-IsReady :
      (vr : ValidationResult) (cv : CoverageBased Q) (finger_print : ℕ)
      → IsGenerated cv
      → Ready cv.default_prog cv.program_count (
          queue.push
            (record {
              program = cv.last_program;
              coverage_signature = finger_print;
              coverage_size = length vr.coverage_address;
              usage_count = 0;
            })
            cv.pq)
  new_trace-IsReady vr cv finger_print (r, f) = record {
    nonempty = r.nonempty;
    carried = r.carried;
    lands = r.lands;
    queued = laws.Each-push (record { usage = omega arith; fuzzed = f }) r.queued;
  }

  record_coverage-IsGenerated :
      (vr : ValidationResult) (cv : CoverageBased Q)
      → IsGenerated cv
      → IsGenerated (record_coverage queue vr cv).0
  unfolding record_coverage
  record_coverage-IsGenerated vr cv h =
      if-both IsGenerated _ _ _ (new_trace-IsReady vr cv _ h, h.1) h

  verdict-pq :
      (vr : ValidationResult) (cv : CoverageBased Q)
      → (record_coverage queue vr cv).0.pq
        ≡ queued_after queue vr cv (record_coverage queue vr cv).1
  unfolding record_coverage
  verdict-pq vr cv = chosen-pq queue vr cv _ _ _ refl refl

  kept_invariant :
      (vr : ValidationResult) (cv : CoverageBased Q)
      → IsGenerated cv
      → IsGenerated (on_verify_done queue vr cv).0
  unfolding on_verify_done
  kept_invariant vr cv h = guard-both IsGenerated vr.is_valid vr.did_collect_coverage cv _ _ h h (
      record_coverage-IsGenerated vr
        (record cv { valid_program_count = cv.valid_program_count + 1 }) h)

  on_verify_done-pq :
      (vr : ValidationResult) (cv : CoverageBased Q)
      → (on_verify_done queue vr cv).0.pq ≡ queued_after queue vr cv (on_verify_done queue vr cv).1
  unfolding on_verify_done
  on_verify_done-pq vr cv =
      guarded-pq queue vr cv vr.is_valid vr.did_collect_coverage _ _ _ refl refl
        (verdict-pq vr (record cv { valid_program_count = cv.valid_program_count + 1 }))

  -- OnVerifyDone keeps the invariant of a state with a generated program, whatever the verifier answered. If it
  -- approves, the queue gets the last program with a usage count of 0; if not, the queue stays as it is.
  pub on_verify_done-IsGenerated :
      (vr : ValidationResult) (cv : CoverageBased Q)
      → IsGenerated cv
      → IsGenerated (on_verify_done queue vr cv).0
        × ((on_verify_done queue vr cv).0.pq
            ≡ queued_after queue vr cv (on_verify_done queue vr cv).1)
  on_verify_done-IsGenerated vr cv h = (kept_invariant vr cv h, on_verify_done-pq vr cv)

-- ===== src/Units/MetricsCollection/Reports.antt =====
-- What the verdicts count, for logs as the verifier writes them.
use buzzer.Common.{
  ℕ, ◌+◌, ◌-◌, ◌≡◌, refl, ◌∙◌, arith, List, [], ◌∷◌, ◌++◌, append_assoc, Option, none, some, true,
  false, ltb, ◌==◌, if◌then◌else◌, Bool-cases, inl, inr, length, length-append, get_elem?-middle,
  All,
}
use buzzer.Common.Outcome.{Succeeds, with_value, Succeeds-branch}
use buzzer.Common.Words.{to_u64}
use buzzer.Common.Text.{same_text, same_text_iff, split, contains, unlines, split-unlines}
use buzzer.Common.Maps.{find, find-assigned}
use buzzer.Units.{ValidationResult}
use buzzer.Units.CoverageManager.{newline}
use buzzer.Units.MetricsCollection.{
  MetricsCollection, one_more, count_verdict, third_last, process_verifier_log,
}

-- Without a log, of a valid program, or of an invalid one with its verdict in the second line from the end.
pub data Report (vres : ValidationResult) : Type 0 where
  silent : vres.verifier_log ≡ [] → Report vres
  passed : vres.is_valid ≡ true → Report vres
  failed :
      (before : List (List ℕ)) (verdict totals : List ℕ)
      → All (λ line. contains newline line ≡ false) (before ++ verdict ∷ totals ∷ [])
      → vres.is_valid ≡ false
      → vres.verifier_log ≡ unlines newline (before ++ verdict ∷ totals ∷ [])
      → Report vres

-- Whether a report is counted for a verdict.
abbrev pub counts_for : {vres : ValidationResult} → List ℕ → Report vres → ℕ
counts_for verdict (silent e) = 0
counts_for verdict (passed e) = 0
counts_for verdict (failed before found totals clean e l) = if same_text found verdict then 1 else 0

abbrev count_or_zero : Option ℕ → ℕ
count_or_zero none = 0
count_or_zero (some n) = n

abbrev pub count : MetricsCollection → List ℕ → ℕ
count mc verdict = count_or_zero (find same_text mc.verifier_verdicts verdict)

third_last-append :
    (before : List (List ℕ)) (x y z : List ℕ) → third_last (before ++ x ∷ y ∷ z ∷ []) ≡ some x
third_last-append before x y z =
    let size = length-append before (x ∷ y ∷ z ∷ []) in
    let enough : ltb (length (before ++ x ∷ y ∷ z ∷ [])) 3 ≡ false = ground (arith, size) in
    let place : length (before ++ x ∷ y ∷ z ∷ []) - 3 ≡ length before = omega (arith, size) in
    rw (enough, place) (get_elem?-middle before x (y ∷ z ∷ []))

one_more-count : (o : Option ℕ) → to_u64 (one_more o) ≡ to_u64 (count_or_zero o + 1)
one_more-count none = refl
one_more-count (some n) = omega arith

count-count_verdict :
    (found verdict : List ℕ) (mc : MetricsCollection)
    → to_u64 (count (count_verdict found mc) verdict)
      ≡ to_u64 (count mc verdict + (if same_text found verdict then 1 else 0))
unfolding count_verdict
count-count_verdict found verdict mc =
    let m = mc.verifier_verdicts in
    rw (find-assigned same_text same_text_iff m found (one_more (find same_text m found)) verdict)
      (elim (Bool-cases (same_text found verdict)) [
        | inl e ↦
            rw (e, (same_text_iff found verdict).0 e) (one_more-count (find same_text m verdict))
        | inr e ↦ rw e (omega arith)
      ])

-- What a report changes in the counts.
abbrev pub Counted :
    {vres : ValidationResult} → Report vres → MetricsCollection → MetricsCollection → Type 0
Counted report before after =
    (verdict : List ℕ)
    → to_u64 (count after verdict) ≡ to_u64 (count before verdict + counts_for verdict report)

nonempty_text :
    (before : List (List ℕ)) (x : List ℕ) (xs : List (List ℕ))
    → (length (unlines newline (before ++ x ∷ xs)) == 0) ≡ false
nonempty_text [] x xs = ground (arith, length-append x (newline ∷ unlines newline xs))
nonempty_text (b ∷ before) x xs =
    ground (arith, length-append b (newline ∷ unlines newline (before ++ x ∷ xs)))

pub process_verifier_log-Counted :
    (vres : ValidationResult) (report : Report vres) (mc : MetricsCollection)
    → Succeeds (Counted report mc) (process_verifier_log vres mc)
unfolding process_verifier_log
process_verifier_log-Counted vres (silent e) mc = rw e (with_value (λ verdict. omega arith))
process_verifier_log-Counted vres (passed e) mc =
    Succeeds-branch (length vres.verifier_log == 0) (λ h. with_value (λ verdict. omega arith))
      (λ h. rw e (with_value (λ verdict. omega arith)))
process_verifier_log-Counted vres (failed before found totals clean e l) mc =
    let seen = record mc { latest_verifier_log = vres.verifier_log } in
    let parts =
      split-unlines newline (before ++ found ∷ totals ∷ []) clean
      ∙ append_assoc before (found ∷ totals ∷ []) ([] ∷ []) in
    let third : third_last (split newline vres.verifier_log) ≡ some found =
      rw (l, parts) (third_last-append before found totals []) in
    let some_log : (length vres.verifier_log == 0) ≡ false =
      rw l (nonempty_text before found (totals ∷ [])) in
    rw (some_log, e, third) (with_value (λ verdict. count-count_verdict found verdict seen))

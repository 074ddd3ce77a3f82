-- ===== src/Units/CoverageManager/Output.antt =====
-- The whole output of addr2line, and the loop of ProcessCoverageAddresses over its lines.
use buzzer.Common.{
  ℕ, suc, ◌≡◌, refl, ap, ◌∙◌, sym, arith, List, [], ◌∷◌, ◌++◌, append_assoc, some, true, ◌==◌,
  ==_iff, if◌then◌else◌, Bool-cases, inl, inr, get_elem?-middle, length, length-append,
}
use buzzer.Common.Run.{ok}
use buzzer.Common.Text.{contains, split, split_first}
use buzzer.Common.Maps.{find-assign}
use buzzer.Units.CoverageManager.{
  CoverageManager, cached, newline, record_coverage_line, process_line, process_lines,
}
use buzzer.Units.CoverageManager.Places.{
  Place, IsPlace, place_text, line_of, placed, line_of-no_newline, process_line-placed,
}

module _ (locate : ℕ → Place) (places : (a : ℕ) → IsPlace (locate a)) where
  -- The output of addr2line: the place of each address, each on a line.
  abbrev pub output_of : List ℕ → List ℕ
  output_of [] = []
  output_of (a ∷ addrs) = line_of (locate a) ++ newline ∷ output_of addrs

  abbrev pub lines_of : List ℕ → List (List ℕ)
  lines_of [] = [] ∷ []
  lines_of (a ∷ addrs) = line_of (locate a) ∷ lines_of addrs

  pub split-output_of : (addrs : List ℕ) → split newline (output_of addrs) ≡ lines_of addrs
  unfolding split
  split-output_of [] = refl
  split-output_of (a ∷ addrs) =
      split_first newline (line_of (locate a)) (output_of addrs)
        (line_of-no_newline (locate a) (places a))
      ∙ ap (λ ls. line_of (locate a) ∷ ls) (split-output_of addrs)

  -- The state after the lines of the addresses.
  abbrev pub all_placed : List ℕ → CoverageManager → CoverageManager
  all_placed [] cm = cm
  all_placed (a ∷ addrs) cm = all_placed addrs (placed a (locate a) (places a) cm)

  -- The loop, at the line of the address after those that came before.
  pub process_lines-all_placed :
      (unknown before addrs : List ℕ) (i : ℕ) (cm : CoverageManager)
      → unknown ≡ before ++ addrs
      → i ≡ length before
      → process_lines unknown i (lines_of addrs) cm ≡ ok (all_placed addrs cm, true)
  unfolding process_lines process_line
  process_lines-all_placed unknown before [] i cm e k = refl
  process_lines-all_placed unknown before (a ∷ addrs) i cm e k =
      rw
        (
          process_line-placed (locate a) (places a) unknown i a cm
              (rw (e, k) (get_elem?-middle before a addrs)),
          process_lines-all_placed unknown (before ++ a ∷ []) addrs (suc i)
              (placed a (locate a) (places a) cm) (e ∙ sym (append_assoc before (a ∷ []) addrs))
              (omega (arith, k, length-append before (a ∷ []))),
        )
        refl

  pub all_placed-cached :
      (addrs : List ℕ) (cm : CoverageManager) (j : ℕ)
      → cached (all_placed addrs cm) j
        ≡ (if contains j addrs then some (place_text (locate j)) else cached cm j)
  unfolding record_coverage_line
  all_placed-cached [] cm j = refl
  all_placed-cached (a ∷ addrs) cm j =
      rw
        (
          all_placed-cached addrs (placed a (locate a) (places a) cm) j,
          find-assign cm.coverage_cache a (place_text (locate a)) j,
        )
        (elim (Bool-cases (a == j)) [
          | inl e ↦
              let same : a ≡ j = (==_iff a j).0 e in
              rw (e, same)
                (elim (Bool-cases (contains j addrs)) [ inl c ↦ rw c refl | inr c ↦ rw c refl ])
          | inr e ↦ rw e refl
        ])

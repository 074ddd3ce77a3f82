-- ===== src/Units/CoverageManager.antt =====
-- pkg/units/coverage_manager.go: the lines that coverage addresses stand for, cached. A string is its bytes,
-- a map an association list. The mutex makes each call one step; the function that runs addr2line is a
-- parameter, which may fail, and the time is an argument.
pub mod Places
pub mod Output
pub mod Conversion
mod Tests
use buzzer.Common.{
  ℕ, zero, suc, ◌+◌, ◌-◌, List, [], ◌∷◌, ◌++◌, Option, none, some, Bool, true, false, ltb, ◌==◌,
  if◌then◌else◌, length, get_elem?,
}
use buzzer.Common.Run.{Run, ok, panic, or_panic, ◌>>=◌}
use buzzer.Common.Text.{same_text, split, first_part, last_part, atoi, hex}
use buzzer.Common.Maps.{find, assign}

pub record CoverageManager : Type 0 where
  pub coverage_cache : List (ℕ × List ℕ)
  pub coverage_info_map : List (List ℕ × List ℕ)
  pub coverage_history : List (ℕ × ℕ)
  pub last_max_coverage : ℕ

abbrev pub new_coverage_manager : CoverageManager
new_coverage_manager = record {
  coverage_cache = [];
  coverage_info_map = [];
  coverage_history = [];
  last_max_coverage = 0;
}

abbrev pub cached : CoverageManager → ℕ → Option (List ℕ)
cached cm = find ◌==◌ cm.coverage_cache

-- The bytes of the separators.
abbrev pub newline : ℕ
newline = 10

abbrev pub space : ℕ
space = 32

abbrev pub slash : ℕ
slash = 47

abbrev pub colon : ℕ
colon = 58

abbrev keep_unknown : Option (List ℕ) → ℕ → List ℕ → List ℕ
keep_unknown none address rest = address ∷ rest
keep_unknown (some line) address rest = rest

-- The addresses without a line; one that is given twice is kept twice.
unfoldable pub unknown_addr : CoverageManager → List ℕ → List ℕ
unknown_addr cm [] = []
unknown_addr cm (address ∷ cov) = keep_unknown (cached cm address) address (unknown_addr cm cov)

unfoldable pub record_history : ℕ → ℕ → CoverageManager → CoverageManager
record_history now unknown cm =
    let coverage = unknown + length cm.coverage_cache in
    if ltb cm.last_max_coverage coverage
    then record cm {
      last_max_coverage = coverage;
      coverage_history = assign ◌==◌ cm.coverage_history now coverage;
    }
    else cm

abbrev keep_line : ℕ → Option (List ℕ) → List (ℕ × List ℕ) → List (ℕ × List ℕ)
keep_line addr none rest = rest
keep_line addr (some line) rest = assign ◌==◌ rest addr line

-- convertAddresses
unfoldable pub convert_addresses : CoverageManager → List ℕ → List (ℕ × List ℕ)
convert_addresses cm [] = []
convert_addresses cm (addr ∷ cov) = keep_line addr (cached cm addr) (convert_addresses cm cov)

unfoldable pub input_string : List ℕ → List ℕ
input_string [] = []
input_string (addr ∷ addrs) = hex addr ++ newline ∷ input_string addrs

abbrev extend_lines : Option (List ℕ) → ℕ → List ℕ
extend_lines none line = line ∷ []
extend_lines (some lines) line = lines ++ line ∷ []

unfoldable pub record_coverage_line : List ℕ → ℕ → CoverageManager → CoverageManager
record_coverage_line full_path line cm = record cm {
  coverage_info_map =
      assign same_text cm.coverage_info_map full_path
        (extend_lines (find same_text cm.coverage_info_map full_path) line);
}

-- A line's address gets its place, if the number of the line is one; otherwise the call ends with an error.
unfoldable pub record_place :
    Option ℕ → List ℕ → List ℕ → List ℕ → Option ℕ → CoverageManager → Run (CoverageManager × Bool)
unfolding record_coverage_line
record_place none name number full_path address cm = ok (cm, false)
record_place (some line) name number full_path address cm = do
  addr ← or_panic address
  let cm = record cm {
    coverage_cache = assign ◌==◌ cm.coverage_cache addr (name ++ colon ∷ number);
  }
  ok (record_coverage_line full_path line cm, true)

-- One round of the loop over the lines. The parts of a split are never none.
unfoldable pub process_line : List ℕ → ℕ → List ℕ → CoverageManager → Run (CoverageManager × Bool)
unfolding record_place
process_line unknown i [] cm = ok (cm, true)
process_line unknown i (c ∷ cs) cm =
    let cleaned_line = first_part (split space (c ∷ cs)) in
    let fn_and_ln = split colon (last_part (split slash cleaned_line)) in
    (do
      number ← or_panic (get_elem? fn_and_ln 1)
      record_place (atoi number) (first_part fn_and_ln) number
          (first_part (split colon cleaned_line)) (get_elem? unknown i) cm)

unfoldable pub process_lines :
    List ℕ → ℕ → List (List ℕ) → CoverageManager → Run (CoverageManager × Bool)
process_lines unknown i [] cm = ok (cm, true)
process_lines unknown i (line ∷ lines) cm = process_line unknown i line cm >>= λ (cm, more).
    let rest = process_lines unknown (suc i) lines cm in if more then rest else ok (cm, false)

-- What the call leaves and returns: the lines of the addresses, or an error.
abbrev pub Processed : Type 0
Processed = CoverageManager × Option (List (ℕ × List ℕ))

-- What is done with the output of addr2line.
unfoldable pub process_output : List ℕ → List ℕ → CoverageManager → Option (List ℕ) → Run Processed
process_output cov unknown cm none = ok (cm, none)
process_output cov unknown cm (some out_string) =
    process_lines unknown 0 (split newline out_string) cm >>= λ (cm, done).
    ok (cm, (if done then some (convert_addresses cm cov) else none))

module _ (address_to_line : List ℕ → Option (List ℕ)) where
  unfoldable pub process_coverage_addresses : ℕ → List ℕ → CoverageManager → Run Processed
  unfolding record_history process_output
  process_coverage_addresses now cov cm =
      let unknown = unknown_addr cm cov in
      let cm = record_history now (length unknown) cm in
      if length unknown == 0
      then ok (cm, some (convert_addresses cm cov))
      else process_output cov unknown cm (address_to_line (input_string unknown))

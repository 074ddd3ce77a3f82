-- ===== src/Units/CoverageManager/Tests.antt =====
-- An address that is cached and one that is not, asked for twice; output that is not as expected.
use buzzer.Common.{ℕ, ◌≡◌, refl, List, [], ◌∷◌, Option, none, some, if◌then◌else◌}
use buzzer.Common.Run.{ok, panic}
use buzzer.Common.Outcome.{Succeeds}
use buzzer.Common.Text.{same_text, split, atoi, parse_digits, hex, hex_digits}
use buzzer.Common.Maps.{assign}
use buzzer.Units.CoverageManager.{
  CoverageManager, new_coverage_manager, unknown_addr, record_history, convert_addresses,
  input_string, record_coverage_line, record_place, process_line, process_lines, process_output,
  process_coverage_addresses,
}
use buzzer.Units.CoverageManager.Places.{Place, IsPlace}
use buzzer.Units.CoverageManager.Output.{output_of}
use buzzer.Units.CoverageManager.Conversion.{IsAnswer, process_coverage_addresses-IsAnswer}

-- "k/v.c:12 (x)"
abbrev a_place : Place
a_place = record {
  directory = 107 ∷ [];
  name = 118 ∷ 46 ∷ 99 ∷ [];
  number = 49 ∷ 50 ∷ [];
  remark = some (40 ∷ 120 ∷ 41 ∷ []);
}

a_place-IsPlace : IsPlace a_place
unfolding atoi parse_digits
a_place-IsPlace = record {
  line = 12;
  parsed = refl;
  directory_clean = (refl, refl, refl);
  name_clean = (refl, refl, refl, refl);
  number_clean = (refl, refl, refl, refl);
  remark_clean = refl;
}

-- Address 1 has a line.
abbrev one_known : CoverageManager
one_known = record new_coverage_manager { coverage_cache = (1, 97 ∷ 58 ∷ 55 ∷ []) ∷ [] }

abbrev asked : List ℕ
asked = 2 ∷ 1 ∷ 2 ∷ []

-- addr2line, for the two lines "02".
abbrev answer_two : List ℕ → Option (List ℕ)
answer_two text =
    if same_text text (48 ∷ 50 ∷ 10 ∷ 48 ∷ 50 ∷ 10 ∷ [])
    then some (output_of (λ a. a_place) (λ a. a_place-IsPlace) (2 ∷ 2 ∷ []))
    else none

two_answers :
    answer_two (input_string (unknown_addr one_known asked))
    ≡ some (output_of (λ a. a_place) (λ a. a_place-IsPlace) (unknown_addr one_known asked))
unfolding unknown_addr input_string hex hex_digits
two_answers = refl

process_coverage_addresses-IsAnswer_example :
    Succeeds
      (IsAnswer (λ a. a_place) (λ a. a_place-IsPlace) asked one_known)
      (process_coverage_addresses answer_two 5 asked one_known)
process_coverage_addresses-IsAnswer_example =
    process_coverage_addresses-IsAnswer (λ a. a_place) (λ a. a_place-IsPlace) answer_two 5 asked
      one_known two_answers

-- The address that is given twice counts twice, and its line is recorded twice.
twice :
    process_coverage_addresses answer_two 5 asked one_known
    ≡ ok (
      record {
        coverage_cache = (1, 97 ∷ 58 ∷ 55 ∷ []) ∷ (2, 118 ∷ 46 ∷ 99 ∷ 58 ∷ 49 ∷ 50 ∷ []) ∷ [];
        coverage_info_map = (107 ∷ 47 ∷ 118 ∷ 46 ∷ 99 ∷ [], 12 ∷ 12 ∷ []) ∷ [];
        coverage_history = (5, 3) ∷ [];
        last_max_coverage = 3;
      },
      some ((2, 118 ∷ 46 ∷ 99 ∷ 58 ∷ 49 ∷ 50 ∷ []) ∷ (1, 97 ∷ 58 ∷ 55 ∷ []) ∷ []),
    )
unfolding process_coverage_addresses unknown_addr record_history convert_addresses input_string hex
    hex_digits process_output process_lines process_line record_place record_coverage_line split
    atoi parse_digits assign
twice = refl

-- "k/v" has no colon.
no_colon :
    process_coverage_addresses (λ text. some (107 ∷ 47 ∷ 118 ∷ [])) 5 (2 ∷ []) new_coverage_manager
    ≡ panic
unfolding process_coverage_addresses unknown_addr record_history convert_addresses input_string hex
    hex_digits process_output process_lines process_line record_place record_coverage_line split
    atoi parse_digits assign
no_colon = refl

-- "v:1" twice, for one address.
extra_line :
    process_coverage_addresses
      (λ text. some (118 ∷ 58 ∷ 49 ∷ 10 ∷ 118 ∷ 58 ∷ 49 ∷ []))
      5
      (2 ∷ [])
      new_coverage_manager
    ≡ panic
unfolding process_coverage_addresses unknown_addr record_history convert_addresses input_string hex
    hex_digits process_output process_lines process_line record_place record_coverage_line split
    atoi parse_digits assign
extra_line = refl

-- "v:?", as addr2line prints for a line that it does not know, ends the call.
no_number :
    process_coverage_addresses (λ text. some (118 ∷ 58 ∷ 63 ∷ [])) 5 (2 ∷ []) new_coverage_manager
    ≡ ok (
      record new_coverage_manager { coverage_history = (5, 1) ∷ []; last_max_coverage = 1 },
      none,
    )
unfolding process_coverage_addresses unknown_addr record_history convert_addresses input_string hex
    hex_digits process_output process_lines process_line record_place record_coverage_line split
    atoi parse_digits assign
no_number = refl

abbrev high : ℕ
high = 0xFFFFFFFF81000000

high_digits :
    hex high
    ≡ 102 ∷ 102 ∷ 102 ∷ 102 ∷ 102 ∷ 102 ∷ 102 ∷ 102 ∷ 56 ∷ 49 ∷ 48 ∷ 48 ∷ 48 ∷ 48 ∷ 48 ∷ 48 ∷ []
unfolding hex hex_digits
high_digits = refl

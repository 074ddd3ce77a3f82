-- ===== src/Units/CoverageManager/Places.antt =====
-- A line of addr2line's output, and what the loop of ProcessCoverageAddresses does with it.
use buzzer.Common.{
  ℕ, ◌<◌, ◌≡◌, refl, ap, ◌∙◌, arith, List, [], ◌∷◌, ◌++◌, append_assoc, Option, none, some, true,
  false, ◌==◌, get_elem?, length, length-append, append-nil,
}
use buzzer.Common.Run.{ok, or_panic, ◌>>=◌}
use buzzer.Common.Text.{
  contains, contains-append, split, split_none, split_first, last_part, last_part-split, first_part,
  atoi,
}
use buzzer.Common.Maps.{assign}
use buzzer.Units.CoverageManager.{
  CoverageManager, newline, space, slash, colon, record_coverage_line, record_place, process_line,
}

-- A place in the kernel's sources: a file in a directory, the digits of a line, and perhaps a remark.
pub record Place : Type 0 where
  pub directory : List ℕ
  pub name : List ℕ
  pub number : List ℕ
  pub remark : Option (List ℕ)

abbrev pub full_path : Place → List ℕ
full_path p = p.directory ++ slash ∷ p.name

abbrev pub place_text : Place → List ℕ
place_text p = p.name ++ colon ∷ p.number

abbrev remark_text : Option (List ℕ) → List ℕ
remark_text none = []
remark_text (some s) = space ∷ s

abbrev cleaned : Place → List ℕ
cleaned p = full_path p ++ colon ∷ p.number

-- As addr2line writes it: the path, a colon, the line, and the remark after a space.
abbrev pub line_of : Place → List ℕ
line_of p = cleaned p ++ remark_text p.remark

abbrev NoNewline : Option (List ℕ) → Type 0
NoNewline none = Unit {0}
NoNewline (some s) = contains newline s ≡ false

-- The parts have no separators but the slashes of the directory.
pub record IsPlace (p : Place) : Type 0 where
  pub line : ℕ
  pub parsed : atoi p.number ≡ some line
  pub directory_clean :
      (contains newline p.directory ≡ false)
      × (contains space p.directory ≡ false)
      × (contains colon p.directory ≡ false)
  pub name_clean :
      (contains newline p.name ≡ false)
      × (contains space p.name ≡ false)
      × (contains colon p.name ≡ false)
      × (contains slash p.name ≡ false)
  pub number_clean :
      (contains newline p.number ≡ false)
      × (contains space p.number ≡ false)
      × (contains colon p.number ≡ false)
      × (contains slash p.number ≡ false)
  pub remark_clean : NoNewline p.remark

-- The state with the line of one more address.
abbrev pub placed : ℕ → (p : Place) → IsPlace p → CoverageManager → CoverageManager
placed addr p h cm =
    record_coverage_line (full_path p) h.line
      (record cm { coverage_cache = assign ◌==◌ cm.coverage_cache addr (place_text p) })

module _ (p : Place) (h : IsPlace p) where
  path_clean :
      (sep : ℕ)
      → (sep == slash) ≡ false
      → contains sep p.directory ≡ false
      → contains sep p.name ≡ false
      → contains sep (full_path p) ≡ false
  path_clean sep e d n = contains-append sep p.directory (slash ∷ p.name) d (ground arith)

  cleaned_clean :
      (sep : ℕ)
      → (sep == slash) ≡ false
      → (sep == colon) ≡ false
      → contains sep p.directory ≡ false
      → contains sep p.name ≡ false
      → contains sep p.number ≡ false
      → contains sep (cleaned p) ≡ false
  cleaned_clean sep e f d n k =
      contains-append sep (full_path p) (colon ∷ p.number) (path_clean sep e d n) (ground arith)

  space_clean : contains space (cleaned p) ≡ false
  space_clean = cleaned_clean space refl refl h.directory_clean.1 h.name_clean.1 h.number_clean.1

  remark_newline : (o : Option (List ℕ)) → NoNewline o → contains newline (remark_text o) ≡ false
  remark_newline none k = refl
  remark_newline (some s) k = k

  remark_split :
      (o : Option (List ℕ)) → first_part (split space (cleaned p ++ remark_text o)) ≡ cleaned p
  remark_split none = rw (append-nil (cleaned p), split_none space (cleaned p) space_clean) refl
  remark_split (some s) = rw (split_first space (cleaned p) s space_clean) refl

  pub line_of-no_newline : contains newline (line_of p) ≡ false
  line_of-no_newline =
      contains-append newline (cleaned p) (remark_text p.remark)
        (cleaned_clean newline refl refl h.directory_clean.0 h.name_clean.0 h.number_clean.0)
        (remark_newline p.remark h.remark_clean)

  last_split : last_part (split slash (cleaned p)) ≡ place_text p
  last_split = rw (append_assoc p.directory (slash ∷ p.name) (colon ∷ p.number)) (
      last_part-split slash p.directory (place_text p)
        (contains-append slash p.name (colon ∷ p.number) h.name_clean.3 h.number_clean.3))

  text_split : split colon (place_text p) ≡ p.name ∷ p.number ∷ []
  text_split =
      split_first colon p.name p.number h.name_clean.2
      ∙ ap (λ parts. p.name ∷ parts) (split_none colon p.number h.number_clean.2)

  path_split : first_part (split colon (cleaned p)) ≡ full_path p
  path_split = ap first_part (
      split_first colon (full_path p) p.number
        (path_clean colon refl h.directory_clean.2 h.name_clean.2))

  nonempty_line :
      (unknown : List ℕ) (i : ℕ) (line : List ℕ) (cm : CoverageManager)
      → 0 < length line
      → process_line unknown i line cm ≡ (
          let cleaned_line = first_part (split space line) in
          let fn_and_ln = split colon (last_part (split slash cleaned_line)) in
          or_panic (get_elem? fn_and_ln 1) >>= λ number.
          record_place
            (atoi number)
            (first_part fn_and_ln)
            number
            (first_part (split colon cleaned_line))
            (get_elem? unknown i)
            cm)
  unfolding process_line
  nonempty_line unknown i [] cm k = absurd (omega arith)
  nonempty_line unknown i (c ∷ cs) cm k = refl

  -- The loop caches the file and the line of an address, and records the line for the file.
  pub process_line-placed :
      (unknown : List ℕ) (i addr : ℕ) (cm : CoverageManager)
      → get_elem? unknown i ≡ some addr
      → process_line unknown i (line_of p) cm ≡ ok (placed addr p h cm, true)
  unfolding record_place
  process_line-placed unknown i addr cm e =
      nonempty_line unknown i (line_of p) cm (
        omega (
          arith,
          length-append (cleaned p) (remark_text p.remark),
          length-append (full_path p) (colon ∷ p.number),
        ))
      ∙ rw (remark_split p.remark, last_split, text_split, path_split, h.parsed, e) refl

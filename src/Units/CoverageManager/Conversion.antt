-- ===== src/Units/CoverageManager/Conversion.antt =====
-- ProcessCoverageAddresses, where addr2line answers with a line for each address.
use buzzer.Common.{
  ℕ, ◌+◌, ◌≡◌, refl, ap, ◌∙◌, sym, arith, List, [], ◌∷◌, Option, none, some, Bool, true, false,
  ◌==◌, ==_iff, if◌then◌else◌, Bool-cases, Option-cases, inl, inr, length, ltb,
}
use buzzer.Common.Outcome.{Succeeds, with_value, Succeeds-branch}
use buzzer.Common.Text.{contains}
use buzzer.Common.Maps.{find, find-assign}
use buzzer.Units.CoverageManager.{
  CoverageManager, cached, unknown_addr, record_history, convert_addresses, input_string, Processed,
  process_output, process_coverage_addresses,
}
use buzzer.Units.CoverageManager.Places.{Place, IsPlace, place_text}
use buzzer.Units.CoverageManager.Output.{
  output_of, split-output_of, all_placed, process_lines-all_placed, all_placed-cached,
}

-- What is cached for the one of two equal addresses is cached for the other.
cached-equal :
    (cm : CoverageManager) (a j : ℕ) {o : Option (List ℕ)}
    → (a == j) ≡ true
    → cached cm a ≡ o
    → cached cm j ≡ o
cached-equal cm a j e h = ap (cached cm) (sym ((==_iff a j).0 e)) ∙ h

if_same : (c : Bool) (o : Option (List ℕ)) → (if c then o else o) ≡ o
if_same true o = refl
if_same false o = refl

find-convert_addresses :
    (cm : CoverageManager) (cov : List ℕ) (j : ℕ)
    → find ◌==◌ (convert_addresses cm cov) j ≡ (if contains j cov then cached cm j else none)
unfolding convert_addresses
find-convert_addresses cm [] j = refl
find-convert_addresses cm (a ∷ cov) j = elim (Option-cases (cached cm a)) [
  | inl e ↦
      rw (e, find-convert_addresses cm cov j)
        (elim (Bool-cases (a == j)) [
          | inl d ↦ rw (d, cached-equal cm a j d e) (if_same (contains j cov) none)
          | inr d ↦ rw d refl
        ])
  | inr (l, e) ↦
      rw (e, find-assign (convert_addresses cm cov) a l j, find-convert_addresses cm cov j)
        (elim (Bool-cases (a == j)) [
          | inl d ↦ rw (d, cached-equal cm a j d e) refl
          | inr d ↦ rw d refl
        ])
]

contains-unknown_addr :
    (cm : CoverageManager) (cov : List ℕ) (j : ℕ)
    → cached cm j ≡ none
    → contains j (unknown_addr cm cov) ≡ contains j cov
unfolding unknown_addr
contains-unknown_addr cm [] j h = refl
contains-unknown_addr cm (a ∷ cov) j h = elim (Option-cases (cached cm a)) [
  | inl e ↦ rw (e, contains-unknown_addr cm cov j h) refl
  | inr (l, e) ↦
      rw (e, contains-unknown_addr cm cov j h)
        (elim (Bool-cases (a == j)) [
          | inl d ↦ let clash : none ≡ some l = sym h ∙ cached-equal cm a j d e in cc
          | inr d ↦ rw d refl
        ])
]

known-unknown_addr :
    (cm : CoverageManager) (cov : List ℕ) (j : ℕ) (l : List ℕ)
    → cached cm j ≡ some l
    → contains j (unknown_addr cm cov) ≡ false
unfolding unknown_addr
known-unknown_addr cm [] j l h = refl
known-unknown_addr cm (a ∷ cov) j l h = elim (Option-cases (cached cm a)) [
  | inl e ↦
      rw (e, known-unknown_addr cm cov j l h)
        (elim (Bool-cases (a == j)) [
          | inl d ↦ let clash : none ≡ some l = sym (cached-equal cm a j d e) ∙ h in cc
          | inr d ↦ rw d refl
        ])
  | inr (l, e) ↦ rw (e, known-unknown_addr cm cov j _ h) refl
]

-- The history and the largest coverage are apart from the cache.
record_history-cache :
    (now unknown : ℕ) (cm : CoverageManager)
    → (record_history now unknown cm).coverage_cache ≡ cm.coverage_cache
unfolding record_history
record_history-cache now unknown cm =
    elim (Bool-cases (ltb cm.last_max_coverage (unknown + length cm.coverage_cache))) [
      | inl e ↦ rw e refl
      | inr e ↦ rw e refl
    ]

abbrev line_or : List ℕ → Option (List ℕ) → List ℕ
line_or found none = found
line_or found (some line) = line

no_unknown : (us : List ℕ) → (length us == 0) ≡ true → us ≡ []
no_unknown [] e = refl
no_unknown (u ∷ us) e = absurd (ground arith)

module _ (locate : ℕ → Place) (places : (a : ℕ) → IsPlace (locate a)) where
  -- The line of an address: the one that is cached, or the place that addr2line finds.
  abbrev pub line_for : CoverageManager → ℕ → List ℕ
  line_for cm a = line_or (place_text (locate a)) (cached cm a)

  -- The answer has the line of each address that was asked for and of no other, and the cache keeps the lines it
  -- had and has those of the addresses.
  abbrev pub IsAnswer : List ℕ → CoverageManager → Processed → Type 0
  IsAnswer cov before (after, lines) =
      ((j : ℕ)
        → cached after j ≡ (if contains j cov then some (line_for before j) else cached before j))
      × ((answer : List (ℕ × List ℕ)) × (lines ≡ some answer)
          × ((j : ℕ)
              → find ◌==◌ answer j ≡ (if contains j cov then some (line_for before j) else none)))

  -- The cache after the addresses without a line have theirs.
  cached-unknown_addr :
      (cm : CoverageManager) (cov : List ℕ) (now unknown j : ℕ)
      → cached (all_placed locate places (unknown_addr cm cov) (record_history now unknown cm)) j
        ≡ (if contains j cov then some (line_for cm j) else cached cm j)
  cached-unknown_addr cm cov now unknown j =
      let after = record_history now unknown cm in
      let addrs = unknown_addr cm cov in
      rw (all_placed-cached locate places addrs after j, record_history-cache now unknown cm)
        (elim (Option-cases (cached cm j)) [
          | inl e ↦ rw (e, contains-unknown_addr cm cov j e) refl
          | inr (l, e) ↦
              rw (e, known-unknown_addr cm cov j l e) (sym (if_same (contains j cov) (some l)))
        ])

  IsAnswer-convert_addresses :
      (cov : List ℕ) (before after : CoverageManager)
      → ((j : ℕ)
          → cached after j ≡ (if contains j cov then some (line_for before j) else cached before j))
      → IsAnswer cov before (after, some (convert_addresses after cov))
  IsAnswer-convert_addresses cov before after h = (
    h,
    (
      convert_addresses after cov,
      refl,
      λ j.
          rw (find-convert_addresses after cov j, h j)
            (elim (Bool-cases (contains j cov)) [ inl c ↦ rw c refl | inr c ↦ rw c refl ]),
    ),
  )

  module _ (address_to_line : List ℕ → Option (List ℕ)) (now : ℕ) (cov : List ℕ)
      (cm : CoverageManager)
      (answers : address_to_line (input_string (unknown_addr cm cov))
        ≡ some (output_of locate places (unknown_addr cm cov))) where
    -- Where every place that `locate` gives is well formed and addr2line answers with the line of each address that is
    -- not cached, in order: ProcessCoverageAddresses ends without a panic or an error, and what it leaves and
    -- returns is an answer. The lines it returns are those of the addresses it is given, each the one that was cached
    -- or, where none was, the file and number of its place, and there is no line of another address. The cache holds
    -- the same lines for them, and is as before for every other address.
    pub process_coverage_addresses-IsAnswer :
        Succeeds (IsAnswer cov cm) (process_coverage_addresses address_to_line now cov cm)
    unfolding process_coverage_addresses process_output
    process_coverage_addresses-IsAnswer =
        let unknown = unknown_addr cm cov in
        let start = record_history now (length unknown) cm in
        Succeeds-branch (length unknown == 0)
          (λ e. with_value (
            IsAnswer-convert_addresses cov cm start (λ j.
              ap (λ us. cached (all_placed locate places us start) j) (sym (no_unknown unknown e))
              ∙ cached-unknown_addr cm cov now (length unknown) j)))
          (λ e.
            rw
              (
                answers,
                split-output_of locate places unknown,
                process_lines-all_placed locate places unknown [] unknown 0 start refl refl,
              )
              (with_value (
                IsAnswer-convert_addresses cov cm (all_placed locate places unknown start)
                  (cached-unknown_addr cm cov now (length unknown)))))

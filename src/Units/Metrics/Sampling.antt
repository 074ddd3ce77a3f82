-- ===== src/Units/Metrics/Sampling.antt =====
-- How often ShouldGetCoverage asks for coverage.
use buzzer.Common.{
  ℕ, zero, suc, ◌+◌, ◌*◌, ◌/◌, ◌%◌, ◌^◌, ◌<◌, ◌≡◌, refl, ap, ◌∙◌, arith, Bool, true, false,
  Bool-cases, inl, inr, ◌⊎◌, List, ◌==◌, if◌then◌else◌,
}
use buzzer.Common.Run.{Run, ok, ◌>>=◌}
use native.Mathlib.Nat.{
  mod-lt, mod-add-div', mul-add-div_right, mul-add-mod_self_right, div-eq_of_lt, mod-eq_of_lt,
  div_self, mod_self,
}
use buzzer.Units.{ValidationResult}
use buzzer.Units.Metrics.{
  Metrics, magnitude, should_collect_detailed_info, record_verified_program, should_get_coverage,
}

abbrev hit : Bool → ℕ
hit b = if b then 1 else 0

wraps : (r t : ℕ) → r < t → suc r / t ≡ hit (suc r % t == 0)
wraps r t h = elim (compare_suc r t h) [
  | inl e ↦ rw (e, div_self {n = t} (omega arith), mod_self t) refl
  | inr l ↦
      let other : (suc r == 0) ≡ false = ground arith in
      rw (div-eq_of_lt l, mod-eq_of_lt l, other) refl
]
  where
    compare_suc : (r t : ℕ) → r < t → (suc r ≡ t) ⊎ (suc r < t)
    compare_suc r t h = omega arith

-- The quotient goes up by one where the remainder comes back to zero.
succ-div : (p t : ℕ) → 0 < t → suc p / t ≡ p / t + hit (suc p % t == 0)
succ-div p t h =
    let q = p / t in
    let r = p % t in
    let small : r < t = mod-lt p h in
    let split : suc p ≡ q * t + suc r = omega (arith, mod-add-div' p t) in
    rw (split, mul-add-div_right h q (suc r), mul-add-mod_self_right q t (suc r))
      (ap (λ x. q + x) (wraps r t small))

-- The number of times, in `n` calls in a row, that coverage is wanted.
unfoldable pub sampled : ℕ → Metrics → Run (ℕ × Metrics)
sampled zero mu = ok (0, mu)
sampled (suc n) mu = should_get_coverage mu >>= λ (mu', collect, size).
    sampled n mu' >>= λ (count, mu''). ok (hit collect + count, mu'')

-- A state in which kcov is supported.
abbrev pub watching : ℕ → ℕ → List ValidationResult → ℕ → ℕ → Metrics
watching threshold size queue verified valid = record {
  sampling_threshold = threshold;
  kcov_size = size;
  is_kcov_supported = true;
  validation_result_queue = queue;
  programs_verified = verified;
  valid_programs = valid;
}

module _ (t k : ℕ) (queue : List ValidationResult) (valid : ℕ) (h : 0 < t) (w : t < 2 ^ 63) where
  should_get_coverage-watching :
      (p : ℕ)
      → p + 1 < 2 ^ 63
      → should_get_coverage (watching t k queue p valid)
        ≡ ok (watching t k queue (suc p) valid, (suc p % t == 0), (if suc p % t == 0 then k else 0))
  unfolding should_get_coverage should_collect_detailed_info record_verified_program
  should_get_coverage-watching p l =
      let set : (t == 0) ≡ false = ground arith in
      let next : (p + 1) % 2 ^ 64 ≡ suc p = omega arith in
      let size : magnitude t ≡ t = ground arith in
      let size' : magnitude (suc p) ≡ suc p = ground arith in
      rw (set, next, size, size')
        (elim (Bool-cases (suc p % t == 0)) [ inl e ↦ rw e refl | inr e ↦ rw e refl ])

  -- Of `n` calls of ShouldGetCoverage in a row, none panics, and the ones that ask for coverage are as
  -- many as there are multiples of the threshold among the counts of programs that they reach. This
  -- holds where kcov is supported, for every positive threshold, while the count stays an int.
  pub sampled-multiples :
      (n p : ℕ)
      → p + n < 2 ^ 63
      → (count : ℕ) × (sampled n (watching t k queue p valid)
          ≡ ok (count, watching t k queue (p + n) valid))
        × ((p + n) / t ≡ p / t + count)
  unfolding sampled
  sampled-multiples zero p l =
      let same : p + 0 ≡ p = omega arith in (0, rw same refl, rw same (omega arith))
  sampled-multiples (suc n) p l =
      let (count, e, d) = sampled-multiples n (suc p) (omega arith) in
      let later : p + suc n ≡ suc p + n = omega arith in
      (
        hit (suc p % t == 0) + count,
        rw (should_get_coverage-watching p (omega arith), e, later) refl,
        rw later (d ∙ omega (arith, succ-div p t h)),
      )

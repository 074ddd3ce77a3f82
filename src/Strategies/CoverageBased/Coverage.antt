-- ===== src/Strategies/CoverageBased/Coverage.antt =====
-- When OnVerifyDone queues a program.
use buzzer.Common.{
  ℕ, ◌≡◌, refl, ap, ◌∙◌, List, [], ◌∷◌, Bool, true, false, not, ◌&&◌, ◌||◌, if◌then◌else◌, ◌+◌,
}
use buzzer.Units.{ValidationResult}
use buzzer.Strategies.CoverageBased.{
  PriorityQueue, CoverageBased, has, record_addresses, finger_print_from, record_coverage,
  on_verify_done,
}
use buzzer.Strategies.CoverageBased.Tables.{
  has_all, record_addresses-has_all, record_addresses-flag, has-recorded, has_all-keeps, has-keeps,
}

-- The fingerprint of a result's coverage.
abbrev pub finger_print : ValidationResult → ℕ
finger_print vr = finger_print_from 0 vr.coverage_address

-- Some address or the fingerprint has not been seen before.
abbrev pub is_new : {Q : Type 0} → ValidationResult → CoverageBased Q → Bool
is_new vr cv =
    not (has_all cv.coverage_hash_table vr.coverage_address)
    || not (has cv.fingerprint_hash_table (finger_print vr))

verdict {ℓ} :
    {A : Type ℓ} (b : Bool) (x y : A) → (if◌then◌else◌ {A = A × Bool} b (x, true) (y, false)).1 ≡ b
verdict true x y = refl
verdict false x y = refl

either {ℓ κ} :
    {A : Type ℓ} {B : Type κ} (f : A → B) (b : Bool) (x y : A) (z : B)
    → f x ≡ z
    → f y ≡ z
    → f (if◌then◌else◌ {A = A × Bool} b (x, true) (y, false)).0 ≡ z
either f true x y z p q = p
either f false x y z p q = q

-- The two guards of OnVerifyDone, and what it answers behind them.
abbrev pub guard {ℓ} : {A : Type ℓ} → Bool → Bool → A → A → A × Bool → A × Bool
guard v d x y r = if not v then (x, false) else if not d then (y, false) else r

guard-verdict {ℓ} :
    {A : Type ℓ} (v d : Bool) (x y : A) (r : A × Bool) → (guard v d x y r).1 ≡ (v && d && r.1)
guard-verdict true true x y r = refl
guard-verdict true false x y r = refl
guard-verdict false d x y r = refl

guard-again {ℓ} :
    {A : Type ℓ} (f : A → Bool) (v d : Bool) (x y : A) (r : A × Bool)
    → f r.0 ≡ false
    → (v && d && f (guard v d x y r).0) ≡ false
guard-again f true true x y r e = e
guard-again f true false x y r e = refl
guard-again f false d x y r e = refl

not-both : (a b : Bool) → (not a || not b) ≡ false → (a ≡ true) × (b ≡ true)
not-both true true e = (refl, refl)
not-both true false e = cc
not-both false b e = cc

neither : {a b : Bool} → a ≡ true → b ≡ true → (not a || not b) ≡ false
neither e d = rw (e, d) refl

guard-keeps {ℓ} :
    {A : Type ℓ} (f : A → Bool) (v d : Bool) (x y : A) (r : A × Bool)
    → f x ≡ false
    → f y ≡ false
    → f r.0 ≡ false
    → f (guard v d x y r).0 ≡ false
guard-keeps f true true x y r p q e = e
guard-keeps f true false x y r p q e = q
guard-keeps f false d x y r p q e = p

and-keeps :
    (v d a b : Bool) → (a ≡ false → b ≡ false) → (v && d && a) ≡ false → (v && d && b) ≡ false
and-keeps true true a b f e = f e
and-keeps true false a b f e = refl
and-keeps false d a b f e = refl

module _ {Q : Type 0} (queue : PriorityQueue Q) where
  abbrev counted : CoverageBased Q → CoverageBased Q
  counted cv = record cv { valid_program_count = cv.valid_program_count + 1 }

  record_coverage-verdict :
      (vr : ValidationResult) (cv : CoverageBased Q)
      → (record_coverage queue vr cv).1 ≡ is_new vr cv
  unfolding record_coverage
  record_coverage-verdict vr cv =
      verdict _ _ _
      ∙ ap (λ t. t || not (has cv.fingerprint_hash_table (finger_print vr)))
          (record_addresses-flag vr.coverage_address cv.coverage_hash_table false)

  record_coverage-tables :
      (vr : ValidationResult) (cv : CoverageBased Q)
      → is_new vr (record_coverage queue vr cv).0 ≡ false
  unfolding record_coverage
  record_coverage-tables vr cv = either (is_new vr) _ _ _ false known known
    where
      known :
          (not (
              has_all
                (record_addresses vr.coverage_address cv.coverage_hash_table false).0
                vr.coverage_address)
            || not (
                has
                  (if not (has cv.fingerprint_hash_table (finger_print vr))
                    then finger_print vr ∷ cv.fingerprint_hash_table
                    else cv.fingerprint_hash_table)
                  (finger_print vr)))
          ≡ false
      known =
          rw
            (
              record_addresses-has_all vr.coverage_address cv.coverage_hash_table false,
              has-recorded (finger_print vr) cv.fingerprint_hash_table,
            )
            refl

  -- OnVerifyDone approves a program exactly where it is valid, its coverage was collected, and an address
  -- of it or its fingerprint has not been seen before.
  pub on_verify_done-verdict :
      (vr : ValidationResult) (cv : CoverageBased Q)
      → (on_verify_done queue vr cv).1 ≡ (vr.is_valid && vr.did_collect_coverage && is_new vr cv)
  unfolding on_verify_done
  on_verify_done-verdict vr cv =
      guard-verdict vr.is_valid vr.did_collect_coverage cv (counted cv)
        (record_coverage queue vr (counted cv))
      ∙ ap (λ b. vr.is_valid && vr.did_collect_coverage && b)
          (record_coverage-verdict vr (counted cv))

  -- Coverage that is known stays known.
  record_coverage-keeps :
      (vr other : ValidationResult) (cv : CoverageBased Q)
      → is_new vr cv ≡ false
      → is_new vr (record_coverage queue other cv).0 ≡ false
  unfolding record_coverage
  record_coverage-keeps vr other cv e =
      let (addresses, print) =
        not-both (has_all cv.coverage_hash_table vr.coverage_address)
          (has cv.fingerprint_hash_table (finger_print vr)) e in
      let known =
        neither
          (has_all-keeps vr.coverage_address other.coverage_address cv.coverage_hash_table false
            addresses)
          (has-keeps (finger_print other) (finger_print vr) cv.fingerprint_hash_table print) in
      either (is_new vr) _ _ _ false known known

  on_verify_done-keeps :
      (vr other : ValidationResult) (cv : CoverageBased Q)
      → is_new vr cv ≡ false
      → is_new vr (on_verify_done queue other cv).0 ≡ false
  unfolding on_verify_done
  on_verify_done-keeps vr other cv e =
      guard-keeps (is_new vr) other.is_valid other.did_collect_coverage cv (counted cv) _ e e
        (record_coverage-keeps vr other (counted cv) e)

  -- The state after OnVerifyDone has been given results in turn.
  abbrev pub after_results : List ValidationResult → CoverageBased Q → CoverageBased Q
  after_results [] cv = cv
  after_results (vr ∷ vrs) cv = after_results vrs (on_verify_done queue vr cv).0

  after_results-keeps :
      (vr : ValidationResult) (between : List ValidationResult) (cv : CoverageBased Q)
      → is_new vr cv ≡ false
      → is_new vr (after_results between cv) ≡ false
  after_results-keeps vr [] cv e = e
  after_results-keeps vr (other ∷ between) cv e =
      after_results-keeps vr between (on_verify_done queue other cv).0
        (on_verify_done-keeps vr other cv e)

  on_verify_done-known :
      (vr : ValidationResult) (cv : CoverageBased Q)
      → (vr.is_valid && vr.did_collect_coverage && is_new vr (on_verify_done queue vr cv).0) ≡ false
  unfolding on_verify_done
  on_verify_done-known vr cv =
      guard-again (is_new vr) vr.is_valid vr.did_collect_coverage cv (counted cv)
        (record_coverage queue vr (counted cv)) (record_coverage-tables vr (counted cv))

  -- A result that OnVerifyDone has been given is not approved when OnVerifyDone is given it again, however many
  -- other results it is given in between, whatever they are and whatever the queue does.
  pub on_verify_done-again :
      (vr : ValidationResult) (between : List ValidationResult) (cv : CoverageBased Q)
      → (on_verify_done queue vr (after_results between (on_verify_done queue vr cv).0)).1 ≡ false
  on_verify_done-again vr between cv =
      let seen = (on_verify_done queue vr cv).0 in
      on_verify_done-verdict vr (after_results between seen)
      ∙ and-keeps vr.is_valid vr.did_collect_coverage (is_new vr seen)
          (is_new vr (after_results between seen)) (after_results-keeps vr between seen)
          (on_verify_done-known vr cv)

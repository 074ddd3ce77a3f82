-- ===== src/Ebpf/Generators/Endings.antt =====
-- The loops of the generators that draw again: they end with the first draw that is accepted, and the
-- number of raw numbers is fuel enough.
use buzzer.Common.{
  ℕ, zero, suc, ◌*◌, ◌%◌, ◌<◌, ◌≡◌, ◌≢◌, ap, arith, List, [], ◌∷◌, ◌++◌, length, length-append, All,
  true, false,
}
use buzzer.Ebpf.AluOp
use buzzer.Ebpf.Generators.{random_jump_op, is_conditional, conditional_op, redraw_neg}
use buzzer.Rand.{rand_range, intn}
use buzzer.Rand.Draws.{drew}

-- The operation that a raw number makes RandomJumpOp return.
abbrev pub jump_op_of : ℕ → ℕ
jump_op_of d = d % 14 * 16

random_jump_op-cons : (d : ℕ) (ds : List ℕ) → random_jump_op (d ∷ ds) ≡ drew (jump_op_of d) ds
unfolding random_jump_op rand_range intn
random_jump_op-cons d ds = ap (λ v. drew v ds) (omega arith)

conditional_op-skips :
    (skipped : List ℕ) (d fuel : ℕ) (ds : List ℕ)
    → All (λ r. is_conditional (jump_op_of r) ≡ false) skipped
    → is_conditional (jump_op_of d) ≡ true
    → length skipped < fuel
    → conditional_op fuel (skipped ++ d ∷ ds) ≡ drew (jump_op_of d) ds
unfolding conditional_op
conditional_op-skips skipped d zero ds s c f = absurd (omega arith)
conditional_op-skips [] d (suc fuel) ds s c f = rw (random_jump_op-cons d ds, c)
conditional_op-skips (r ∷ rs) d (suc fuel) ds (s, ss) c f =
    rw (random_jump_op-cons r (rs ++ d ∷ ds), s)
      (conditional_op-skips rs d fuel ds ss c (omega arith))

-- RandomJmpInstruction's loop returns the first conditional operation that it draws, and uses up the
-- raw numbers to this one: its fuel is enough, whatever the raw numbers are.
pub conditional_op-first :
    (skipped : List ℕ) (d : ℕ) (ds : List ℕ)
    → All (λ r. is_conditional (jump_op_of r) ≡ false) skipped
    → is_conditional (jump_op_of d) ≡ true
    → conditional_op (suc (length (skipped ++ d ∷ ds))) (skipped ++ d ∷ ds) ≡ drew (jump_op_of d) ds
conditional_op-first skipped d ds s c =
    conditional_op-skips skipped d _ ds s c (rw (length-append skipped (d ∷ ds)) (omega arith))

random_alu_op-cons : (d : ℕ) (ds : List ℕ) → rand_range 0 0x0c (d ∷ ds) ≡ drew (d % 13) ds
unfolding rand_range intn
random_alu_op-cons d ds = ap (λ v. drew v ds) (omega arith)

redraw_neg-other : (fuel op : ℕ) (ds : List ℕ) → op ≢ AluOp.neg → redraw_neg fuel op ds ≡ drew op ds
unfolding redraw_neg
redraw_neg-other zero op ds n = ground arith
redraw_neg-other (suc fuel) op ds n = ground arith

redraw_neg-skips :
    (skipped : List ℕ) (d fuel : ℕ) (ds : List ℕ)
    → All (λ r. r % 13 ≡ 8) skipped
    → d % 13 ≢ 8
    → length skipped < fuel
    → redraw_neg fuel AluOp.neg (skipped ++ d ∷ ds) ≡ drew (d % 13 * 16) ds
unfolding redraw_neg
redraw_neg-skips skipped d zero ds s c f = absurd (omega arith)
redraw_neg-skips [] d (suc fuel) ds s c f =
    rw (random_alu_op-cons d ds) (redraw_neg-other fuel (d % 13 * 16) ds (omega arith))
redraw_neg-skips (r ∷ rs) d (suc fuel) ds (s, ss) c f =
    rw (random_alu_op-cons r (rs ++ d ∷ ds), s) (redraw_neg-skips rs d fuel ds ss c (omega arith))

-- The loop of generateRegAluInstruction that draws again for Neg ends with the first raw number that
-- gives another operation: its fuel is enough, whatever the raw numbers are.
pub redraw_neg-first :
    (skipped : List ℕ) (d : ℕ) (ds : List ℕ)
    → All (λ r. r % 13 ≡ 8) skipped
    → d % 13 ≢ 8
    → redraw_neg (length (skipped ++ d ∷ ds)) AluOp.neg (skipped ++ d ∷ ds) ≡ drew (d % 13 * 16) ds
redraw_neg-first skipped d ds s c =
    redraw_neg-skips skipped d _ ds s c (rw (length-append skipped (d ∷ ds)) (omega arith))

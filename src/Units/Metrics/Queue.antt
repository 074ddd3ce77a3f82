-- ===== src/Units/Metrics/Queue.antt =====
-- The order in which the processing routine sees the results.
use buzzer.Common.{
  ◌≡◌, refl, sym, ap, ◌∙◌, arith, List, [], ◌∷◌, ◌++◌, append_assoc, append-nil, false, keep,
  keep-append, length, suc, Bool-cases, inl, inr, ◌==◌,
}
use buzzer.Units.{ValidationResult}
use buzzer.Units.Metrics.{
  Metrics, enqueue_validation_result, dequeue_from, dequeue_validation_result,
  record_verification_results, rest_of,
}

-- One turn of the fuzzer or of the processing routine at the queue.
pub data Turn : Type 0 where
  put : ValidationResult → Turn
  take : Turn

-- The results that a sequence of turns takes out, and the state that it leaves.
unfoldable pub turns : List Turn → Metrics → List ValidationResult × Metrics
turns [] mu = ([], mu)
turns (put vr ∷ ts) mu = turns ts (record_verification_results vr mu)
turns (take ∷ ts) mu =
    let (mu', res) = dequeue_validation_result mu in
    let (taken, mu'') = turns ts mu' in (keep res taken, mu'')

abbrev pub puts : List Turn → List ValidationResult
puts [] = []
puts (put vr ∷ ts) = vr ∷ puts ts
puts (take ∷ ts) = puts ts

pub rest_of-tail : (x : ValidationResult) (xs : List ValidationResult) → rest_of (x ∷ xs) ≡ xs
rest_of-tail x [] = refl
rest_of-tail x (y ∷ xs) =
    let more : (suc (suc (length xs)) == 1) ≡ false = ground arith in rw more refl

record_queue :
    (vr : ValidationResult) (mu : Metrics)
    → (record_verification_results vr mu).validation_result_queue
      ≡ mu.validation_result_queue ++ vr ∷ []
unfolding record_verification_results enqueue_validation_result
record_queue vr mu = elim (Bool-cases vr.is_valid) [
  | inl valid ↦ simp valid refl
  | inr invalid ↦ simp invalid refl
]

dequeue_from-head :
    (mu : Metrics) (queue : List ValidationResult)
    → mu.validation_result_queue ≡ queue
    → let (mu', res) = dequeue_from mu queue in keep res mu'.validation_result_queue ≡ queue
unfolding dequeue_from
dequeue_from-head mu [] e = e
dequeue_from-head mu (res ∷ others) e = ap (λ t. res ∷ t) (rest_of-tail res others)

dequeue-head :
    (mu : Metrics)
    → let (mu', res) = dequeue_validation_result mu in
      keep res mu'.validation_result_queue ≡ mu.validation_result_queue
unfolding dequeue_validation_result
dequeue-head mu = dequeue_from-head mu mu.validation_result_queue refl

-- Whatever the order in which the fuzzer records results and the processing routine takes them: the
-- results taken, followed by the ones still queued, are the ones queued at first followed by the ones
-- recorded, each once and in order.
pub turns-fifo :
    (ts : List Turn) (mu : Metrics)
    → (turns ts mu).0 ++ (turns ts mu).1.validation_result_queue
      ≡ mu.validation_result_queue ++ puts ts
unfolding turns
turns-fifo [] mu = sym (append-nil mu.validation_result_queue)
turns-fifo (put vr ∷ ts) mu =
    turns-fifo ts (record_verification_results vr mu)
    ∙ rw (record_queue vr mu) (append_assoc mu.validation_result_queue (vr ∷ []) (puts ts))
turns-fifo (take ∷ ts) mu =
    let (mu', res) = dequeue_validation_result mu in
    sym (keep-append res (turns ts mu').0 (turns ts mu').1.validation_result_queue)
    ∙ ap (keep res) (turns-fifo ts mu')
    ∙ keep-append res mu'.validation_result_queue (puts ts)
    ∙ ap (λ q. q ++ puts ts) (dequeue-head mu)

-- ===== src/Units/Control/Log.antt =====
-- What a log shows: the descriptors opened and closed, the programs approved and executed, the errors
-- that the strategy refused to go on with; and the rules for a property of a run with its log.
use buzzer.Common.{
  ℕ, ◌≡◌, refl, List, [], ◌∷◌, ◌++◌, Option, none, some, ◌&&◌, if◌then◌else◌, keep, keep-append,
}
use buzzer.Common.Run.{Error}
use buzzer.Units.{ValidationResult}
use buzzer.Units.Control.{
  Event, validated, verify_done, executed, closed, reported, generated, Done, done, Act, after,
  resume,
}

-- The values that `f` finds in the events, in order.
abbrev pub pick {ℓ} : {A : Type ℓ} → (Event → Option A) → List Event → List A
pick f [] = []
pick f (e ∷ es) = keep (f e) (pick f es)

pub pick-append {ℓ} :
    {A : Type ℓ} (f : Event → Option A) (xs ys : List Event)
    → pick f (xs ++ ys) ≡ pick f xs ++ pick f ys
pick-append f [] ys = refl
pick-append f (e ∷ xs) ys = rw (pick-append f xs ys) (keep-append (f e) (pick f xs) (pick f ys))

-- The descriptor of a program that the kernel took in.
abbrev pub opened : Event → Option ℕ
opened (validated r) = some r.program_fd
opened other = none

abbrev pub released : Event → Option ℕ
released (closed fd) = some fd
released other = none

-- The verification that the kernel and the strategy are both content with.
abbrev pub approved : Event → Option ValidationResult
approved (verify_done r go) = if go && r.is_valid then some r else none
approved other = none

abbrev pub run : Event → Option ValidationResult
run (executed r) = some r
run other = none

-- The error after which OnError does not want to go on.
abbrev pub refused : Event → Option Error
refused (reported e go) = if go then none else some e
refused other = none

abbrev pub made : Event → Option (Unit {0})
made generated = some tt
made other = none

-- A run without a panic, whose state, log and value satisfy `P`.
pub data Finishes {S A : Type 0} (P : S → List Event → A → Type 0) : Done S A → Type 0 where
  finishes : {s : S} {log : List Event} {a : A} → P s log a → Finishes P (done s log a)

module _ {S A : Type 0} where
  pub Finishes-after :
      {P : S → List Event → A → Type 0} (log : List Event) {d : Done S A}
      → Finishes (λ s l a. P s (log ++ l) a) d
      → Finishes P (after log d)
  Finishes-after log (finishes p) = finishes p

  pub Finishes-map :
      {P Q : S → List Event → A → Type 0} {d : Done S A}
      → Finishes P d
      → ((s : S) (l : List Event) (a : A) → P s l a → Q s l a)
      → Finishes Q d
  Finishes-map (finishes p) f = finishes (f _ _ _ p)

pub Finishes-resume :
    {S A B : Type 0} {P : S → List Event → A → Type 0} {Q : S → List Event → B → Type 0}
    {d : Done S A} {k : A → Act S B}
    → Finishes P d
    → ((s : S) (l : List Event) (a : A) → P s l a → Finishes (λ s' l' b. Q s' (l ++ l') b) (k a s))
    → Finishes Q (resume k d)
Finishes-resume (finishes p) f = Finishes-after _ (f _ _ _ p)

-- ===== src/Common/Outcome.antt =====
-- Total correctness of a Go call: it ends with a value, which has the property.
use mathlib.Core.Path.{◌≡◌, refl}
use mathlib.Core.Bool.{Bool, true, false}
use buzzer.Common.Tests.{if◌then◌else◌}
use buzzer.Common.Run.{Run, ok, ◌>>=◌}

pub data Succeeds {ℓ κ} {A : Type ℓ} (Post : A → Type κ) : Run A → Type (ℓ ⊔ κ) where
  with_value : {value : A} → Post value → Succeeds Post (ok value)

-- The value, which may be taken out.
pub result {ℓ κ} :
    {A : Type ℓ} {Post : A → Type κ} {call : Run A}
    → Succeeds Post call
    → (value : A) × (call ≡ ok value) × Post value
result (with_value {value} post) = (value, refl, post)

pub Succeeds-map {ℓ κ μ} :
    {A : Type ℓ} {Post : A → Type κ} {Weaker : A → Type μ} {call : Run A}
    → Succeeds Post call
    → ((value : A) → Post value → Weaker value)
    → Succeeds Weaker call
Succeeds-map (with_value {value} post) f = with_value (f value post)

-- A call, and what is done with its value.
pub Succeeds-then {ℓ κ μ ν} :
    {A : Type ℓ} {B : Type κ} {Mid : A → Type μ} {Post : B → Type ν} {call : Run A}
    {next : A → Run B}
    → Succeeds Mid call
    → ((value : A) → Mid value → Succeeds Post (next value))
    → Succeeds Post (call >>= next)
Succeeds-then (with_value {value} mid) f = f value mid

pub Succeeds-branch {ℓ κ} :
    {A : Type ℓ} {Post : A → Type κ} {yes_call no_call : Run A} (test : Bool)
    → (test ≡ true → Succeeds Post yes_call)
    → (test ≡ false → Succeeds Post no_call)
    → Succeeds Post (if test then yes_call else no_call)
Succeeds-branch false f g = g refl
Succeeds-branch true f g = f refl

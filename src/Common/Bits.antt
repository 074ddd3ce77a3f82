-- ===== src/Common/Bits.antt =====
-- The bit operations of the encoders as arithmetic: `|` of a field with one above it, `&` with a mask.
use Prim.Native.Nat.{
  ℕ, zero, suc, ◌+◌, ◌*◌, ◌/◌, ◌%◌, ◌^◌, ◌≤◌, ◌<◌, max, bit_and, bit_or, digits, bit_or-bitwise,
}
use mathlib.Core.Path.{◌≡◌, refl, ap, ◌∙◌, sym}
use mathlib.Core.Bool.{Bool, true, ◌&&◌}
use native.Mathlib.Omega.{arith}
use native.Mathlib.Nat.{pow-suc}
use buzzer.Common.Tests.{◌==◌}

-- `|` adds up digit by digit; the fuel of its definition does not matter once it covers `a`.
abbrev or_digits : ℕ → ℕ → ℕ → ℕ
or_digits fuel a b = digits (λ y. y) max fuel a b

or_digits-zero : (fuel b : ℕ) → or_digits fuel 0 b ≡ b
or_digits-zero zero b = refl
or_digits-zero (suc fuel) b = refl

enough_fuel : (a b n m : ℕ) → a ≤ n → a ≤ m → or_digits n a b ≡ or_digits m a b
enough_fuel (suc a) b (suc n) (suc m) p q =
    let rest = enough_fuel (suc a / 2) (b / 2) n m (omega arith) (omega arith) in
    omega (arith, rest)
enough_fuel (suc a) b (suc n) zero p q = elim q [ ]
enough_fuel (suc a) b zero m p q = elim p [ ]
enough_fuel zero b n m p q = or_digits-zero n b ∙ sym (or_digits-zero m b)

pub zero-bit_or : (b : ℕ) → bit_or 0 b ≡ b
zero-bit_or b = bit_or-bitwise 0 b

bit_or_step : (a b : ℕ) → bit_or a b ≡ bit_or (a / 2) (b / 2) * 2 + max (a % 2) (b % 2)
bit_or_step zero b = omega (arith, zero-bit_or b, zero-bit_or (b / 2))
bit_or_step (suc a) b = omega (
  arith,
  bit_or-bitwise (suc a) b,
  bit_or-bitwise (suc a / 2) (b / 2),
  enough_fuel (suc a / 2) (b / 2) a (suc a / 2) (omega arith) (omega arith),
)

double_pow : (b k : ℕ) → b * 2 ^ suc k ≡ b * 2 ^ k * 2
double_pow b k = omega (arith, ap (λ (t : ℕ). b * t) (pow-suc 2 k))

-- A field of `k` bits and one that starts at bit `k` do not meet: `|` is `+`.
pub bit_or_above : (k a b : ℕ) → a < 2 ^ k → bit_or a (b * 2 ^ k) ≡ a + b * 2 ^ k
bit_or_above zero a b h =
    let none_below : a ≡ 0 = omega arith in rw none_below (omega (arith, zero-bit_or (b * 2 ^ 0)))
bit_or_above (suc k) a b h = omega (
  arith,
  bit_or_step a (b * 2 ^ suc k),
  double_pow b k,
  pow-suc 2 k,
  bit_or_above k (a / 2) b (omega (arith, pow-suc 2 k)),
  ap (λ (t : ℕ). bit_or (a / 2) t) (halves),
)
  where
    halves : b * 2 ^ suc k / 2 ≡ b * 2 ^ k
    halves = omega (arith, double_pow b k)

-- Three fields of a byte: 3 bits, then `k` bits, then the rest.
pub or_three :
    (lo mid hi : ℕ) (k : ℕ)
    → lo < 2 ^ 3
    → lo + mid * 2 ^ 3 < 2 ^ k
    → bit_or (bit_or (bit_or 0 lo) (mid * 2 ^ 3)) (hi * 2 ^ k) ≡ lo + mid * 2 ^ 3 + hi * 2 ^ k
or_three lo mid hi k p q =
    rw (zero-bit_or lo, bit_or_above 3 lo mid p) (bit_or_above k (lo + mid * 2 ^ 3) hi q)

-- Two functions agree below a bound when they agree at each value, which evaluation checks.
module _ (f g : ℕ → ℕ) where
  agree : ℕ → Bool
  agree zero = true
  agree (suc n) = (f n == g n) && agree n

  agree_sound : (n : ℕ) → agree n ≡ true → (x : ℕ) → x < n → f x ≡ g x
  unfolding agree
  agree_sound zero e x h = absurd (omega arith)
  agree_sound (suc n) e x h = ground (arith, agree_sound n (ground arith) x)

-- The masks of the opcode's fields, over a byte.
pub bit_and_07 : (x : ℕ) → x < 256 → bit_and x 0x07 ≡ x % 8
unfolding agree
bit_and_07 = agree_sound _ _ 256 refl

pub bit_and_08 : (x : ℕ) → x < 256 → bit_and x 0x08 ≡ x / 8 % 2 * 8
unfolding agree
bit_and_08 = agree_sound _ _ 256 refl

pub bit_and_0f : (x : ℕ) → x < 256 → bit_and x 0x0f ≡ x % 16
unfolding agree
bit_and_0f = agree_sound _ _ 256 refl

pub bit_and_18 : (x : ℕ) → x < 256 → bit_and x 0x18 ≡ x / 8 % 4 * 8
unfolding agree
bit_and_18 = agree_sound _ _ 256 refl

pub bit_and_e0 : (x : ℕ) → x < 256 → bit_and x 0xe0 ≡ x / 32 * 32
unfolding agree
bit_and_e0 = agree_sound _ _ 256 refl

pub bit_and_f0 : (x : ℕ) → x < 256 → bit_and x 0xf0 ≡ x / 16 * 16
unfolding agree
bit_and_f0 = agree_sound _ _ 256 refl

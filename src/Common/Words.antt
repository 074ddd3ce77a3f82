-- ===== src/Common/Words.antt =====
-- Go's integer types as bit patterns: an intN or a uintN is a number below 2 ^ N.
use Prim.Native.Nat.{ℕ, ◌+◌, ◌-◌, ◌%◌, ◌^◌, ◌<◌}
use buzzer.Common.Tests.{ltb, if◌then◌else◌}

abbrev pub IsU8 : ℕ → Type 0
IsU8 x = x < 2 ^ 8

abbrev pub IsU16 : ℕ → Type 0
IsU16 x = x < 2 ^ 16

abbrev pub IsU32 : ℕ → Type 0
IsU32 x = x < 2 ^ 32

abbrev pub IsU64 : ℕ → Type 0
IsU64 x = x < 2 ^ 64

-- The conversions to a narrower type keep the low bits.
abbrev pub to_u8 : ℕ → ℕ
to_u8 x = x % 2 ^ 8

abbrev pub to_u16 : ℕ → ℕ
to_u16 x = x % 2 ^ 16

abbrev pub to_u32 : ℕ → ℕ
to_u32 x = x % 2 ^ 32

abbrev pub to_u64 : ℕ → ℕ
to_u64 x = x % 2 ^ 64

-- The conversions of a signed type to a wider one extend the sign: int16 to int32, int32 to 64 bits.
abbrev pub sext_16_32 : ℕ → ℕ
sext_16_32 x = if ltb x (2 ^ 15) then x else x + (2 ^ 32 - 2 ^ 16)

abbrev pub sext_32_64 : ℕ → ℕ
sext_32_64 x = if ltb x (2 ^ 31) then x else x + (2 ^ 64 - 2 ^ 32)

-- ===== src/Ebpf/Assembly/Values.antt =====
-- What the immediates mean, and which sources the constructors take.
use buzzer.Common.{
  ℕ, ◌+◌, ◌*◌, ◌/◌, ◌%◌, ◌^◌, ◌≤◌, ◌<◌, ◌≡◌, ◌≢◌, ◌⊎◌, inl, inr, refl, arith, Bool, true, false,
  Option, none, some, ◌==◌, ==_iff, if◌then◌else◌, Bool-cases, ap,
}
use buzzer.Common.Run.{ok, panic}
use buzzer.Common.Words.{IsU32, IsU64, sext_32_64, to_u32}
use buzzer.Ebpf.{Src, Instruction, reg, int32, int, int64, empty, pseudo_value}
use buzzer.Ebpf.AluOp
use buzzer.Ebpf.InsClass
use buzzer.Ebpf.Alu.{new_alu_instruction, mov64, value_64, wide_mov}
use buzzer.Ebpf.Encoding.Format.{IsInstruction, opcode_byte}

-- A value of the type that `T` stands for, with the registers of the machine.
abbrev pub IsSrc : Src → Type 0
IsSrc (reg r) = r ≤ 10
IsSrc (int32 x) = IsU32 x
IsSrc (int x) = IsU64 x
IsSrc (int64 x) = IsU64 x

abbrev pub is_int64 : Src → Bool
is_int64 (int64 x) = true
is_int64 s = false

abbrev pub is_immediate : Src → Bool
is_immediate (reg r) = false
is_immediate s = true

-- The register contents that the kernel's two 64-bit moves of an immediate leave: the opcode 0xb7
-- extends the sign of its 32 bits, and 0x18 joins the halves of its two words.
unfoldable pub moved : Instruction → Option ℕ
moved (empty i) = if opcode_byte i.opcode == 0xb7 then some (sext_32_64 i.immediate) else none
moved (pseudo_value i (empty p)) =
    if opcode_byte i.opcode == 0x18 then some (i.immediate + p.immediate * 2 ^ 32) else none
moved (pseudo_value i (pseudo_value p q)) = none

abbrev pub fits_32 : Src → Bool
fits_32 src = sext_32_64 (to_u32 (value_64 src)) == value_64 src

pub mov64-narrow :
    (dst : ℕ) (src : Src)
    → fits_32 src ≡ true
    → mov64 dst src ≡ new_alu_instruction AluOp.mov InsClass.alu64 dst src
unfolding mov64
mov64-narrow dst src e = rw e

pub mov64-wide :
    (dst : ℕ) (src : Src)
    → fits_32 src ≡ false
    → mov64 dst src ≡ new_alu_instruction AluOp.mov InsClass.alu64 dst (int64 (value_64 src))
unfolding mov64
mov64-wide dst src e = rw e

halves : (x : ℕ) → IsU64 x → x % 2 ^ 32 + x / 2 ^ 32 % 2 ^ 32 * 2 ^ 32 ≡ x
halves x h = omega arith

-- Mov64 never panics on an immediate, and the instruction that it builds loads exactly the 64-bit
-- value of its argument, also where that does not fit 32 bits.
pub mov64-moved :
    (dst : ℕ) (src : Src)
    → IsSrc src
    → is_immediate src ≡ true
    → (i : Instruction) × (mov64 dst src ≡ ok i) × (moved i ≡ some (value_64 src))
unfolding new_alu_instruction moved
mov64-moved dst (reg r) h e = cc
mov64-moved dst (int32 x) h e = (_, mov64-narrow dst (int32 x) (ground arith), refl)
mov64-moved dst (int x) h e = elim (Bool-cases (fits_32 (int x))) [
  | inl fits ↦ (_, mov64-narrow dst (int x) fits, ap some ((==_iff _ x).0 fits))
  | inr more ↦ (_, mov64-wide dst (int x) more, ap some (halves x h))
]
mov64-moved dst (int64 x) h e = elim (Bool-cases (fits_32 (int64 x))) [
  | inl fits ↦ (_, mov64-narrow dst (int64 x) fits, ap some (halves x h))
  | inr more ↦ (_, mov64-wide dst (int64 x) more, ap some (halves x h))
]

-- The operations, classes and sizes that the package passes to its constructors.
abbrev pub IsAluCall : ℕ → ℕ → Type 0
IsAluCall op class = (op % 16 ≡ 0) × (op < 256) × ((class ≡ 4) ⊎ (class ≡ 7))

-- Of any ALU operation on a valid source: either the constructor builds an instruction that the
-- format can carry, or it panics, and it panics exactly on an int64 in an operation other than a move.
pub new_alu_instruction-IsInstruction :
    (op class dst : ℕ) (src : Src)
    → IsAluCall op class
    → dst ≤ 10
    → IsSrc src
    → ((i : Instruction) × (new_alu_instruction op class dst src ≡ ok i)
        × IsInstruction i
        × ((is_int64 src ≡ false) ⊎ (op ≡ AluOp.mov)))
      ⊎ ((new_alu_instruction op class dst src ≡ panic) × (is_int64 src ≡ true) × (op ≢ AluOp.mov))
unfolding new_alu_instruction
new_alu_instruction-IsInstruction op class dst (reg r) c d h =
    inl (_, refl, (grind arith, omega arith), inl refl)
new_alu_instruction-IsInstruction op class dst (int32 x) c d h =
    inl (_, refl, (grind arith, omega arith), inl refl)
new_alu_instruction-IsInstruction op class dst (int x) c d h =
    inl (_, refl, (grind arith, omega arith), inl refl)
new_alu_instruction-IsInstruction op class dst (int64 x) c d h =
    elim (Bool-cases (op == AluOp.mov)) [
      | inl move ↦
          inl (wide_mov dst x, rw move, (grind arith, refl, grind arith), inr ((==_iff _ _).0 move))
      | inr not_move ↦ inr (rw not_move, refl, ground arith)
    ]

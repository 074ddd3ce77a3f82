-- ===== src/Cbpf.antt =====
-- pkg/cbpf/constants.go and proto/cbpf.proto: classic BPF instructions.
pub mod AluOp
pub mod JmpOp
pub mod InsClass
pub mod StLdMode
pub mod StLdSize
pub mod SrcOperand
pub mod Alu
pub mod Jmp
pub mod StLd
pub mod Encoding
pub mod Generators
use buzzer.Common.{ℕ, ◌-◌, ◌^◌}

-- The Src constraint: a register, an int32 or an int, the numbers as bit patterns.
pub data Src : Type 0 where
  reg : ℕ → Src
  int32 : ℕ → Src
  int : ℕ → Src

-- The fields are int32, as bit patterns.
pub record Instruction : Type 0 where
  pub opcode : ℕ
  pub jt : ℕ
  pub jf : ℕ
  pub k : ℕ

abbrev pub unused_field : ℕ
unused_field = 0x00

abbrev pub reg_a : ℕ
reg_a = 0x00

abbrev pub reg_x : ℕ
reg_x = 0x01

-- -0x1000 as an int32.
abbrev pub extension_offset : ℕ
extension_offset = 2 ^ 32 - 0x1000

-- ===== src/Cbpf/Encoding.antt =====
-- encodeCbpfInstructions of pkg/units/control.go, and the Filter of pkg/cbpf/constants.go.
pub mod Opcodes
pub mod Lossless
mod Tests
use buzzer.Common.{ℕ, List, [], ◌∷◌, ◌++◌}
use buzzer.Common.Words.{to_u8, to_u16}
use buzzer.Cbpf.{Instruction}

-- struct sock_filter: 16, 8, 8 and 32 bits.
pub record Filter : Type 0 where
  pub opcode : ℕ
  pub jt : ℕ
  pub jf : ℕ
  pub k : ℕ

-- An int32 keeps its bits as a uint32.
abbrev pub encode_filter : Instruction → Filter
encode_filter i = record { opcode = to_u16 i.opcode; jt = to_u8 i.jt; jf = to_u8 i.jf; k = i.k }

-- The loop, with the slice that it appends to.
unfoldable pub append_filters : List Filter → List Instruction → List Filter
append_filters result [] = result
append_filters result (i ∷ is) = append_filters (result ++ encode_filter i ∷ []) is

unfoldable pub encode_cbpf_instructions : List Instruction → List Filter
unfolding append_filters
encode_cbpf_instructions instructions = append_filters [] instructions

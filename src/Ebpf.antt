-- ===== src/Ebpf.antt =====
-- pkg/ebpf: the messages of proto/ebpf.proto that the package builds, and its constants.
-- An enumeration of proto3 is open, so a value of one is its number, an int32 like any other.
pub mod AluOp
pub mod JmpOp
pub mod SrcOperand
pub mod InsClass
pub mod StLdMode
pub mod StLdSize
pub mod Alu
pub mod Jmp
pub mod StLd
pub mod Encoding
pub mod BtfKind
pub mod Btf
pub mod Assembly
pub mod Generators
use buzzer.Common.{ℕ, List, [], ◌∷◌, Option, none, some, ◌+◌}
use buzzer.Common.Run.{Run, ok, err, Error, ◌>>=◌}

-- The types that may stand for `T` in `[T Src]`. An int has 64 bits.
pub data Src : Type 0 where
  reg : ℕ → Src
  int32 : ℕ → Src
  int : ℕ → Src
  int64 : ℕ → Src

pub record AluOpcode : Type 0 where
  pub operation_code : ℕ
  pub source : ℕ
  pub instruction_class : ℕ

pub record MemOpcode : Type 0 where
  pub mode : ℕ
  pub size : ℕ
  pub instruction_class : ℕ

-- The oneof `opcode`. A JmpOpcode has the fields of an AluOpcode.
pub data Opcode : Type 0 where
  unset : Opcode
  alu_opcode : AluOpcode → Opcode
  jmp_opcode : AluOpcode → Opcode
  mem_opcode : MemOpcode → Opcode

-- The fields of an Instruction but for its last; the numbers are int32.
pub record Fields : Type 0 where
  pub opcode : Opcode
  pub dst_reg : ℕ
  pub src_reg : ℕ
  pub offset : ℕ
  pub immediate : ℕ

-- An Instruction, by what the oneof `pseudo_instruction` holds.
pub data Instruction : Type 0 where
  empty : Fields → Instruction
  pseudo_value : Fields → Instruction → Instruction

abbrev pub fields : Instruction → Fields
fields (empty f) = f
fields (pseudo_value f p) = f

pub record FuncInfo : Type 0 where
  pub insn_off : ℕ
  pub type_id : ℕ

pub record Functions : Type 0 where
  pub instructions : List Instruction
  pub func_info : Option FuncInfo

pub record Program : Type 0 where
  pub btf : List ℕ
  pub functions : List Functions

abbrev pub unused_field : ℕ
unused_field = 0x00

abbrev pub pseudo_map_fd : ℕ
pseudo_map_fd = 1

abbrev pub map_lookup : ℕ
map_lookup = 0x01

abbrev pub skb_load_bytes_relative : ℕ
skb_load_bytes_relative = 0x44

-- InstructionSequence, counting the index from `index`: a nil among the instructions is an error.
unfoldable pub instruction_sequence_from : ℕ → List (Option Instruction) → Run (List Instruction)
instruction_sequence_from index [] = ok []
instruction_sequence_from index (none ∷ rest) = err (Error.nil_instruction index)
instruction_sequence_from index (some inst ∷ rest) = do
  insts ← instruction_sequence_from (index + 1) rest
  ok (inst ∷ insts)

unfoldable pub instruction_sequence : List (Option Instruction) → Run (List Instruction)
unfolding instruction_sequence_from
instruction_sequence insts = instruction_sequence_from 0 insts

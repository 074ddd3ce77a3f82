-- ===== src/Strategies/Calls.antt =====
-- What the strategies share: the calls of the FFI that they make, and InstructionSequence over calls of
-- constructors.
use buzzer.Common.{ℕ, ◌+◌, ◌^◌, ◌≤◌, ◌<◌, ◌≡◌, refl, arith, List, [], ◌∷◌, map, some, ◌==◌, true}
use buzzer.Common.Run.{Run, ok, ◌>>=◌}
use buzzer.Common.Words.{sext_32_64, to_u32}
use buzzer.Ebpf.{Instruction, reg, int32, instruction_sequence, instruction_sequence_from}
use buzzer.Ebpf.AluOp
use buzzer.Ebpf.InsClass
use buzzer.Ebpf.SrcOperand
use buzzer.Ebpf.StLd.{ld_map_by_fd}
use buzzer.Ebpf.Alu.{mov64, new_alu_instruction, alu_instruction}
use buzzer.Rand.Draws.{Gen, Yields, give, fail, Yields-give}

-- The calls of units.FFI, with their arguments; the descriptor that a creation returns is given to the
-- strategy from outside.
pub data FfiCall : Type 0 where
  create_map_array : ℕ → FfiCall
  close_fd : ℕ → FfiCall

-- The arguments of a call of InstructionSequence, from left to right.
unfoldable pub arguments : List (Run Instruction) → Run (List Instruction)
arguments [] = ok []
arguments (c ∷ cs) = do i ← c; is ← arguments cs; ok (i ∷ is)

unfoldable pub sequence : List (Run Instruction) → Run (List Instruction)
unfolding arguments
sequence cs = do is ← arguments cs; instruction_sequence (map some is)

abbrev pub built_all : Run (List Instruction) → Gen (List Instruction)
built_all (Run.ok is) = give is
built_all (Run.err e) = fail
built_all Run.panic = fail

-- The value of a call that returned.
abbrev pub value : Run Instruction → Instruction
value (Run.ok i) = i
value other = ld_map_by_fd 0 0

instruction_sequence_from-some :
    (n : ℕ) (is : List Instruction) → instruction_sequence_from n (map some is) ≡ ok is
unfolding instruction_sequence_from
instruction_sequence_from-some n [] = refl
instruction_sequence_from-some n (i ∷ is) = rw (instruction_sequence_from-some (n + 1) is)

pub arguments-ok : (is : List Instruction) → arguments (map ok is) ≡ ok is
unfolding arguments
arguments-ok [] = refl
arguments-ok (i ∷ is) = rw (arguments-ok is)

-- Calls that return instructions make the sequence of these.
pub sequence-ok : (is : List Instruction) → sequence (map ok is) ≡ ok is
unfolding sequence instruction_sequence
sequence-ok is = rw (arguments-ok is) (instruction_sequence_from-some 0 is)

-- A move between registers, and a move of an int32, are single instructions.
pub mov64_reg :
    (dst r : ℕ)
    → r ≤ 10
    → mov64 dst (reg r) ≡ ok (alu_instruction AluOp.mov InsClass.alu64 dst SrcOperand.reg_src r 0)
unfolding mov64 new_alu_instruction
mov64_reg dst r h =
    let fits : (sext_32_64 (to_u32 (sext_32_64 r)) == sext_32_64 r) ≡ true = ground arith in rw fits

pub mov64_int32 :
    (dst x : ℕ)
    → x < 2 ^ 32
    → mov64 dst (int32 x)
      ≡ ok (alu_instruction AluOp.mov InsClass.alu64 dst SrcOperand.immediate 0 x)
unfolding mov64 new_alu_instruction
mov64_int32 dst x h =
    let fits : (sext_32_64 (to_u32 (sext_32_64 x)) == sext_32_64 x) ≡ true = ground arith in rw fits

-- A generator that goes on with the instructions of a sequence.
pub sequence-Yields :
    (cs : List (Run Instruction)) (is : List Instruction)
    → cs ≡ map ok is
    → Yields (λ js. js ≡ is) (built_all (sequence cs))
sequence-Yields cs is e = rw (e, sequence-ok is) (Yields-give refl)

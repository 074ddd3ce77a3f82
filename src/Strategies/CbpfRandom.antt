-- ===== src/Strategies/CbpfRandom.antt =====
-- pkg/strategies/cbpf_random_instruction.go: random classic BPF programs.
pub mod Jumps
mod Tests
use buzzer.Common.{
  ℕ, zero, suc, ◌+◌, ◌%◌, ◌^◌, List, [], ◌∷◌, ◌++◌, Bool, true, ◌==◌, if◌then◌else◌,
}
use buzzer.Cbpf.{Instruction, int, reg_a}
use buzzer.Cbpf.Alu.{add, misc, ret}
use buzzer.Cbpf.Generators.{
  random_alu_instruction, random_jmp_instruction, random_store_instruction, random_load_instruction,
}
use buzzer.Rand.{rand_int}
use buzzer.Rand.Draws.{Gen, give, ◌>>=◌}

pub record CbpfRandomInstruction : Type 0 where
  pub is_finished : Bool
  pub program_count : ℕ
  pub valid_program_count : ℕ

-- One round of the loop, with `left` the instruction count after it has been lowered.
unfoldable pub body_instruction : ℕ → Gen Instruction
body_instruction left = do
  t ← rand_int
  if t % 4 == 0
      then random_store_instruction
      else if t % 4 == 1
      then random_load_instruction
      else if t % 4 == 2
      then (if left == 0 then random_alu_instruction else random_jmp_instruction left)
      else random_alu_instruction

-- `for instructionCount != 0`, with the slice that it appends to.
unfoldable pub append_body : ℕ → List Instruction → Gen (List Instruction)
append_body zero instructions = give instructions
append_body (suc left) instructions = do
  instruction ← body_instruction left
  append_body left (instructions ++ instruction ∷ [])

unfoldable pub generate_program :
    CbpfRandomInstruction → Gen (CbpfRandomInstruction × List Instruction)
generate_program cr = do
  let cr = record cr { program_count = cr.program_count + 1 }
  v ← rand_int
  instructions ← append_body (v % 1000) (add (int 1) ∷ misc reg_a ∷ [])
  give (cr, instructions ++ ret (int 4) ∷ [])

unfoldable pub on_verify_done : Bool → CbpfRandomInstruction → CbpfRandomInstruction × Bool
on_verify_done is_valid cr = (
  (if is_valid then record cr { valid_program_count = cr.valid_program_count + 1 } else cr),
  true,
)

-- ===== src/Strategies/CbpfRandom/Tests.antt =====
-- The strategy's theorem at a concrete state.
use buzzer.Common.{◌≤◌, List, length, false}
use buzzer.Cbpf.{Instruction}
use buzzer.Rand.Draws.{Yields}
use buzzer.Strategies.CbpfRandom.{CbpfRandomInstruction, generate_program}
use buzzer.Strategies.CbpfRandom.Jumps.{IsCbpfProgram, generate_program-IsCbpfProgram}

abbrev fresh : CbpfRandomInstruction
fresh = record { is_finished = false; program_count = 0; valid_program_count = 0 }

generate_program-IsCbpfProgram_example :
    Yields
      (λ (g : CbpfRandomInstruction × List Instruction).
        IsCbpfProgram g.1 × (3 ≤ length g.1) × (length g.1 ≤ 1002))
      (generate_program fresh)
generate_program-IsCbpfProgram_example = generate_program-IsCbpfProgram fresh

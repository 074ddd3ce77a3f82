-- ===== src/Strategies/PointerArithmetic/Tests.antt =====
-- The strategy's theorems at a concrete state, and the comparison of the map's elements.
use buzzer.Common.{◌^◌, ◌-◌, ◌≤◌, ◌↔◌, ◌≡◌, refl, [], ◌∷◌, none, some, false}
use buzzer.Common.Run.{ok, panic}
use buzzer.Rand.Draws.{Yields}
use buzzer.Strategies.PointerArithmetic.{
  PointerArithmetic, Generated, generate_program, on_execute_done, same_elements,
}
use buzzer.Strategies.PointerArithmetic.Jumps.{IsProgram, generate_program-IsProgram}

abbrev fresh : PointerArithmetic
fresh = record {
  is_finished = false;
  map_fd = 2 ^ 64 - 1;
  program_count = 0;
  valid_program_count = 0;
}

generate_program-IsProgram_example :
    Yields
      (λ (g : Generated). IsProgram g.2 × ((g.2 ≡ none) ↔ (2 ^ 63 ≤ 5)))
      (generate_program 5 fresh)
generate_program-IsProgram_example = generate_program-IsProgram 5 fresh

elements-differ : on_execute_done (some (0xcafe ∷ 0 ∷ [])) ≡ ok false
unfolding on_execute_done same_elements
elements-differ = refl

elements-missing : on_execute_done (some (0xcafe ∷ [])) ≡ panic
unfolding on_execute_done same_elements
elements-missing = refl

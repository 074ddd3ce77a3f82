-- ===== src/Strategies/LoopPointerArithmetic/Tests.antt =====
-- The strategy at a concrete state, and the check of the map's second element.
use buzzer.Common.{◌≡◌, refl, [], ◌∷◌, some, true, false}
use buzzer.Common.Run.{ok, panic}
use buzzer.Ebpf.Btf.{ProtoSize}
use buzzer.Rand.Draws.{Yields, drew}
use buzzer.Rand.{rand_range, intn}
use buzzer.Ebpf.Generators.{random_register}
use buzzer.Strategies.LoopPointerArithmetic.{
  LoopPointerArithmetic, Generated, redraw_register, generate_program, on_verify_done, untouched,
  on_execute_done,
}
use buzzer.Strategies.LoopPointerArithmetic.Safety.{IsLoopProgram, generate_program-IsLoopProgram}

abbrev fresh : LoopPointerArithmetic
fresh = record {
  is_finished = false;
  map_fd = 0;
  program_count = 0;
  valid_program_count = 0;
  log = [];
}

-- proto.Size of a nil message is 0.
abbrev nil_sizes : ProtoSize
nil_sizes = record { of_types = λ s. 0; of_string = λ s. 0 }

generate_program-IsLoopProgram_example :
    Yields (λ (g : Generated). IsLoopProgram g.2) (generate_program nil_sizes 5 fresh)
generate_program-IsLoopProgram_example = generate_program-IsLoopProgram nil_sizes 5 fresh

redrawn : redraw_register 3 2 (11 ∷ 25 ∷ 6 ∷ []) ≡ drew 5 (6 ∷ [])
unfolding redraw_register random_register rand_range intn
redrawn = refl

verified :
    on_verify_done true (111 ∷ 107 ∷ []) fresh
    ≡ (record fresh { valid_program_count = 1; log = 111 ∷ 107 ∷ [] }, true)
unfolding on_verify_done
verified = refl

second-written : on_execute_done (some (0xcafe ∷ 3 ∷ [])) ≡ ok false
unfolding on_execute_done untouched
second-written = refl

second-missing : on_execute_done (some (0xcafe ∷ [])) ≡ panic
unfolding on_execute_done untouched
second-missing = refl

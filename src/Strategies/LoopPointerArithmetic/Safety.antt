-- ===== src/Strategies/LoopPointerArithmetic/Safety.antt =====
-- The programs of the strategy, with their func_info, function pointer and type information.
use buzzer.Common.{ℕ, ◌≡◌, refl, ◌∙◌, arith, List, [], ◌∷◌, some, append-nil}
use buzzer.Common.Run.{ok}
use buzzer.Common.Outcome.{result}
use buzzer.Ebpf.{Instruction, Program}
use buzzer.Ebpf.Btf.{
  ProtoSize, type_data, one_type_data, encode_type_info, extra_data, param_data, write_ints,
  string_data,
}
use buzzer.Ebpf.Btf.Layout.{IsLayout, get_buffer-IsLayout}
use buzzer.Ebpf.Encoding.Decoding.{AreInstructions, all_instructions}
use buzzer.Ebpf.Encoding.Programs.{body_words}
use buzzer.Rand.Draws.{Yields, Yields-give, Yields-bind}
use buzzer.Strategies.Targets.{JumpsLand, JumpsLand-join}
use buzzer.Strategies.LoopPointerArithmetic.{LoopPointerArithmetic, Generated, generate_program}
use buzzer.Strategies.LoopPointerArithmetic.TypeSection.{types, names, no_btf}
use buzzer.Strategies.LoopPointerArithmetic.Main.{
  function_targets, main, main_function-main, main-IsInstruction, main-JumpsLand, main-targets,
  main-words, loop_function-IsLoop,
}

-- The seven types as the kernel reads them: the number 2 is the type of the main function, 7 that of the
-- loop's.
abbrev pub type_ints : List ℕ
type_ints =
    0 ∷ 0x0d000000 ∷ 0 ∷ 1 ∷ 0x0c000000 ∷ 1 ∷ 1 ∷ 0x01000000 ∷ 4 ∷ 0x01000020 ∷ 1 ∷ 0x04000001 ∷ 4
    ∷ 1 ∷ 3 ∷ 0 ∷ 0 ∷ 0x02000000 ∷ 4 ∷ 0 ∷ 0x0d000002 ∷ 3 ∷ 1 ∷ 3 ∷ 1 ∷ 5 ∷ 1 ∷ 0x0c000000 ∷ 6 ∷ []

types-ints : type_data types ≡ ok type_ints
unfolding type_data one_type_data encode_type_info extra_data param_data
types-ints = refl

-- A program of two functions, where the first has no other function pointer than one to the second.
pub record IsLoopProgram (p : Program) : Type 0 where
  pub main_instructions : List Instruction
  pub loop_instructions : List Instruction
  pub functions :
      p.functions
      ≡ record {
        instructions = main_instructions;
        func_info = some (record { insn_off = 0; type_id = 2 });
      }
        ∷ record {
          instructions = loop_instructions;
          func_info = some (record { insn_off = body_words main_instructions; type_id = 7 });
        }
        ∷ []
  pub carried : AreInstructions p.functions
  pub lands : JumpsLand (all_instructions p.functions)
  pub targets :
      function_targets 0 (all_instructions p.functions) ≡ body_words main_instructions ∷ []
  pub layout : IsLayout (write_ints type_ints) (0 ∷ string_data names) p.btf

-- Every program that GenerateProgram returns can be encoded, and every conditional jump of it goes forward to
-- the start of an instruction. It has two functions: the func_info of the second has the word at which
-- the second starts, and the one function pointer of the program points to this word. The type
-- section and the string section of its BTF are found by the header. Generating never panics,
-- whatever proto.Size answers and whatever descriptor the map has.
pub generate_program-IsLoopProgram :
    (proto_size : ProtoSize) (created : ℕ) (lp : LoopPointerArithmetic)
    → Yields (λ (g : Generated). IsLoopProgram g.2) (generate_program proto_size created lp)
unfolding generate_program
generate_program-IsLoopProgram proto_size created lp =
    let (buffer, e, layout) = result (
      get_buffer-IsLayout proto_size 0xeb9f 1 0 no_btf types type_ints names types-ints
        (omega arith) (omega arith)) in
    Yields-bind (main_function-main created) λ m em. Yields-bind loop_function-IsLoop λ is h.
      rw (e, em)
        (Yields-give (record {
          main_instructions = main created;
          loop_instructions = is;
          functions = rw (main-words created) refl;
          carried = (main-IsInstruction created, (h.carried, tt));
          lands =
              rw (append-nil is)
                (JumpsLand-join (main created) is (main-JumpsLand created) h.lands);
          targets = rw (append-nil is) (main-targets created is ∙ rw (h.no_targets _) refl);
          layout = layout;
        }))

-- ===== src/Strategies/LoopPointerArithmetic.antt =====
-- pkg/strategies/loop_pointer_arithmetic.go: a main function that has the kernel loop over a second one,
-- whose body is random.
pub mod TypeSection
pub mod Main
pub mod Body
pub mod Safety
mod Tests
use buzzer.Common.{
  ℕ, zero, suc, ◌+◌, ◌-◌, ◌*◌, ◌%◌, ◌^◌, List, [], ◌∷◌, ◌++◌, Option, none, some, Bool, true, false,
  ◌||◌, ltb, ◌==◌, if◌then◌else◌, get_elem?, length,
}
use buzzer.Common.Run.{Run, ok, panic, err}
use buzzer.Common.Words.{to_u32}
use buzzer.Ebpf.{Instruction, FuncInfo, Program, reg, int, int32, map_lookup}
use buzzer.Ebpf.Alu.{mov64, mov, add64, mul64, and}
use buzzer.Ebpf.Jmp.{call, exit, jmp_ne, ld_function_ptr}
use buzzer.Ebpf.StLd.{st_w, st_dw, st_b, ld_dw, ld_w, ld_map_by_fd}
use buzzer.Ebpf.Btf.{ProtoSize, get_buffer}
use buzzer.Ebpf.Generators.{
  random_register, random_alu_instruction, random_jmp_instruction, random_load_instruction,
}
use buzzer.Rand.{rand_range, rand_int}
use buzzer.Rand.Draws.{Gen, give, fail, starved, drew, ◌>>=◌}
use buzzer.Strategies.Calls.{FfiCall, create_map_array, close_fd, sequence, built_all}
use buzzer.Strategies.LoopPointerArithmetic.TypeSection.{btf}
use buzzer.Strategies.PointerArithmetic.{random_moves, below_4, minus_4}

-- The log is the bytes of a string.
pub record LoopPointerArithmetic : Type 0 where
  pub is_finished : Bool
  pub map_fd : ℕ
  pub program_count : ℕ
  pub valid_program_count : ℕ
  pub log : List ℕ

abbrev pub main_body : ℕ → List (Run Instruction)
main_body map_fd =
    ok (ld_map_by_fd 9 map_fd)
    ∷ st_w 10 (int 0) below_4
    ∷ mov64 2 (reg 10)
    ∷ add64 2 (int minus_4)
    ∷ mov64 1 (reg 9)
    ∷ call map_lookup
    ∷ jmp_ne 0 (int 0) 1
    ∷ exit
    ∷ st_dw 0 (int 0xcafe) 0
    ∷ st_w 10 (int 1) below_4
    ∷ mov64 2 (reg 10)
    ∷ add64 2 (int minus_4)
    ∷ mov64 1 (reg 9)
    ∷ call map_lookup
    ∷ jmp_ne 0 (int 0) 1
    ∷ exit
    ∷ ok (ld_w 8 10 (2 ^ 16 - 12))
    ∷ add64 0 (reg 8)
    ∷ st_w 0 (reg 8) 0
    ∷ mov64 0 (int 0)
    ∷ exit
    ∷ []

-- The setup of the loop, for a main body of `size` instructions.
abbrev pub main_header : ℕ → List (Run Instruction)
main_header size =
    st_w 10 (int 0) below_4
    ∷ st_w 10 (int 0) (2 ^ 16 - 12)
    ∷ mov64 3 (reg 10)
    ∷ add64 3 (int (2 ^ 64 - 8))
    ∷ mov 1 (int 10)
    ∷ mov 4 (int 0)
    ∷ ok (ld_function_ptr (to_u32 (size + 3)))
    ∷ call 181
    ∷ []

-- `for randReg == 2 || randReg == 1`; each round takes a raw number, so there are no more than these.
unfoldable pub redraw_register : ℕ → ℕ → Gen ℕ
redraw_register zero r ds = if r == 2 || r == 1 then starved else drew r ds
redraw_register (suc fuel) r ds =
    let again = (random_register >>= redraw_register fuel) ds in
    if r == 2 || r == 1 then again else drew r ds

abbrev pub pointer_calls : ℕ → ℕ → List (Run Instruction)
pointer_calls rand_reg v =
    ok (ld_dw 2 10 (2 ^ 16 - 8))
    ∷ and rand_reg (int 0x3f)
    ∷ mul64 rand_reg (int (2 ^ 64 - 1))
    ∷ add64 2 (reg rand_reg)
    ∷ st_b 2 (int 16) 0
    ∷ mov64 2 (int32 (to_u32 v))
    ∷ []

-- One round of the loop, with `left` the instruction count after it has been lowered.
unfoldable pub body_instructions : ℕ → Gen (List Instruction)
unfolding redraw_register
body_instructions left = do
  t ← rand_int
  r ← random_register
  rand_reg ← (λ ds. redraw_register (length ds) r ds)
  if t % 4 == 0
      then (do v ← rand_int; built_all (sequence (pointer_calls rand_reg v)))
      else if t % 4 == 1
      then (do i ← random_load_instruction; give (i ∷ []))
      else (do
        p ← rand_range 1 100
        i ← (if ltb 30 p || left == 0 then random_alu_instruction else random_jmp_instruction left)
        give (i ∷ []))

-- `for instructionCount != 0`
unfoldable pub random_loop_body : ℕ → Gen (List Instruction)
random_loop_body zero = give []
random_loop_body (suc left) = do
  is ← body_instructions left
  rest ← random_loop_body left
  give (is ++ rest)

-- An error that is dropped leaves a nil slice; none of these sequences has one.
unfoldable pub main_function : ℕ → Gen (List Instruction)
main_function map_fd = do
  body ← built_all (sequence (main_body map_fd))
  header ← built_all (sequence (main_header (length body)))
  give (header ++ body)

unfoldable pub loop_function : Gen (List Instruction)
unfolding random_moves
loop_function = do
  head ← built_all (sequence (st_dw 10 (reg 2) (2 ^ 16 - 8) ∷ []))
  instruction_count ← rand_int
  first_moves ← random_moves 1 0
  moves ← random_moves 8 2
  start ← built_all (sequence (first_moves ++ moves))
  rest ← random_loop_body (instruction_count % 1000)
  foo ← built_all (sequence (mov 0 (int 0) ∷ exit ∷ []))
  give ((head ++ (start ++ rest)) ++ foo)

-- What GenerateProgram leaves: its state, its calls of the FFI, and the program.
abbrev pub Generated : Type 0
Generated = LoopPointerArithmetic × List FfiCall × Program

abbrev pub with_buffer : Run (List ℕ) → (List ℕ → Gen Generated) → Gen Generated
with_buffer (Run.ok buffer) k = k buffer
with_buffer (Run.err e) k = fail
with_buffer Run.panic k = fail

-- `created` is the descriptor that CreateMapArray returns, which is not checked.
unfoldable pub generate_program : ProtoSize → ℕ → LoopPointerArithmetic → Gen Generated
unfolding main_function loop_function
generate_program proto_size created lp = do
  let lp = record lp { program_count = lp.program_count + 1 }
  let calls = create_map_array 2 ∷ close_fd lp.map_fd ∷ []
  let lp = record lp { map_fd = created }
  main ← main_function created
  loop_func ← loop_function
  let func_info_na : FuncInfo = record { insn_off = 0; type_id = 2 }
  let func_info_loop : FuncInfo = record { insn_off = to_u32 (length main + 2); type_id = 7 }
  with_buffer (get_buffer (btf proto_size)) λ btf_buffer. give (
    lp,
    calls,
    record {
      btf = btf_buffer;
      functions =
          record { instructions = main; func_info = some func_info_na }
          ∷ record { instructions = loop_func; func_info = some func_info_loop }
          ∷ [];
    },
  )

unfoldable pub on_verify_done : Bool → List ℕ → LoopPointerArithmetic → LoopPointerArithmetic × Bool
on_verify_done is_valid verifier_log lp =
    let lp =
      if is_valid then record lp { valid_program_count = lp.valid_program_count + 1 } else lp in
    (record lp { log = verifier_log }, true)

unfoldable pub untouched : Option ℕ → Run Bool
untouched none = panic
untouched (some element) = ok (element == 0)

-- OnExecuteDone on the map's elements, or `none` where reading them fails.
unfoldable pub on_execute_done : Option (List ℕ) → Run Bool
unfolding untouched
on_execute_done none = ok true
on_execute_done (some elements) = untouched (get_elem? elements 1)

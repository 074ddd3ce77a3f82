-- ===== src/Strategies/PointerArithmetic.antt =====
-- pkg/strategies/pointer_arithmetic.go: a random body between a fixed header and footer.
pub mod Jumps
mod Tests
use buzzer.Common.{
  ℕ, zero, suc, ◌+◌, ◌-◌, ◌%◌, ◌^◌, List, [], ◌∷◌, ◌++◌, Option, none, some, Bool, true, ◌||◌, ltb,
  leb, ◌==◌, if◌then◌else◌, get_elem?,
}
use buzzer.Common.Run.{Run, ok, panic}
use buzzer.Common.Words.{to_u32}
use buzzer.Ebpf.{Instruction, Program, Functions, reg, int, int32, map_lookup}
use buzzer.Ebpf.Alu.{mov64, add64}
use buzzer.Ebpf.Jmp.{call, exit, jmp_ne}
use buzzer.Ebpf.StLd.{st_w, st_dw, ld_map_by_fd}
use buzzer.Ebpf.Generators.{built, random_register, random_alu_instruction, random_jmp_instruction}
use buzzer.Rand.{rand_range, rand_int}
use buzzer.Rand.Draws.{Gen, give, ◌>>=◌}
use buzzer.Strategies.Calls.{FfiCall, create_map_array, close_fd, sequence, built_all}

pub record PointerArithmetic : Type 0 where
  pub is_finished : Bool
  pub map_fd : ℕ
  pub program_count : ℕ
  pub valid_program_count : ℕ

-- `Mov64(R, int32(RandInt()))` for `n` registers from `r` on.
unfoldable pub random_moves : ℕ → ℕ → Gen (List (Run Instruction))
random_moves zero r = give []
random_moves (suc n) r = do
  v ← rand_int
  rest ← random_moves n (suc r)
  give (mov64 r (int32 (to_u32 v)) ∷ rest)

-- One round of the loop, with `left` the instruction count after it has been lowered.
unfoldable pub body_instruction : ℕ → Gen Instruction
body_instruction left = do
  p ← rand_range 1 100
  if ltb 30 p || left == 0 then random_alu_instruction else random_jmp_instruction left

-- `for instructionCount != 0`
unfoldable pub random_body : ℕ → Gen (List Instruction)
random_body zero = give []
random_body (suc left) = do i ← body_instruction left; rest ← random_body left; give (i ∷ rest)

-- The offset -4 as an int16, and as an int.
abbrev pub below_4 : ℕ
below_4 = 2 ^ 16 - 4

abbrev pub minus_4 : ℕ
minus_4 = 2 ^ 64 - 4

-- The footer, with `r` the register that it adds to the map's pointer.
abbrev pub footer_calls : ℕ → ℕ → List (Run Instruction)
footer_calls r fd =
    mov64 8 (reg r)
    ∷ ok (ld_map_by_fd 9 fd)
    ∷ st_w 10 (int 0) below_4
    ∷ mov64 2 (reg 10)
    ∷ add64 2 (int minus_4)
    ∷ mov64 1 (reg 9)
    ∷ call map_lookup
    ∷ jmp_ne 0 (int 0) 1
    ∷ exit
    ∷ st_dw 0 (int 0xcafe) 0
    ∷ st_w 10 (int 1) below_4
    ∷ mov64 2 (reg 10)
    ∷ add64 2 (int minus_4)
    ∷ mov64 1 (reg 9)
    ∷ call map_lookup
    ∷ jmp_ne 0 (int 0) 1
    ∷ exit
    ∷ add64 0 (reg 8)
    ∷ st_dw 0 (int 0xcafe) 0
    ∷ mov64 0 (int 0)
    ∷ exit
    ∷ []

abbrev pub single_function : List Instruction → Program
single_function is = record {
  btf = [];
  functions = record { instructions = is; func_info = none } ∷ [];
}

-- What GenerateProgram leaves: its state, its calls of the FFI, and the program or mapCreationFailed.
abbrev pub Generated : Type 0
Generated = PointerArithmetic × List FfiCall × Option Program

-- `created` is the descriptor that CreateMapArray returns, an int that is negative on failure.
unfoldable pub generate_program : ℕ → PointerArithmetic → Gen Generated
generate_program created pa = do
  let pa = record pa { program_count = pa.program_count + 1 }
  moves ← random_moves 10 0
  header ← built_all (sequence moves)
  v ← rand_int
  body ← random_body (v % 1000)
  let calls = close_fd pa.map_fd ∷ create_map_array 2 ∷ []
  let pa = record pa { map_fd = created }
  let rest =
      (random_register >>= λ r. built_all (sequence (footer_calls r created)) >>= λ footer.
      give (pa, calls, some (single_function ((header ++ body) ++ footer))))
  if leb (2 ^ 63) created then give (pa, calls, none) else rest

unfoldable pub on_verify_done : Bool → PointerArithmetic → PointerArithmetic × Bool
on_verify_done is_valid pa = (
  (if is_valid then record pa { valid_program_count = pa.valid_program_count + 1 } else pa),
  true,
)

-- The comparison of the control element with the test element.
unfoldable pub same_elements : Option ℕ → Option ℕ → Run Bool
same_elements none b = panic
same_elements (some a) none = panic
same_elements (some a) (some b) = ok (a == b)

-- OnExecuteDone on the map's elements, or `none` where reading them fails.
unfoldable pub on_execute_done : Option (List ℕ) → Run Bool
unfolding same_elements
on_execute_done none = ok true
on_execute_done (some elements) = same_elements (get_elem? elements 0) (get_elem? elements 1)

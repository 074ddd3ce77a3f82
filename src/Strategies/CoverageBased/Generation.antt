-- ===== src/Strategies/CoverageBased/Generation.antt =====
-- pkg/strategies/coverage_based.go: the default program, GenerateProgram and OnExecuteDone. The
-- descriptor of the new map is an argument.
use buzzer.Common.{
  ℕ, zero, suc, ◌+◌, ◌-◌, ◌/◌, ◌^◌, List, [], ◌∷◌, ◌++◌, Option, none, some, Bool, false, not, ltb,
  leb, ◌==◌, if◌then◌else◌, length, get_elem?,
}
use buzzer.Common.Run.{Run, ok, panic}
use buzzer.Common.Words.{to_u32}
use buzzer.Ebpf.{Instruction, Program, reg, int, map_lookup, empty, pseudo_value}
use buzzer.Ebpf.Alu.{mov64, add64}
use buzzer.Ebpf.Jmp.{call, exit, jmp_ne}
use buzzer.Ebpf.StLd.{st_w, st_dw, ld_dw, ld_map_by_fd}
use buzzer.Ebpf.Generators.{random_register}
use buzzer.Rand.{rand_int}
use buzzer.Rand.Draws.{Gen, give, or_fail, ◌>>=◌}
use buzzer.Strategies.Calls.{FfiCall, create_map_array, close_fd, arguments, sequence, built_all}
use buzzer.Strategies.Container.{CoverageTrace}
use buzzer.Strategies.PointerArithmetic.{below_4, minus_4, single_function}
use buzzer.Strategies.CoverageBased.{PriorityQueue, CoverageBased, mutate_program, max_prog_reuse}

-- `Mov64(R, int(RandInt()))` for `n` registers from `r` on.
unfoldable pub int_moves : ℕ → ℕ → Gen (List (Run Instruction))
int_moves zero r = give []
int_moves (suc n) r = do v ← rand_int; rest ← int_moves n (suc r); give (mov64 r (int v) ∷ rest)

abbrev pub default_start : List (Run Instruction)
default_start =
    ok (ld_map_by_fd 1 0)
    ∷ st_w 10 (int 0) below_4
    ∷ mov64 2 (reg 10)
    ∷ add64 2 (int minus_4)
    ∷ call map_lookup
    ∷ jmp_ne 0 (int 0) 1
    ∷ exit
    ∷ ok (ld_dw 0 0 0)
    ∷ []

-- `for i := 16; i <= 512; i += 8`, with the rounds that are left.
unfoldable pub stack_stores : ℕ → ℕ → List (Run Instruction)
stack_stores zero i = []
stack_stores (suc rounds) i = st_dw 10 (reg 0) (2 ^ 16 - i) ∷ stack_stores rounds (i + 8)

abbrev pub store_rounds : ℕ
store_rounds = (512 - 16) / 8 + 1

unfoldable pub default_program : Gen (List Instruction)
unfolding int_moves stack_stores
default_program = do
  moves ← int_moves 9 1
  start ← built_all (sequence (default_start ++ moves))
  stores ← built_all (arguments (stack_stores store_rounds 16))
  give (start ++ stores)

abbrev pub map_ptr_arithmetic_footer : ℕ → ℕ → List (Run Instruction)
map_ptr_arithmetic_footer random_reg fd =
    mov64 8 (reg random_reg)
    ∷ ok (ld_map_by_fd 9 fd)
    ∷ st_w 10 (int 0) below_4
    ∷ mov64 2 (reg 10)
    ∷ add64 2 (int minus_4)
    ∷ mov64 1 (reg 9)
    ∷ call map_lookup
    ∷ jmp_ne 0 (int 0) 1
    ∷ exit
    ∷ add64 0 (reg 8)
    ∷ st_dw 0 (int 0xcafe) 0
    ∷ mov64 0 (int 0)
    ∷ exit
    ∷ []

abbrev pub with_immediate : Instruction → ℕ → Instruction
with_immediate (empty i) imm = empty (record i { immediate = imm })
with_immediate (pseudo_value i p) imm = pseudo_value (record i { immediate = imm }) p

-- `mutatedProgram[0].Immediate = int32(cv.mapFd)`
abbrev pub patch_map_fd : List Instruction → ℕ → Option (List Instruction)
patch_map_fd [] fd = none
patch_map_fd (i ∷ prog) fd = some (with_immediate i (to_u32 fd) ∷ prog)

-- OnExecuteDone on the answer of GetMapElements, whose error the code drops: a nil answer panics, and so
-- does one without elements.
unfoldable pub judge : {Q : Type 0} → CoverageBased Q → Option ℕ → Run (CoverageBased Q × Bool)
judge cv none = panic
judge cv (some element) =
    let valid = element == 0xcafe in ok (record cv { is_finished = not valid }, valid)

unfoldable pub on_execute_done :
    {Q : Type 0} → CoverageBased Q → Option (List ℕ) → Run (CoverageBased Q × Bool)
unfolding judge
on_execute_done cv none = panic
on_execute_done cv (some elements) = judge cv (get_elem? elements 0)

module _ {Q : Type 0} (queue : PriorityQueue Q) where
  unfoldable pub new_coverage_based_strategy : Gen (CoverageBased Q)
  unfolding default_program
  new_coverage_based_strategy = do
    prog ← default_program
    give (record {
      is_finished = false;
      pq = queue.empty_queue;
      coverage_hash_table = [];
      fingerprint_hash_table = [];
      program_count = 0;
      valid_program_count = 0;
      last_program = [];
      map_fd = 2 ^ 64 - 1;
      default_prog = prog;
    })

  -- The trace goes back into the queue until it has been used MAX_PROG_REUSE times.
  unfoldable pub put_back : CoverageTrace → Q → Q
  put_back trace pq =
      if ltb trace.usage_count max_prog_reuse
      then queue.push (record trace { usage_count = trace.usage_count + 1 }) pq
      else pq

  -- The program to mutate, a copy of the default program or of a queued one; a nil trace would panic.
  unfoldable pub choose_program : CoverageBased Q → Gen (CoverageBased Q × List Instruction)
  unfolding put_back
  choose_program cv =
      let reuse =
        (or_fail (queue.pop cv.pq) >>= λ (trace, pq).
        give (record cv { pq = put_back trace pq }, trace.program)) in
      if queue.is_empty cv.pq then give (cv, cv.default_prog) else reuse

  -- What GenerateProgram leaves: its state, its calls of the FFI, and the program or mapCreationFailed.
  abbrev pub Generated : Type 0
  Generated = CoverageBased Q × List FfiCall × Option Program

  -- The program in front of its footer. The patched instruction is shared with the last program.
  unfoldable pub finish_program :
      ℕ → List FfiCall → CoverageBased Q → List Instruction → Gen Generated
  finish_program created calls cv mutated = do
    patched ← or_fail (patch_map_fd mutated created)
    r ← random_register
    footer ← built_all (sequence (map_ptr_arithmetic_footer r created))
    give (record cv { last_program = patched }, calls, some (single_function (patched ++ footer)))

  unfoldable pub generate_program : ℕ → CoverageBased Q → Gen Generated
  unfolding choose_program finish_program
  generate_program created cv = do
    let cv = record cv { program_count = cv.program_count + 1 }
    (cv, prog_head) ← choose_program cv
    mutated ← mutate_program prog_head (length cv.default_prog)
    let calls = close_fd cv.map_fd ∷ create_map_array 1 ∷ []
    let cv = record cv { last_program = mutated; map_fd = created }
    if leb (2 ^ 63) created then give (cv, calls, none) else finish_program created calls cv mutated

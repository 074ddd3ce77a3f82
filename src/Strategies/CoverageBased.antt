-- ===== src/Strategies/CoverageBased.antt =====
-- pkg/strategies/coverage_based.go: programs that are mutated as long as they find new coverage.
-- The priority queue is a parameter, by its interface and its laws; HeapQueue is that of heap.go.
pub mod Mutations
pub mod Tables
pub mod Coverage
pub mod Generation
pub mod Default
pub mod Footer
pub mod Invariant
pub mod Safety
pub mod HeapQueue
mod Tests
use buzzer.Common.{
  ℕ, zero, suc, ◌+◌, ◌-◌, ◌*◌, ◌%◌, ◌^◌, ◌≡◌, List, [], ◌∷◌, ◌++◌, Option, none, some, Bool, true,
  false, not, ◌||◌, ltb, leb, ◌==◌, if◌then◌else◌, length, take, drop, set, bit_xor,
}
use buzzer.Common.Run.{Run, ok}
use buzzer.Common.Words.{to_u32, to_u64}
use buzzer.Ebpf.{Instruction, Program, reg, int, map_lookup, empty, pseudo_value}
use buzzer.Ebpf.Alu.{mov64, add64}
use buzzer.Ebpf.Jmp.{call, exit, jmp_ne}
use buzzer.Ebpf.StLd.{st_w, st_dw, ld_dw, ld_map_by_fd}
use buzzer.Ebpf.Generators.{
  random_register, random_alu_instruction, random_jmp_instruction, random_mem_instruction,
}
use buzzer.Rand.{rand_int}
use buzzer.Rand.Draws.{Gen, give, fail, ◌>>=◌}
use buzzer.Strategies.Calls.{FfiCall, create_map_array, close_fd, sequence, built_all}
use buzzer.Strategies.Container.{CoverageTrace}
use buzzer.Strategies.PointerArithmetic.{below_4, minus_4, single_function}
use buzzer.Units.{ValidationResult}

abbrev pub max_prog_reuse : ℕ
max_prog_reuse = 25

-- The operations of the priority queue; Pop of an empty one returns nil.
pub record PriorityQueue (Q : Type 0) : Type 0 where
  pub empty_queue : Q
  pub is_empty : Q → Bool
  pub push : CoverageTrace → Q → Q
  pub pop : Q → Option (CoverageTrace × Q)

-- What the strategy relies on: `Each P q` says that the traces in the queue satisfy `P`.
pub record QueueLaws {Q : Type 0} (queue : PriorityQueue Q) : Type 1 where
  pub Each : (CoverageTrace → Type 0) → Q → Type 0
  pub Each-empty : (P : CoverageTrace → Type 0) → Each P queue.empty_queue
  pub Each-map :
      {P R : CoverageTrace → Type 0}
      → ((t : CoverageTrace) → P t → R t)
      → (q : Q) → Each P q
      → Each R q
  pub Each-push :
      {P : CoverageTrace → Type 0} {t : CoverageTrace} {q : Q}
      → P t
      → Each P q
      → Each P (queue.push t q)
  pub Each-pop :
      {P : CoverageTrace → Type 0} {q : Q}
      → queue.is_empty q ≡ false
      → Each P q
      → (r : CoverageTrace × Q) × (queue.pop q ≡ some r) × P r.0 × Each P r.1

-- The two tables hold only the value true, so that they are the lists of their keys.
pub record CoverageBased (Q : Type 0) : Type 0 where
  pub is_finished : Bool
  pub pq : Q
  pub coverage_hash_table : List ℕ
  pub fingerprint_hash_table : List ℕ
  pub program_count : ℕ
  pub valid_program_count : ℕ
  pub last_program : List Instruction
  pub map_fd : ℕ
  pub default_prog : List Instruction

unfoldable pub new_random_instruction : ℕ → Gen Instruction
new_random_instruction max_jmp = do
  instruction_type ← rand_int
  if instruction_type % 3 == 0
      then random_alu_instruction
      else if instruction_type % 3 == 1
      then (if max_jmp == 0 then random_alu_instruction else random_jmp_instruction max_jmp)
      else random_mem_instruction

-- The insertion before position `pos`. `append(prog[:pos], newInstr)` has room in the array of `prog`, so
-- it writes over `prog[pos]` before `prog[pos:]` is read.
unfoldable pub insert_at : List Instruction → ℕ → Instruction → List Instruction
insert_at prog pos new_instr =
    let new_prog = take pos prog ++ new_instr ∷ [] in
    let prog = set prog pos new_instr in new_prog ++ drop pos prog

unfoldable pub handle_add_instruction : List Instruction → Gen (List Instruction)
handle_add_instruction prog = do
  v ← rand_int
  let pos = v % (length prog + 1)
  if pos == 0
      then (do
        new_instr ← new_random_instruction (if ltb 0 (length prog) then length prog - 1 else 0)
        give (new_instr ∷ prog))
      else if pos == length prog
      then (do new_instr ← new_random_instruction 0; give (prog ++ new_instr ∷ []))
      else (do
        new_instr ←
            new_random_instruction (if ltb 0 (length prog) then length prog - pos - 1 else 0)
        give (insert_at prog pos new_instr))

unfoldable pub handle_modify_instruction : List Instruction → Gen (List Instruction)
unfolding handle_add_instruction
handle_modify_instruction prog =
    let modified =
      (rand_int >>= λ v.
      let pos = v % length prog in
      new_random_instruction (length prog - pos - 1) >>= λ new_instr.
      give (set prog pos new_instr)) in
    if length prog == 0 then handle_add_instruction prog else modified

-- `RandInt() % 2` is one of the two operations, so that the default case is never reached.
unfoldable pub mutate_program : List Instruction → ℕ → Gen (List Instruction)
unfolding handle_add_instruction handle_modify_instruction
mutate_program prog head_size =
    let prog_head = take head_size prog in
    let prog_body = drop head_size prog in
    let mutated =
      (rand_int >>= λ operation.
      (if operation % 2 == 0
        then handle_add_instruction prog_body
        else handle_modify_instruction prog_body)
      >>= λ prog_body'. give (prog_head ++ prog_body')) in
    if ltb (length prog) head_size then fail else mutated

-- `_, ok := table[key]`
abbrev pub has : List ℕ → ℕ → Bool
has [] key = false
has (k ∷ ks) key = k == key || has ks key

-- The loop over the addresses: the table, and whether one of them was new.
unfoldable pub record_addresses : List ℕ → List ℕ → Bool → List ℕ × Bool
record_addresses [] table new_addr = (table, new_addr)
record_addresses (addr ∷ addrs) table new_addr =
    if has table addr
    then record_addresses addrs table new_addr
    else record_addresses addrs (addr ∷ table) true

unfoldable pub finger_print_from : ℕ → List ℕ → ℕ
finger_print_from finger_print [] = finger_print
finger_print_from finger_print (addr ∷ addrs) = finger_print_from (bit_xor finger_print addr) addrs

module _ {Q : Type 0} (queue : PriorityQueue Q) where
  -- What OnVerifyDone does with a valid program whose coverage was collected.
  unfoldable pub record_coverage : ValidationResult → CoverageBased Q → CoverageBased Q × Bool
  unfolding record_addresses finger_print_from
  record_coverage vr cv =
      let (table, new_addr) = record_addresses vr.coverage_address cv.coverage_hash_table false in
      let finger_print = finger_print_from 0 vr.coverage_address in
      let new_finger_print = not (has cv.fingerprint_hash_table finger_print) in
      let cv = record cv {
        coverage_hash_table = table;
        fingerprint_hash_table =
            if new_finger_print
            then finger_print ∷ cv.fingerprint_hash_table
            else cv.fingerprint_hash_table;
      } in
      let trace : CoverageTrace = record {
        program = cv.last_program;
        coverage_signature = finger_print;
        coverage_size = length vr.coverage_address;
        usage_count = 0;
      } in
      if new_addr || new_finger_print
      then (record cv { pq = queue.push trace cv.pq }, true)
      else (cv, false)

  unfoldable pub on_verify_done : ValidationResult → CoverageBased Q → CoverageBased Q × Bool
  on_verify_done vr cv =
      let counted = record cv { valid_program_count = cv.valid_program_count + 1 } in
      if not vr.is_valid
      then (cv, false)
      else if not vr.did_collect_coverage
      then (counted, false)
      else record_coverage vr counted

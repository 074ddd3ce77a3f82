-- ===== src/Strategies/LoopPointerArithmetic/Main.antt =====
-- The two functions of a program: where their jumps go, and where the function pointer of the first points.
use buzzer.Common.{
  ℕ, ◌+◌, ◌-◌, ◌%◌, ◌^◌, ◌≡◌, refl, sym, ◌∙◌, arith, inl, inr, List, [], ◌∷◌, ◌++◌, map, All,
  All-append, ◌==◌, if◌then◌else◌, ◌&◌,
}
use mathlib.Core.List.{map-append}
use buzzer.Common.Run.{Run, ok}
use buzzer.Ebpf.{Instruction, int, reg, empty, pseudo_value}
use buzzer.Ebpf.Alu.{mov64, mov, add64, new_alu_instruction}
use buzzer.Ebpf.Jmp.{call, exit, jmp_ne, ld_function_ptr}
use buzzer.Ebpf.StLd.{st_w, st_dw, ld_w, ld_map_by_fd}
use buzzer.Ebpf.Encoding.Format.{IsInstruction}
use buzzer.Ebpf.Encoding.Programs.{body_words}
use buzzer.Ebpf.Generators.{is_conditional}
use buzzer.Rand.Bounds.{rand_int-IsU64}
use buzzer.Rand.Draws.{Yields, Yields-give, Yields-bind}
use buzzer.Strategies.Calls.{value, sequence-Yields}
use buzzer.Strategies.Targets.{JumpsWithin, JumpsWithin-append, JumpsLand, JumpsLand-append}
use buzzer.Strategies.PointerArithmetic.Jumps.{Header, random_moves-Header}
use buzzer.Strategies.LoopPointerArithmetic.{main_body, main_header, main_function, loop_function}
use buzzer.Strategies.LoopPointerArithmetic.Body.{random_loop_body-IsLoopBody}

-- The words that function pointers point to: BPF_PSEUDO_FUNC counts from the word behind the pointer's first.
abbrev pub function_targets : ℕ → List Instruction → List ℕ
function_targets w [] = []
function_targets w (empty i ∷ is) = function_targets (w + 1) is
function_targets w (pseudo_value i p ∷ is) =
    let rest = function_targets (w + 2) is in
    if i.src_reg == 4 then (w + i.immediate + 1) ∷ rest else rest

abbrev pub main : ℕ → List Instruction
main fd = map value (main_header 21) ++ map value (main_body fd)

main_body-ok : (fd : ℕ) → main_body fd ≡ map ok (map value (main_body fd))
unfolding mov64 mov add64 call exit jmp_ne st_w st_dw new_alu_instruction
main_body-ok fd = refl

main_header-ok : main_header 21 ≡ map ok (map value (main_header 21))
unfolding mov64 mov add64 call exit jmp_ne st_w st_dw new_alu_instruction
main_header-ok = refl

pub main_function-main : (fd : ℕ) → Yields (λ is. is ≡ main fd) (main_function fd)
unfolding main_function
main_function-main fd =
    Yields-bind (sequence-Yields (main_body fd) (map value (main_body fd)) (main_body-ok fd))
      λ body e. rw e (
        Yields-bind (sequence-Yields (main_header 21) (map value (main_header 21)) main_header-ok)
          λ header d. Yields-give (rw d refl))

pub main-IsInstruction : (fd : ℕ) → All IsInstruction (main fd)
unfolding mov64 mov add64 call exit jmp_ne st_w st_dw ld_w ld_map_by_fd ld_function_ptr
main-IsInstruction fd = omega arith

pub main-JumpsLand : (fd : ℕ) → JumpsLand (main fd)
unfolding mov64 mov add64 call exit jmp_ne st_w st_dw ld_w ld_map_by_fd ld_function_ptr
    is_conditional
main-JumpsLand fd =
    tt
    & tt
    & tt
    & tt
    & tt
    & tt
    & tt
    & inl refl
    & tt
    & tt
    & tt
    & tt
    & tt
    & inl refl
    & inr refl
    & inl refl
    & tt
    & tt
    & tt
    & tt
    & tt
    & inl refl
    & inr refl
    & inl refl
    & tt
    & tt
    & tt
    & tt
    & inl refl
    & tt

-- 29 instructions, of which two take two words.
pub main-words : (fd : ℕ) → body_words (main fd) ≡ 31
unfolding mov64 mov add64 call exit jmp_ne st_w st_dw ld_w ld_map_by_fd ld_function_ptr
main-words fd = refl

-- The function pointer of the main function points behind it, where the next function starts.
pub main-targets :
    (fd : ℕ) (is : List Instruction)
    → function_targets 0 (main fd ++ is)
      ≡ body_words (main fd) ∷ function_targets (body_words (main fd)) is
unfolding mov64 mov add64 call exit jmp_ne st_w st_dw ld_w ld_map_by_fd ld_function_ptr
main-targets fd is = refl

-- A function that can be encoded, whose jumps stay in it, and which has no function pointer.
pub record IsLoop (is : List Instruction) : Type 0 where
  pub carried : All IsInstruction is
  pub lands : JumpsLand is
  pub no_targets : (w : ℕ) → function_targets w is ≡ []

abbrev foo : List Instruction
foo = value (mov 0 (int 0)) ∷ value exit ∷ []

body-no_targets :
    (is : List Instruction) (w : ℕ) → JumpsWithin is → function_targets w (is ++ foo) ≡ []
unfolding mov exit new_alu_instruction
body-no_targets [] w h = refl
body-no_targets (empty i ∷ is) w (h, hs) = body-no_targets is (w + 1) hs
body-no_targets (pseudo_value i p ∷ is) w (h, hs) = absurd h

append_foo-IsLoop :
    (is : List Instruction) → All IsInstruction is → JumpsWithin is → IsLoop (is ++ foo)
unfolding mov exit is_conditional
append_foo-IsLoop is h w = record {
  carried = All-append IsInstruction is foo h (omega arith);
  lands = JumpsLand-append is _ _ w (tt & inl refl & tt);
  no_targets = λ n. body-no_targets is n w;
}

-- The first store of the loop's function.
abbrev loop_head : List Instruction
loop_head = value (st_dw 10 (reg 2) (2 ^ 16 - 8)) ∷ []

loop_head-ok : st_dw 10 (reg 2) (2 ^ 16 - 8) ∷ [] ≡ map ok loop_head
unfolding st_dw
loop_head-ok = refl

loop_head-IsInstruction : All IsInstruction loop_head
unfolding st_dw
loop_head-IsInstruction = omega arith

loop_head-JumpsWithin : JumpsWithin loop_head
unfolding st_dw
loop_head-JumpsWithin = (tt, tt)

foo-ok : mov 0 (int 0) ∷ exit ∷ [] ≡ map ok foo
unfolding mov exit new_alu_instruction
foo-ok = refl

abbrev Inner : List Instruction → Type 0
Inner is = All IsInstruction is × JumpsWithin is

Inner-append : (is js : List Instruction) → Inner is → Inner js → Inner (is ++ js)
Inner-append is js (h, w) (k, v) =
    (All-append IsInstruction is js h k, JumpsWithin-append is js w v)

Header-append : (cs ds : List (Run Instruction)) → Header cs → Header ds → Header (cs ++ ds)
Header-append cs ds f m =
    let joined = Inner-append f.is m.is (f.carried, f.within) (m.carried, m.within) in
    record {
      is = f.is ++ m.is;
      calls = (λ t. f.calls t ++ m.calls t) ∙ sym (map-append ok f.is m.is);
      carried = joined.0;
      within = joined.1;
    }

-- Whatever the random numbers, the function of the loop is generated without a panic.
pub loop_function-IsLoop : Yields IsLoop loop_function
unfolding loop_function
loop_function-IsLoop = Yields-bind (sequence-Yields _ loop_head loop_head-ok) λ head eh.
    Yields-bind rand_int-IsU64 λ count _.
      Yields-bind (random_moves-Header 1 0 (omega arith)) λ first f.
        Yields-bind (random_moves-Header 8 2 (omega arith)) λ moves m.
          let h = Header-append first moves f m in
          Yields-bind (sequence-Yields (first ++ moves) h.is h.calls) λ start es.
            Yields-bind (random_loop_body-IsLoopBody (count % 1000) (omega arith)) λ rest (_, a, w).
              let body = Inner-append h.is rest (h.carried, h.within) (a, w) in
              let whole =
                Inner-append loop_head (h.is ++ rest)
                  (loop_head-IsInstruction, loop_head-JumpsWithin) body in
              Yields-bind (sequence-Yields _ foo foo-ok) λ last el.
                rw (eh, es, el)
                  (Yields-give (append_foo-IsLoop (loop_head ++ (h.is ++ rest)) whole.0 whole.1))

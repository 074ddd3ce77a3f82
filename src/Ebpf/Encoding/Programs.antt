-- ===== src/Ebpf/Encoding/Programs.antt =====
-- Whole programs: what EncodeInstructions returns, on every program.
use buzzer.Common.{
  ℕ, suc, ◌+◌, ◌*◌, ◌≡◌, refl, ap, ◌∙◌, sym, arith, List, [], ◌∷◌, ◌++◌, Option, none, some, Bool,
  true, false, ◌&&◌, length, length-append, append_assoc, append-nil, Bool-cases, inl, inr,
}
use buzzer.Common.Run.{ok, err, unknown_opcode_type}
use buzzer.Ebpf.{
  Opcode, Instruction, FuncInfo, Functions, Program, unset, alu_opcode, jmp_opcode, mem_opcode,
  empty, pseudo_value,
}
use buzzer.Ebpf.Encoding.{
  encode_opcode, encode_word, encode_instruction, write_words, le_bytes, encode_body,
  write_func_info, encode_functions, encode_instructions,
}
use buzzer.Ebpf.Encoding.Bytes.{write_words-append, length-write_words, length-le_bytes}

-- Every opcode that encodeInstruction reads is set.
abbrev pub opcode_set : Opcode → Bool
opcode_set unset = false
opcode_set (alu_opcode c) = true
opcode_set (jmp_opcode c) = true
opcode_set (mem_opcode c) = true

abbrev pub instruction_set : Instruction → Bool
instruction_set (empty i) = opcode_set i.opcode
instruction_set (pseudo_value i p) = opcode_set i.opcode && instruction_set p

abbrev pub body_set : List Instruction → Bool
body_set [] = true
body_set (i ∷ is) = instruction_set i && body_set is

abbrev pub functions_set : List Functions → Bool
functions_set [] = true
functions_set (f ∷ fs) = body_set f.instructions && functions_set fs

-- How many 64-bit words an instruction takes, as the kernel counts instructions.
abbrev pub word_count : Instruction → ℕ
word_count (empty i) = 1
word_count (pseudo_value i p) = 2

abbrev pub body_words : List Instruction → ℕ
body_words [] = 0
body_words (i ∷ is) = word_count i + body_words is

abbrev pub functions_words : List Functions → ℕ
functions_words [] = 0
functions_words (f ∷ fs) = body_words f.instructions + functions_words fs

abbrev pub has_info : Option FuncInfo → ℕ
has_info none = 0
has_info (some info) = 1

abbrev pub info_count : List Functions → ℕ
info_count [] = 0
info_count (f ∷ fs) = has_info f.func_info + info_count fs

encode_opcode-set : (c : Opcode) → opcode_set c ≡ true → (b : ℕ) × (encode_opcode c ≡ ok b)
unfolding encode_opcode
encode_opcode-set unset e = cc
encode_opcode-set (alu_opcode c) e = (_, refl)
encode_opcode-set (jmp_opcode c) e = (_, refl)
encode_opcode-set (mem_opcode c) e = (_, refl)

encode_opcode-unset :
    (c : Opcode) → opcode_set c ≡ false → encode_opcode c ≡ err unknown_opcode_type
unfolding encode_opcode
encode_opcode-unset unset e = refl
encode_opcode-unset (alu_opcode c) e = cc
encode_opcode-unset (jmp_opcode c) e = cc
encode_opcode-unset (mem_opcode c) e = cc

-- What an instruction with every opcode set is encoded to: as many words as it takes.
encode_instruction-set :
    (i : Instruction)
    → instruction_set i ≡ true
    → (w : ℕ) × (ws : List ℕ) × (encode_instruction i ≡ ok (w ∷ ws))
      × (suc (length ws) ≡ word_count i)
unfolding encode_instruction
encode_instruction-set (empty i) e =
    let (b, eb) = encode_opcode-set i.opcode e in (encode_word i b, [], rw eb, refl)
encode_instruction-set (pseudo_value i p) e =
    let (b, eb) = encode_opcode-set i.opcode (ground arith) in
    let (w, ws, ep, n) = encode_instruction-set p (ground arith) in
    (encode_word i b, w ∷ [], rw (eb, ep), refl)

encode_instruction-unset :
    (i : Instruction) → instruction_set i ≡ false → encode_instruction i ≡ err unknown_opcode_type
unfolding encode_instruction
encode_instruction-unset (empty i) e = rw (encode_opcode-unset i.opcode e)
encode_instruction-unset (pseudo_value i p) e = elim (Bool-cases (opcode_set i.opcode)) [
  | inl here ↦
      let (b, eb) = encode_opcode-set i.opcode here in
      rw (eb, encode_instruction-unset p (ground arith))
  | inr gone ↦ rw (encode_opcode-unset i.opcode gone)
]

encode_body-set :
    (is : List Instruction) (buff : List ℕ)
    → body_set is ≡ true
    → (ws : List ℕ) × (encode_body is buff ≡ ok (buff ++ write_words ws))
      × (length ws ≡ body_words is)
unfolding encode_body write_words
encode_body-set [] buff e = ([], ap ok (sym (append-nil buff)), refl)
encode_body-set (i ∷ is) buff e =
    let (w, ws, ei, n) = encode_instruction-set i (ground arith) in
    let (vs, er, m) = encode_body-set is (buff ++ write_words (w ∷ ws)) (ground arith) in
    (
      (w ∷ ws) ++ vs,
      rw (ei, er)
          (ap ok (
            append_assoc buff (write_words (w ∷ ws)) (write_words vs)
            ∙ ap (λ t. buff ++ t) (sym (write_words-append (w ∷ ws) vs)))),
      length-append (w ∷ ws) vs ∙ omega (arith, n, m),
    )

encode_body-unset :
    (is : List Instruction) (buff : List ℕ)
    → body_set is ≡ false
    → encode_body is buff ≡ err unknown_opcode_type
unfolding encode_body
encode_body-unset [] buff e = cc
encode_body-unset (i ∷ is) buff e = elim (Bool-cases (instruction_set i)) [
  | inl here ↦
      let (w, ws, ei, n) = encode_instruction-set i here in
      rw ei (encode_body-unset is (buff ++ write_words (w ∷ ws)) (ground arith))
  | inr gone ↦ rw (encode_instruction-unset i gone)
]

length-write_func_info :
    (o : Option FuncInfo) (buff : List ℕ)
    → length (write_func_info o buff) ≡ length buff + 8 * has_info o
unfolding write_func_info
length-write_func_info none buff = omega arith
length-write_func_info (some info) buff = omega (
  arith,
  length-append (buff ++ le_bytes 4 info.insn_off) (le_bytes 4 info.type_id),
  length-append buff (le_bytes 4 info.insn_off),
  length-le_bytes 4 info.insn_off,
  length-le_bytes 4 info.type_id,
)

-- How much the two buffers grow.
Grown : List Functions → List ℕ → List ℕ → List ℕ × List ℕ → Type 0
Grown fs prog info r =
    (length r.0 ≡ length prog + 8 * functions_words fs)
    × (length r.1 ≡ length info + 8 * info_count fs)

encode_functions-set :
    (fs : List Functions) (prog info : List ℕ)
    → functions_set fs ≡ true
    → (r : List ℕ × List ℕ) × (encode_functions fs prog info ≡ ok r) × Grown fs prog info r
unfolding encode_functions Grown
encode_functions-set [] prog info e = ((prog, info), refl, omega arith)
encode_functions-set (f ∷ fs) prog info e =
    let (ws, eb, n) = encode_body-set f.instructions prog (ground arith) in
    let next = write_func_info f.func_info info in
    let (r, er, g) = encode_functions-set fs (prog ++ write_words ws) next (ground arith) in
    (
      r,
      rw (eb, er),
      omega (
        arith,
        g,
        n,
        length-append prog (write_words ws),
        length-write_words ws,
        length-write_func_info f.func_info info,
      ),
    )

encode_functions-unset :
    (fs : List Functions) (prog info : List ℕ)
    → functions_set fs ≡ false
    → encode_functions fs prog info ≡ err unknown_opcode_type
unfolding encode_functions
encode_functions-unset [] prog info e = cc
encode_functions-unset (f ∷ fs) prog info e = elim (Bool-cases (body_set f.instructions)) [
  | inl here ↦
      let (ws, eb, n) = encode_body-set f.instructions prog here in
      rw eb (encode_functions-unset fs _ _ (ground arith))
  | inr gone ↦ rw (encode_body-unset f.instructions prog gone)
]

-- EncodeInstructions succeeds on every program in which each opcode is set, pseudo instructions
-- included. The program then takes 8 bytes for each 64-bit word of its instructions, a wide
-- instruction counting two, and the func_info 8 bytes for each function that has one.
pub encode_instructions-set :
    (p : Program)
    → functions_set p.functions ≡ true
    → (prog : List ℕ) × (info : List ℕ) × (encode_instructions p ≡ ok (prog, info))
      × (length prog ≡ 8 * functions_words p.functions)
      × (length info ≡ 8 * info_count p.functions)
unfolding encode_instructions Grown
encode_instructions-set p e =
    let (r, er, g) = encode_functions-set p.functions [] [] e in
    (r.0, r.1, er, omega (arith, g), omega (arith, g))

-- EncodeInstructions fails with UnknownOpcodeType on every program in which some opcode is not set,
-- whatever it had encoded before, and never panics.
pub encode_instructions-unset :
    (p : Program)
    → functions_set p.functions ≡ false
    → encode_instructions p ≡ err unknown_opcode_type
unfolding encode_instructions
encode_instructions-unset p e = encode_functions-unset p.functions [] [] e

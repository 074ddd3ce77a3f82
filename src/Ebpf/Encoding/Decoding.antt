-- ===== src/Ebpf/Encoding/Decoding.antt =====
-- Whole programs read back: the bytes of EncodeInstructions determine the instructions.
use mathlib.Core.Option
use buzzer.Common.{
  ℕ, suc, ◌+◌, ◌*◌, ◌≡◌, refl, ap, ◌∙◌, sym, arith, List, [], ◌∷◌, ◌++◌, some, length,
  length-append, All, All-append, append_assoc, append-nil,
}
use buzzer.Common.Run.{ok}
use buzzer.Common.Words.{IsU64}
use buzzer.Ebpf.{Instruction, Functions, Program}
use buzzer.Ebpf.Encoding.{
  encode_instruction, write_words, encode_body, write_func_info, encode_functions,
  encode_instructions,
}
use buzzer.Ebpf.Encoding.Bytes.{
  write_words-append, length-write_words, read_words, read_words-write_words,
}
use buzzer.Ebpf.Encoding.Format.{IsInstruction, decode_first, decode_all}
use buzzer.Ebpf.Encoding.RoundTrip.{decode_first-encode_instruction}

decode_all-first :
    (fuel : ℕ) (ws : List ℕ) (i : Instruction) (rest : List ℕ)
    → decode_first ws ≡ some (i, rest)
    → decode_all (suc fuel) ws ≡ Option.map (λ is. i ∷ is) (decode_all fuel rest)
unfolding decode_all decode_first
decode_all-first fuel [] i rest e = cc
decode_all-first fuel (w ∷ ws) i rest e = rw (e, decode_all)

-- The words of a list of instructions: they decode to it, in front of any other words.
pub record Decodes (is : List Instruction) (ws : List ℕ) : Type 0 where
  pub wide : All IsU64 ws
  pub back :
      (n m : ℕ) (rest : List ℕ) (js : List Instruction)
      → n ≡ length is + m
      → decode_all m rest ≡ some js
      → decode_all n (ws ++ rest) ≡ some (is ++ js)

Decodes-nil : Decodes [] []
Decodes-nil = record {
  wide = tt;
  back = λ n m rest js e h. let same : n ≡ m = omega arith in rw same h;
}

Decodes-append :
    (is js : List Instruction) (us vs : List ℕ)
    → Decodes is us
    → Decodes js vs
    → Decodes (is ++ js) (us ++ vs)
Decodes-append is js us vs d e = record {
  wide = All-append IsU64 us vs d.wide e.wide;
  back = λ n m rest ks p h.
      rw (append_assoc us vs rest, append_assoc is js ks)
        (d.back n (length js + m) (vs ++ rest) (js ++ ks) (omega (arith, length-append is js))
          (e.back (length js + m) m rest ks refl h));
}

Decodes-one :
    (i : Instruction)
    → IsInstruction i
    → (ws : List ℕ) × (encode_instruction i ≡ ok ws) × Decodes (i ∷ []) ws
Decodes-one i h =
    let (ws, e, wide, first) = decode_first-encode_instruction i h in
    (
      ws,
      e,
      record {
        wide = wide;
        back = λ n m rest js p d.
            let more : n ≡ suc m = omega arith in
            rw (more, decode_all-first m (ws ++ rest) i rest (first rest), d);
      },
    )

encode_body-Decodes :
    (is : List Instruction) (buff : List ℕ)
    → All IsInstruction is
    → (ws : List ℕ) × (encode_body is buff ≡ ok (buff ++ write_words ws)) × Decodes is ws
unfolding encode_body write_words
encode_body-Decodes [] buff h = ([], ap ok (sym (append-nil buff)), Decodes-nil)
encode_body-Decodes (i ∷ is) buff (h, hs) =
    let (ws, ei, d) = Decodes-one i h in
    let (vs, er, ds) = encode_body-Decodes is (buff ++ write_words ws) hs in
    (
      ws ++ vs,
      rw (ei, er)
          (ap ok (
            append_assoc buff (write_words ws) (write_words vs)
            ∙ ap (λ t. buff ++ t) (sym (write_words-append ws vs)))),
      Decodes-append (i ∷ []) is ws vs d ds,
    )

abbrev pub all_instructions : List Functions → List Instruction
all_instructions [] = []
all_instructions (f ∷ fs) = f.instructions ++ all_instructions fs

abbrev pub AreInstructions : List Functions → Type 0
AreInstructions [] = Unit {0}
AreInstructions (f ∷ fs) = All IsInstruction f.instructions × AreInstructions fs

abbrev all_infos : List Functions → List ℕ → List ℕ
all_infos [] info = info
all_infos (f ∷ fs) info = all_infos fs (write_func_info f.func_info info)

encode_functions-Decodes :
    (fs : List Functions) (prog info : List ℕ)
    → AreInstructions fs
    → (ws : List ℕ) × (encode_functions fs prog info
        ≡ ok (prog ++ write_words ws, all_infos fs info))
      × Decodes (all_instructions fs) ws
unfolding encode_functions write_words
encode_functions-Decodes [] prog info h =
    ([], ap (λ t. ok (t, info)) (sym (append-nil prog)), Decodes-nil)
encode_functions-Decodes (f ∷ fs) prog info (h, hs) =
    let (ws, eb, d) = encode_body-Decodes f.instructions prog h in
    let next = write_func_info f.func_info info in
    let (vs, er, ds) = encode_functions-Decodes fs (prog ++ write_words ws) next hs in
    (
      ws ++ vs,
      rw (eb, er)
          (ap (λ t. ok (t, all_infos fs next))
            (append_assoc prog (write_words ws) (write_words vs)
              ∙ ap (λ t. prog ++ t) (sym (write_words-append ws vs)))),
      Decodes-append f.instructions (all_instructions fs) ws vs d ds,
    )

-- For a program of instructions that the format can carry, the bytes that EncodeInstructions returns,
-- read as `n` words of 8 bytes in little endian, decode to the instructions of all the functions, in
-- order.
pub decode_all-encode_instructions :
    (p : Program)
    → AreInstructions p.functions
    → (prog : List ℕ) × (info : List ℕ) × (n : ℕ) × (encode_instructions p ≡ ok (prog, info))
      × (length prog ≡ 8 * n)
      × (decode_all (length (all_instructions p.functions)) (read_words n prog)
          ≡ some (all_instructions p.functions))
unfolding encode_instructions
decode_all-encode_instructions p h =
    let (ws, e, d) = encode_functions-Decodes p.functions [] [] h in
    let is = all_instructions p.functions in
    let words : read_words (length ws) (write_words ws) ≡ ws =
      rw (append-nil (write_words ws)) at (read_words-write_words ws [] d.wide) in
    let whole : decode_all (length is) (ws ++ []) ≡ some (is ++ []) =
      d.back (length is) 0 [] [] (omega arith) (unfold decode_all in refl) in
    (
      write_words ws,
      all_infos p.functions [],
      length ws,
      e,
      length-write_words ws,
      rw words (rw (append-nil ws, append-nil is) at whole),
    )

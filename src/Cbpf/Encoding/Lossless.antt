-- ===== src/Cbpf/Encoding/Lossless.antt =====
-- What a filter keeps of an instruction.
use buzzer.Common.{
  ◌%◌, ◌^◌, ◌<◌, ◌≡◌, refl, sym, ap, ◌∙◌, ◌↔◌, arith, List, [], ◌∷◌, ◌++◌, map, All, append_assoc,
  append-nil,
}
use mathlib.Core.List.{tail}
use buzzer.Cbpf.{Instruction}
use buzzer.Cbpf.Encoding.{Filter, encode_filter, append_filters, encode_cbpf_instructions}

-- The instruction that a filter stands for.
abbrev pub decode_filter : Filter → Instruction
decode_filter f = record { opcode = f.opcode; jt = f.jt; jf = f.jf; k = f.k }

-- 16 bits of opcode and 8 bits for each offset.
abbrev pub Fits : Instruction → Type 0
Fits i = (i.opcode < 2 ^ 16) × (i.jt < 2 ^ 8) × (i.jf < 2 ^ 8)

append_filters-map :
    (result : List Filter) (is : List Instruction)
    → append_filters result is ≡ result ++ map encode_filter is
unfolding append_filters
append_filters-map result [] = sym (append-nil result)
append_filters-map result (i ∷ is) =
    append_filters-map (result ++ encode_filter i ∷ []) is
    ∙ append_assoc result (encode_filter i ∷ []) (map encode_filter is)

pub encode_cbpf_instructions-map :
    (is : List Instruction) → encode_cbpf_instructions is ≡ map encode_filter is
unfolding encode_cbpf_instructions
encode_cbpf_instructions-map is = append_filters-map [] is

fits : (i : Instruction) → decode_filter (encode_filter i) ≡ i → Fits i
fits i e =
    let o : i.opcode % 2 ^ 16 ≡ i.opcode = ap (λ (j : Instruction). j.opcode) e in
    let t : i.jt % 2 ^ 8 ≡ i.jt = ap (λ (j : Instruction). j.jt) e in
    let f : i.jf % 2 ^ 8 ≡ i.jf = ap (λ (j : Instruction). j.jf) e in omega arith

kept : (i : Instruction) → Fits i → decode_filter (encode_filter i) ≡ i
kept i (o, t, f) =
    let o' : i.opcode % 2 ^ 16 ≡ i.opcode = omega arith in
    let t' : i.jt % 2 ^ 8 ≡ i.jt = omega arith in
    let f' : i.jf % 2 ^ 8 ≡ i.jf = omega arith in rw (o', t', f') refl

abbrev first_or : Instruction → List Instruction → Instruction
first_or i [] = i
first_or i (j ∷ js) = j

abbrev decoded : List Instruction → List Instruction
decoded is = map decode_filter (map encode_filter is)

decoded-All : (is : List Instruction) → decoded is ≡ is → All Fits is
decoded-All [] e = tt
decoded-All (i ∷ is) e = (fits i (ap (first_or i) e), decoded-All is (ap tail e))

All-decoded : (is : List Instruction) → All Fits is → decoded is ≡ is
All-decoded [] h = refl
All-decoded (i ∷ is) (h, hs) = rw (kept i h, All-decoded is hs)

-- The filters of encodeCbpfInstructions decode to the program's instructions, in order, exactly where
-- every opcode fits 16 bits and every offset 8 bits; the others are cut off without an error.
pub encode_cbpf_instructions-lossless :
    (is : List Instruction) → (map decode_filter (encode_cbpf_instructions is) ≡ is) ↔ All Fits is
encode_cbpf_instructions-lossless is =
    rw (encode_cbpf_instructions-map is) (decoded-All is, All-decoded is)

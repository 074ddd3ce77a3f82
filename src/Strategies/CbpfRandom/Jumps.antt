-- ===== src/Strategies/CbpfRandom/Jumps.antt =====
-- Where the jumps of a random classic BPF program go, and where it ends.
use buzzer.Common.{
  ℕ, zero, suc, ◌+◌, ◌%◌, ◌^◌, ◌≤◌, ◌<◌, ◌≡◌, ◌≢◌, ◌⊎◌, ◌/◌, inr, refl, ap, arith, List, [], ◌∷◌,
  ◌++◌, map, length, length-append, length-map, ◌&◌, ◌==◌,
}
use buzzer.Cbpf.{Instruction, int, reg_a}
use buzzer.Cbpf.Alu.{add, misc, ret, new_alu_instruction}
use buzzer.Cbpf.Encoding.{Filter, encode_filter, encode_cbpf_instructions}
use buzzer.Cbpf.Encoding.Lossless.{encode_cbpf_instructions-map}
use buzzer.Cbpf.Generators.{random_alu_instruction}
use buzzer.Cbpf.Generators.Ranges.{
  IsCbpfJmp, random_alu_instruction-IsCbpfAlu, random_jmp_instruction-IsCbpfJmp,
}
use buzzer.Cbpf.Generators.Memory.{
  random_store_instruction-IsCbpfStore, random_load_instruction-IsCbpfLoad,
}
use buzzer.Rand.Bounds.{rand_int-IsU64}
use buzzer.Rand.Draws.{Yields, Yields-give, Yields-bind, Yields-if, Yields-map}
use buzzer.Strategies.CbpfRandom.{
  CbpfRandomInstruction, body_instruction, append_body, generate_program,
}

-- A jump with `n` filters behind it lands on one of them: a Ja, whose operation is 0, by its K, and a
-- conditional jump in both cases.
abbrev pub Lands : ℕ → Filter → Type 0
Lands n f =
    (f.opcode % 8 ≡ 5)
    → ((f.opcode / 16 ≡ 0) × (f.k < n)) ⊎ ((1 ≤ f.opcode / 16) × (f.jt < n) × (f.jf < n))

-- Every jump of a program lands in it.
abbrev pub JumpsLand : List Filter → Type 0
JumpsLand [] = Unit {0}
JumpsLand (f ∷ fs) = Lands (length fs) f × JumpsLand fs

-- The program's last instruction returns a constant.
abbrev pub EndsInRet : List Filter → Type 0
EndsInRet [] = ⊥
EndsInRet (f ∷ []) = f.opcode ≡ 0x06
EndsInRet (f ∷ g ∷ fs) = EndsInRet (g ∷ fs)

abbrev pub IsCbpfProgram : List Instruction → Type 0
IsCbpfProgram is = JumpsLand (encode_cbpf_instructions is) × EndsInRet (encode_cbpf_instructions is)

-- An instruction of another class, and a jump that RandomJmpInstruction returned.
other-Lands :
    (n : ℕ) (i : Instruction) → (i.opcode < 2 ^ 8) → i.opcode % 8 ≢ 5 → Lands n (encode_filter i)
other-Lands n i h c = λ e. absurd (omega arith)

jmp-Lands : (max : ℕ) (i : Instruction) → IsCbpfJmp max i → Lands (suc max) (encode_filter i)
jmp-Lands max i j = λ e.
    let byte = j.byte in
    let operation = j.operation in inr (omega arith, omega (arith, j.jt), omega (arith, j.jf))

body_instruction-Lands :
    (left : ℕ)
    → left + 1 < 2 ^ 63
    → Yields (λ i. Lands (suc left) (encode_filter i)) (body_instruction left)
unfolding body_instruction
body_instruction-Lands left h = Yields-bind rand_int-IsU64 λ t _.
    Yields-if (t % 4 == 0)
      (λ _.
        Yields-map random_store_instruction-IsCbpfStore
          λ i s. other-Lands (suc left) i s.byte (omega (arith, s.class)))
      λ _.
        Yields-if (t % 4 == 1)
          (λ _.
            Yields-map random_load_instruction-IsCbpfLoad
              λ i l. other-Lands (suc left) i l.byte (omega (arith, l.class)))
          λ _.
            Yields-if (t % 4 == 2)
              (λ _.
                Yields-if (left == 0) (λ _. alu)
                  λ e.
                    Yields-map (random_jmp_instruction-IsCbpfJmp left (ground arith) h)
                      (jmp-Lands left))
              λ _. alu
  where
    alu : Yields (λ i. Lands (suc left) (encode_filter i)) random_alu_instruction
    alu =
        Yields-map random_alu_instruction-IsCbpfAlu
          λ i a. other-Lands (suc left) i a.byte (omega (arith, a.class))

Lands-same : (n m : ℕ) (f : Filter) → n ≡ m → Lands n f → Lands m f
Lands-same n m f e l = λ c. rw⁻¹ e (l c)

-- Every jump lands, with `n` more instructions to come behind these.
abbrev Within : ℕ → List Instruction → Type 0
Within n [] = Unit {0}
Within n (i ∷ is) = Lands (length is + n) (encode_filter i) × Within n is

Within-snoc :
    (n : ℕ) (is : List Instruction) (i : Instruction)
    → Within (suc n) is
    → Lands n (encode_filter i)
    → Within n (is ++ i ∷ [])
Within-snoc n [] i w l = (Lands-same n (0 + n) (encode_filter i) (omega arith) l, tt)
Within-snoc n (j ∷ is) i (l', w) l = (
  Lands-same _ (length (is ++ i ∷ []) + n) (encode_filter j)
      (omega (arith, length-append is (i ∷ []))) l',
  Within-snoc n is i w l,
)

Within-JumpsLand : (is : List Instruction) → Within 0 is → JumpsLand (map encode_filter is)
Within-JumpsLand [] w = tt
Within-JumpsLand (i ∷ is) (l, w) = (
  Lands-same _ (length (map encode_filter is)) (encode_filter i)
      (omega (arith, length-map encode_filter is)) l,
  Within-JumpsLand is w,
)

append_body-Within :
    (left : ℕ) (is : List Instruction)
    → left < 2 ^ 62
    → Within (suc left) is
    → Yields (λ js. Within 1 js × (length js ≡ length is + left)) (append_body left is)
unfolding append_body
append_body-Within zero is h w = Yields-give (w, omega arith)
append_body-Within (suc left) is h w =
    Yields-bind (body_instruction-Lands left (omega arith)) λ i l.
      Yields-map
        (append_body-Within left (is ++ i ∷ []) (omega arith) (Within-snoc (suc left) is i w l))
        λ js (w', e). (w', omega (arith, e, length-append is (i ∷ [])))

EndsInRet-snoc : (fs : List Filter) (f : Filter) → f.opcode ≡ 0x06 → EndsInRet (fs ++ f ∷ [])
EndsInRet-snoc [] f e = e
EndsInRet-snoc (g ∷ []) f e = e
EndsInRet-snoc (g ∷ h ∷ fs) f e = EndsInRet-snoc (h ∷ fs) f e

map-snoc :
    (is : List Instruction) (i : Instruction)
    → map encode_filter (is ++ i ∷ []) ≡ map encode_filter is ++ encode_filter i ∷ []
map-snoc [] i = refl
map-snoc (j ∷ is) i = ap (λ fs. encode_filter j ∷ fs) (map-snoc is i)

finished : (is : List Instruction) → Within 1 is → IsCbpfProgram (is ++ ret (int 4) ∷ [])
unfolding ret
finished is w = rw (encode_cbpf_instructions-map (is ++ ret (int 4) ∷ [])) (
  Within-JumpsLand (is ++ ret (int 4) ∷ [])
      (Within-snoc 0 is (ret (int 4)) w λ e. absurd (omega arith)),
  rw (map-snoc is (ret (int 4))) (EndsInRet-snoc (map encode_filter is) _ refl),
)

-- Every program that GenerateProgram returns has 3 to 1002 instructions and is encoded to filters of
-- which each jump lands on another one of them, a Ja by its K and a conditional jump in both cases, and the last returns. Generating it
-- never panics.
pub generate_program-IsCbpfProgram :
    (cr : CbpfRandomInstruction)
    → Yields
        (λ (g : CbpfRandomInstruction × List Instruction).
          IsCbpfProgram g.1 × (3 ≤ length g.1) × (length g.1 ≤ 1002))
        (generate_program cr)
unfolding generate_program add misc new_alu_instruction
generate_program-IsCbpfProgram cr = Yields-bind rand_int-IsU64 λ v _.
    Yields-bind
      (append_body-Within (v % 1000) (add (int 1) ∷ misc reg_a ∷ []) (omega arith)
        ((λ e. absurd (omega arith)) & (λ e. absurd (omega arith)) & tt))
      λ is (w, n). Yields-give (
        finished is w,
        omega (arith, n, length-append is (ret (int 4) ∷ [])),
        omega (arith, n, length-append is (ret (int 4) ∷ [])),
      )

-- ===== src/Strategies/Targets.antt =====
-- Where the jumps of a program go. Offsets count 64-bit words, a wide instruction having two.
use buzzer.Common.{
  ℕ, zero, suc, ◌≤◌, ◌≡◌, refl, arith, List, [], ◌∷◌, ◌++◌, Bool, true, false, length, All,
  length-append, ◌⊎◌, inl, inr,
}
use buzzer.Ebpf.{
  Instruction, Fields, Opcode, unset, alu_opcode, jmp_opcode, mem_opcode, empty, pseudo_value,
  fields,
}
use buzzer.Ebpf.Encoding.Format.{IsInstruction}
use buzzer.Ebpf.Generators.{is_conditional}
use buzzer.Ebpf.Generators.Alu.{IsRandomAlu, AluRule}
use buzzer.Ebpf.Generators.Jumps.{IsRandomJmp, JmpRule}
use buzzer.Ebpf.Generators.Memory.{IsRandomMem, MemRule}

-- `n` words further on from the first of these instructions another one begins.
abbrev pub lands : ℕ → List Instruction → Bool
lands n [] = false
lands zero (i ∷ is) = true
lands (suc n) (empty i ∷ is) = lands n is
lands (suc zero) (pseudo_value i p ∷ is) = false
lands (suc (suc n)) (pseudo_value i p ∷ is) = lands n is

-- The instruction does not take two words, and a conditional jump goes over at most `n` others.
abbrev pub OpcodeWithin : ℕ → Opcode → ℕ → Type 0
OpcodeWithin n unset offset = ⊥
OpcodeWithin n (alu_opcode c) offset = Unit {0}
OpcodeWithin n (mem_opcode c) offset = Unit {0}
OpcodeWithin n (jmp_opcode c) offset = offset ≤ n

abbrev pub Within : ℕ → Instruction → Type 0
Within n (empty i) = OpcodeWithin n i.opcode i.offset
Within n (pseudo_value i p) = ⊥

-- Every jump of a body stays in it, or goes to the instruction right behind it.
abbrev pub JumpsWithin : List Instruction → Type 0
JumpsWithin [] = Unit {0}
JumpsWithin (i ∷ is) = Within (length is) i × JumpsWithin is

-- Every conditional jump of a program goes forward to the start of an instruction of it.
abbrev pub OpcodeLands : List Instruction → Opcode → ℕ → Type 0
OpcodeLands is (jmp_opcode c) offset =
    (is_conditional c.operation_code ≡ false) ⊎ (lands offset is ≡ true)
OpcodeLands is unset offset = Unit {0}
OpcodeLands is (alu_opcode c) offset = Unit {0}
OpcodeLands is (mem_opcode c) offset = Unit {0}

abbrev pub JumpsLand : List Instruction → Type 0
JumpsLand [] = Unit {0}
JumpsLand (i ∷ is) = OpcodeLands is (fields i).opcode (fields i).offset × JumpsLand is

AluRule-OpcodeWithin :
    (n : ℕ) (c : Opcode) (imm offset : ℕ) → AluRule c imm → OpcodeWithin n c offset
AluRule-OpcodeWithin n (alu_opcode c) imm offset h = tt
AluRule-OpcodeWithin n other imm offset h = absurd h

MemRule-OpcodeWithin :
    (n : ℕ) (i : Fields) (c : Opcode) (offset : ℕ) → MemRule i c → OpcodeWithin n c offset
MemRule-OpcodeWithin n i (mem_opcode c) offset h = tt
MemRule-OpcodeWithin n i other offset h = absurd h

JmpRule-OpcodeWithin :
    (n : ℕ) (c : Opcode) (offset : ℕ) → JmpRule c → offset ≤ n → OpcodeWithin n c offset
JmpRule-OpcodeWithin n (jmp_opcode c) offset h p = p
JmpRule-OpcodeWithin n other offset h p = absurd h

pub IsRandomAlu-Within : (n : ℕ) (i : Instruction) → IsRandomAlu i → Within n i
IsRandomAlu-Within n (empty i) h = AluRule-OpcodeWithin n i.opcode i.immediate i.offset h.1
IsRandomAlu-Within n (pseudo_value i p) h = absurd h

pub IsRandomMem-Within : (n : ℕ) (i : Instruction) → IsRandomMem i → Within n i
IsRandomMem-Within n (empty i) h = MemRule-OpcodeWithin n i i.opcode i.offset h.1
IsRandomMem-Within n (pseudo_value i p) h = absurd h

pub IsRandomJmp-Within : (n max : ℕ) (i : Instruction) → IsRandomJmp max i → max ≤ n → Within n i
IsRandomJmp-Within n max (empty i) h p = JmpRule-OpcodeWithin n i.opcode i.offset h.1 (omega arith)
IsRandomJmp-Within n max (pseudo_value i q) h p = absurd h

-- A jump over at most the rest of a body finds an instruction where something follows the body.
lands-append :
    (n : ℕ) (is : List Instruction) (j : Instruction) (js : List Instruction)
    → JumpsWithin is
    → n ≤ length is
    → lands n (is ++ j ∷ js) ≡ true
lands-append zero [] j js w h = refl
lands-append zero (i ∷ is) j js w h = refl
lands-append (suc n) [] j js w h = absurd (omega arith)
lands-append (suc n) (empty i ∷ is) j js (w, ws) h = lands-append n is j js ws (omega arith)
lands-append (suc n) (pseudo_value i p ∷ is) j js (w, ws) h = absurd w

OpcodeWithin-OpcodeLands :
    (c : Opcode) (offset : ℕ) (is : List Instruction) (j : Instruction) (js : List Instruction)
    → JumpsWithin is
    → OpcodeWithin (length is) c offset
    → OpcodeLands (is ++ j ∷ js) c offset
OpcodeWithin-OpcodeLands unset offset is j js w h = tt
OpcodeWithin-OpcodeLands (alu_opcode c) offset is j js w h = tt
OpcodeWithin-OpcodeLands (mem_opcode c) offset is j js w h = tt
OpcodeWithin-OpcodeLands (jmp_opcode c) offset is j js w h = inr (lands-append offset is j js w h)

pub JumpsLand-append :
    (is : List Instruction) (j : Instruction) (js : List Instruction)
    → JumpsWithin is
    → JumpsLand (j ∷ js)
    → JumpsLand (is ++ j ∷ js)
JumpsLand-append [] j js w h = h
JumpsLand-append (empty i ∷ is) j js (w, ws) h =
    (OpcodeWithin-OpcodeLands i.opcode i.offset is j js ws w, JumpsLand-append is j js ws h)
JumpsLand-append (pseudo_value i p ∷ is) j js (w, ws) h = absurd w

OpcodeWithin-mono :
    (n m : ℕ) (c : Opcode) (offset : ℕ) → n ≤ m → OpcodeWithin n c offset → OpcodeWithin m c offset
OpcodeWithin-mono n m unset offset h w = w
OpcodeWithin-mono n m (alu_opcode c) offset h w = w
OpcodeWithin-mono n m (mem_opcode c) offset h w = w
OpcodeWithin-mono n m (jmp_opcode c) offset h w = omega arith

pub Within-mono : (n m : ℕ) (i : Instruction) → n ≤ m → Within n i → Within m i
Within-mono n m (empty i) h w = OpcodeWithin-mono n m i.opcode i.offset h w
Within-mono n m (pseudo_value i p) h w = w

pub JumpsWithin-append :
    (is js : List Instruction) → JumpsWithin is → JumpsWithin js → JumpsWithin (is ++ js)
JumpsWithin-append [] js w v = v
JumpsWithin-append (i ∷ is) js (w, ws) v = (
  Within-mono (length is) (length (is ++ js)) i (omega (arith, length-append is js)) w,
  JumpsWithin-append is js ws v,
)

-- The random instructions are in the instruction format.
pub IsRandomAlu-IsInstruction : (i : Instruction) → IsRandomAlu i → IsInstruction i
IsRandomAlu-IsInstruction (empty i) h = h.0
IsRandomAlu-IsInstruction (pseudo_value i p) h = absurd h

pub IsRandomJmp-IsInstruction : (n : ℕ) (i : Instruction) → IsRandomJmp n i → IsInstruction i
IsRandomJmp-IsInstruction n (empty i) h = h.0
IsRandomJmp-IsInstruction n (pseudo_value i p) h = absurd h

pub IsRandomMem-IsInstruction : (i : Instruction) → IsRandomMem i → IsInstruction i
IsRandomMem-IsInstruction (empty i) h = h.0
IsRandomMem-IsInstruction (pseudo_value i p) h = absurd h

-- What follows a program does not change where its jumps land.
lands-more : (n : ℕ) (is js : List Instruction) → lands n is ≡ true → lands n (is ++ js) ≡ true
lands-more n [] js h = cc
lands-more zero (i ∷ is) js h = refl
lands-more (suc n) (empty i ∷ is) js h = lands-more n is js h
lands-more (suc zero) (pseudo_value i p ∷ is) js h = cc
lands-more (suc (suc n)) (pseudo_value i p ∷ is) js h = lands-more n is js h

OpcodeLands-more :
    (c : Opcode) (offset : ℕ) (is js : List Instruction)
    → OpcodeLands is c offset
    → OpcodeLands (is ++ js) c offset
OpcodeLands-more unset offset is js h = h
OpcodeLands-more (alu_opcode c) offset is js h = h
OpcodeLands-more (mem_opcode c) offset is js h = h
OpcodeLands-more (jmp_opcode c) offset is js (inl h) = inl h
OpcodeLands-more (jmp_opcode c) offset is js (inr h) = inr (lands-more offset is js h)

pub JumpsLand-join : (is js : List Instruction) → JumpsLand is → JumpsLand js → JumpsLand (is ++ js)
JumpsLand-join [] js h k = k
JumpsLand-join (i ∷ is) js (h, hs) k =
    (OpcodeLands-more (fields i).opcode (fields i).offset is js h, JumpsLand-join is js hs k)

-- An instruction that is no jump lands nowhere else.
abbrev pub NoJump : Opcode → Type 0
NoJump unset = ⊥
NoJump (alu_opcode c) = Unit {0}
NoJump (mem_opcode c) = Unit {0}
NoJump (jmp_opcode c) = ⊥

abbrev pub Straight : Instruction → Type 0
Straight i = NoJump (fields i).opcode

NoJump-OpcodeLands :
    (c : Opcode) (offset : ℕ) (is : List Instruction) → NoJump c → OpcodeLands is c offset
NoJump-OpcodeLands (alu_opcode c) offset is h = tt
NoJump-OpcodeLands (mem_opcode c) offset is h = tt
NoJump-OpcodeLands unset offset is h = absurd h
NoJump-OpcodeLands (jmp_opcode c) offset is h = absurd h

pub Straight-JumpsLand : (is : List Instruction) → All Straight is → JumpsLand is
Straight-JumpsLand [] h = tt
Straight-JumpsLand (i ∷ is) (h, hs) =
    (NoJump-OpcodeLands (fields i).opcode (fields i).offset is h, Straight-JumpsLand is hs)

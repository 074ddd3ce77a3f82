-- ===== src/Common/Text.antt =====
-- Strings as lists of their bytes: strings.Split at one byte, strconv.Atoi and the verb %02x.
use Prim.Native.Nat.{ℕ, zero, suc, ◌+◌, ◌-◌, ◌*◌, ◌/◌, ◌%◌, ◌^◌}
use mathlib.Core.Path.{◌≡◌, refl, ap, sym, ◌∙◌}
use mathlib.Core.List.{List, [], ◌∷◌, ◌++◌}
use mathlib.Core.Bool.{Bool, true, false, ◌&&◌, ◌||◌}
use mathlib.Core.Option.{Option, none, some}
use mathlib.Core.Logic.{inl, inr, ◌↔◌}
use native.Mathlib.Omega.{arith}
use buzzer.Common.Lists.{All}
use buzzer.Common.Tests.{ltb, leb, ◌==◌, if◌then◌else◌, Bool-cases}

abbrev pub same_text : List ℕ → List ℕ → Bool
same_text [] [] = true
same_text [] (y ∷ ys) = false
same_text (x ∷ xs) [] = false
same_text (x ∷ xs) (y ∷ ys) = x == y && same_text xs ys

-- A byte in front of the first part.
abbrev pub onto_first : ℕ → List (List ℕ) → List (List ℕ)
onto_first c [] = (c ∷ []) ∷ []
onto_first c (part ∷ parts) = (c ∷ part) ∷ parts

-- `strings.Split(s, sep)`, which has at least one part.
unfoldable pub split : ℕ → List ℕ → List (List ℕ)
split sep [] = [] ∷ []
split sep (c ∷ cs) = if c == sep then [] ∷ split sep cs else onto_first c (split sep cs)

abbrev pub contains : ℕ → List ℕ → Bool
contains sep [] = false
contains sep (c ∷ cs) = c == sep || contains sep cs

-- The digits of a number, with what comes before them.
unfoldable pub parse_digits : ℕ → List ℕ → Option ℕ
parse_digits n [] = some n
parse_digits n (c ∷ cs) =
    let rest = parse_digits (n * 10 + (c - 48)) cs in if leb 48 c && leb c 57 then rest else none

abbrev in_range : ℕ → Option ℕ → Option ℕ
in_range limit none = none
in_range limit (some n) = if ltb n limit then some n else none

-- `strconv.Atoi`: the bit pattern of an int, or an error.
unfoldable pub atoi : List ℕ → Option ℕ
unfolding parse_digits
atoi [] = none
atoi (c ∷ []) = if leb 48 c && leb c 57 then some (c - 48) else none
atoi (c ∷ d ∷ cs) =
    if c == 43
    then in_range (2 ^ 63) (parse_digits 0 (d ∷ cs))
    else if c == 45
    then elim (in_range (2 ^ 63 + 1) (parse_digits 0 (d ∷ cs))) [
      | none ↦ none
      | some n ↦ some ((2 ^ 64 - n) % 2 ^ 64)
    ]
    else in_range (2 ^ 63) (parse_digits 0 (c ∷ d ∷ cs))

abbrev hex_digit : ℕ → ℕ
hex_digit d = if ltb d 10 then 48 + d else 87 + d

unfoldable pub hex_digits : ℕ → ℕ → List ℕ → List ℕ
hex_digits zero x rest = rest
hex_digits (suc fuel) x rest =
    let more = hex_digits fuel (x / 16) (hex_digit (x % 16) ∷ rest) in if x == 0 then rest else more

-- `fmt.Sprintf("%02x", x)` of a uint64, which has 16 digits at most.
unfoldable pub hex : ℕ → List ℕ
unfolding hex_digits
hex x = if ltb x 16 then 48 ∷ hex_digit x ∷ [] else hex_digits 16 x []

abbrev pub last_part : List (List ℕ) → List ℕ
last_part [] = []
last_part (part ∷ []) = part
last_part (part ∷ next ∷ parts) = last_part (next ∷ parts)

abbrev pub first_part : List (List ℕ) → List ℕ
first_part [] = []
first_part (part ∷ parts) = part

module _ (sep : ℕ) where
  pub split_none : (cs : List ℕ) → contains sep cs ≡ false → split sep cs ≡ cs ∷ []
  unfolding split
  split_none [] h = refl
  split_none (c ∷ cs) h = elim (Bool-cases (c == sep)) [
    | inl e ↦ ground arith
    | inr e ↦ rw (e, split_none cs (ground arith)) refl
  ]

  pub split_first :
      (cs rest : List ℕ)
      → contains sep cs ≡ false
      → split sep (cs ++ sep ∷ rest) ≡ cs ∷ split sep rest
  unfolding split
  split_first [] rest h = let same : (sep == sep) ≡ true = ground arith in rw same refl
  split_first (c ∷ cs) rest h = elim (Bool-cases (c == sep)) [
    | inl e ↦ ground arith
    | inr e ↦ rw (e, split_first cs rest (ground arith)) refl
  ]

  pub contains-append :
      (cs ds : List ℕ)
      → contains sep cs ≡ false
      → contains sep ds ≡ false
      → contains sep (cs ++ ds) ≡ false
  contains-append [] ds h k = k
  contains-append (c ∷ cs) ds h k = ground (arith, contains-append cs ds)

  -- What follows the last separator is the last part.
  split_last :
      (cs rest : List ℕ)
      → contains sep rest ≡ false
      → (part : List ℕ) × (next : List ℕ) × (parts : List (List ℕ)) × (split sep (cs ++ sep ∷ rest)
          ≡ part ∷ next ∷ parts)
        × (last_part (next ∷ parts) ≡ rest)
  unfolding split
  split_last [] rest h =
      let same : (sep == sep) ≡ true = ground arith in
      ([], rest, [], rw (same, split_none rest h) refl, refl)
  split_last (c ∷ cs) rest h =
      let (part, next, parts, e, last) = split_last cs rest h in
      elim (Bool-cases (c == sep)) [
        | inl s ↦ ([], part, next ∷ parts, rw (s, e) refl, last)
        | inr n ↦ (c ∷ part, next, parts, rw (n, e) refl, last)
      ]

  pub last_part-split :
      (cs rest : List ℕ)
      → contains sep rest ≡ false
      → last_part (split sep (cs ++ sep ∷ rest)) ≡ rest
  last_part-split cs rest h = let (part, next, parts, e, last) = split_last cs rest h in rw e last

same_text_refl : (s : List ℕ) → same_text s s ≡ true
same_text_refl [] = refl
same_text_refl (x ∷ xs) =
    let same : (x == x) ≡ true = ground arith in rw (same, same_text_refl xs) refl

same_text-equal : (s t : List ℕ) → same_text s t ≡ true → s ≡ t
same_text-equal [] [] e = refl
same_text-equal [] (y ∷ ys) e = cc
same_text-equal (x ∷ xs) [] e = cc
same_text-equal (x ∷ xs) (y ∷ ys) e =
    let head : x ≡ y = ground arith in
    let tail : same_text xs ys ≡ true = ground arith in rw (head, same_text-equal xs ys tail) refl

pub same_text_iff : (s t : List ℕ) → (same_text s t ≡ true) ↔ (s ≡ t)
same_text_iff s t = (same_text-equal s t, λ e. ap (same_text s) (sym e) ∙ same_text_refl s)

-- Lines, each with the separator at its end.
abbrev pub unlines : ℕ → List (List ℕ) → List ℕ
unlines sep [] = []
unlines sep (line ∷ lines) = line ++ sep ∷ unlines sep lines

pub split-unlines :
    (sep : ℕ) (lines : List (List ℕ))
    → All (λ line. contains sep line ≡ false) lines
    → split sep (unlines sep lines) ≡ lines ++ [] ∷ []
unfolding split
split-unlines sep [] h = refl
split-unlines sep (line ∷ lines) (clean, h) =
    split_first sep line (unlines sep lines) clean
    ∙ ap (λ ls. line ∷ ls) (split-unlines sep lines h)

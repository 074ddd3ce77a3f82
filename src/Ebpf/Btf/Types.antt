-- ===== src/Ebpf/Btf/Types.antt =====
-- The type section, read back by a reader that knows how much data each kind has and what it says.
use buzzer.Common.{
  ℕ, zero, suc, ◌*◌, ◌≡◌, ◌≢◌, ◌⊎◌, refl, ◌∙◌, arith, List, [], ◌∷◌, ◌++◌, Option, none, some, true,
  false, length, length-append, take, drop, take-append, drop-append, All, ltb, ◌==◌, ◌||◌,
  if◌then◌else◌,
}
use mathlib.Core.Option
use buzzer.Common.Run.{ok}
use buzzer.Ebpf.Btf.{
  BtfParam, Info, Extra, no_data, absent, int_type_data, struct_type_data, func_proto_type_data,
  BtfType, encode_type_info, param_data, extra_data, one_type_data, type_data,
}
use buzzer.Ebpf.Btf.TypeInfo.{IsInfo, read_info, read_info-encode_type_info}

-- The int32 numbers that follow the three common ones, by the kernel's documentation of BTF: an encoding (1, 14,
-- 17), an array (3), 3 for each member of a struct, union, section or enum64 (4, 5, 15, 19), and 2 for each
-- value of an enum or parameter of a prototype (6, 13).
unfoldable pub extra_size : ℕ → ℕ → ℕ
extra_size kind vlen =
    if kind == 1 || kind == 14 || kind == 17
    then 1
    else if kind == 3
    then 3
    else if kind == 4 || kind == 5 || kind == 15 || kind == 19
    then 3 * vlen
    else if kind == 6 || kind == 13
    then 2 * vlen
    else 0

-- Numbers in pairs.
unfoldable pub read_params : List ℕ → Option (List BtfParam)
read_params [] = some []
read_params (x ∷ []) = none
read_params (x ∷ y ∷ xs) =
    Option.map (λ params. record { name_off = x; param_type = y } ∷ params) (read_params xs)

-- The data of a kind without pairs, by how much of it there is.
abbrev read_plain : List ℕ → Option Extra
read_plain [] = some no_data
read_plain (x ∷ []) = some (int_type_data x)
read_plain (x ∷ y ∷ []) = none
read_plain (x ∷ y ∷ z ∷ []) =
    some (struct_type_data (record { name_off = x; struct_type = y; offset = z }))
read_plain (x ∷ y ∷ z ∷ w ∷ xs) = none

unfoldable pub read_extra : ℕ → List ℕ → Option Extra
unfolding read_params
read_extra kind xs =
    if kind == 6 || kind == 13
    then Option.map func_proto_type_data (read_params xs)
    else read_plain xs

abbrev both : (Extra → BtfType) → Option Extra → Option (List BtfType) → Option (List BtfType)
both build none types = none
both build (some extra) none = none
both build (some extra) (some types) = some (build extra ∷ types)

-- `n` types, from all of the numbers.
unfoldable pub read_types : ℕ → List ℕ → Option (List BtfType)
read_types zero [] = some []
read_types (suc n) [] = none
read_types zero (x ∷ xs) = none
read_types (suc n) (x ∷ []) = none
read_types (suc n) (x ∷ y ∷ []) = none
read_types (suc n) (x ∷ w ∷ s ∷ xs) =
    let info = read_info w in
    let size = extra_size info.kind info.vlen in
    let others = read_types n (drop size xs) in
    if ltb (length xs) size
    then none
    else both (λ extra. record { name_off = x; info = some info; size_or_type = s; extra = extra })
        (read_extra info.kind (take size xs)) others

-- Whether a message is the one of a kind. A struct or an array has one message of three numbers, and a type
-- without data has the message that says so.
abbrev pub Suits : ℕ → ℕ → Extra → Type 0
Suits kind vlen absent = ⊥
Suits kind vlen no_data = (kind ≢ 6) × (kind ≢ 13) × (extra_size kind vlen ≡ 0)
Suits kind vlen (int_type_data x) = (kind ≡ 1) ⊎ (kind ≡ 14)
Suits kind vlen (struct_type_data e) =
    (kind ≡ 3) ⊎ (((kind ≡ 4) ⊎ (kind ≡ 5) ⊎ (kind ≡ 15)) × (vlen ≡ 1))
Suits kind vlen (func_proto_type_data params) = ((kind ≡ 6) ⊎ (kind ≡ 13)) × (length params ≡ vlen)

-- A type whose message is the one of its kind, without the kind flag.
pub record IsBtfType (t : BtfType) : Type 0 where
  pub type_info : Info
  pub present : t.info ≡ some type_info
  pub in_range : IsInfo type_info
  pub no_flag : type_info.kind_flag ≡ false
  pub suits : Suits type_info.kind type_info.vlen t.extra

length-param_data : (params : List BtfParam) → length (param_data params) ≡ 2 * length params
unfolding param_data
length-param_data [] = refl
length-param_data (param ∷ params) = omega (arith, length-param_data params)

read_params-param_data : (params : List BtfParam) → read_params (param_data params) ≡ some params
unfolding read_params param_data
read_params-param_data [] = refl
read_params-param_data (param ∷ params) = rw (read_params-param_data params) refl

length-extra_data :
    (kind vlen : ℕ) (e : Extra) → Suits kind vlen e → length (extra_data e) ≡ extra_size kind vlen
unfolding extra_data extra_size
length-extra_data kind vlen absent h = absurd h
length-extra_data kind vlen no_data h = ground arith
length-extra_data kind vlen (int_type_data x) h = ground arith
length-extra_data kind vlen (struct_type_data e) h = ground arith
length-extra_data kind vlen (func_proto_type_data params) h =
    ground (arith, length-param_data params)

read_extra-extra_data :
    (kind vlen : ℕ) (e : Extra) → Suits kind vlen e → read_extra kind (extra_data e) ≡ some e
unfolding read_extra extra_data
read_extra-extra_data kind vlen absent h = absurd h
read_extra-extra_data kind vlen no_data h =
    let plain : (kind == 6 || kind == 13) ≡ false = ground arith in rw plain refl
read_extra-extra_data kind vlen (int_type_data x) h =
    let plain : (kind == 6 || kind == 13) ≡ false = ground arith in rw plain refl
read_extra-extra_data kind vlen (struct_type_data e) h =
    let plain : (kind == 6 || kind == 13) ≡ false = ground arith in rw plain refl
read_extra-extra_data kind vlen (func_proto_type_data params) h =
    let pairs : (kind == 6 || kind == 13) ≡ true = ground arith in
    rw (pairs, read_params-param_data params) refl

-- One type in front of others.
read_first :
    (n : ℕ) (t : BtfType) (h : IsBtfType t) (rest : List ℕ) (ts : List BtfType)
    → read_types n rest ≡ some ts
    → (one : List ℕ) × (one_type_data t ≡ ok one)
      × (read_types (suc n) (one ++ rest) ≡ some (t ∷ ts))
unfolding one_type_data read_types
read_first n t h rest ts found =
    let w = encode_type_info h.type_info in
    let extra = extra_data t.extra in
    let read : read_info w ≡ h.type_info =
      read_info-encode_type_info h.type_info h.in_range ∙ rw h.no_flag refl in
    let size = length-extra_data h.type_info.kind h.type_info.vlen t.extra h.suits in
    let data_read = read_extra-extra_data h.type_info.kind h.type_info.vlen t.extra h.suits in
    let inside : ltb (length (extra ++ rest)) (length extra) ≡ false =
      ground (arith, length-append extra rest) in
    (
      t.name_off ∷ w ∷ t.size_or_type ∷ extra,
      rw h.present refl,
      rw
          (
            read,
            ← size,
            inside,
            take-append extra rest,
            drop-append extra rest,
            data_read,
            found,
            ← h.present,
          )
          refl,
    )

-- The types that generateBTF writes, of kinds below 16, without the kind flag and each with the message of its
-- kind, are read back as they were from the numbers of the type section: a reader that knows the kinds
-- finds every name, type info, size or type, and every number of their messages, and nothing is left.
pub read_types-type_data :
    (ts : List BtfType)
    → All IsBtfType ts
    → (ints : List ℕ) × (type_data ts ≡ ok ints) × (read_types (length ts) ints ≡ some ts)
unfolding type_data read_types
read_types-type_data [] h = ([], refl, refl)
read_types-type_data (t ∷ ts) (h, hs) =
    let (ints, written, found) = read_types-type_data ts hs in
    let (one, first, all_found) = read_first (length ts) t h ints ts found in
    (one ++ ints, rw (first, written) refl, all_found)

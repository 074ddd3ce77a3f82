-- ===== src/Ebpf/Btf/Layout.antt =====
-- The sections of the bytes, found by what the header says.
use buzzer.Common.{
  ℕ, ◌+◌, ◌*◌, ◌^◌, ◌<◌, ◌≡◌, refl, ◌∙◌, arith, List, [], ◌∷◌, ◌++◌, some, length, length-append,
  take, drop, take-append, drop-append, take_all, drop-add,
}
use buzzer.Common.Run.{ok}
use buzzer.Common.Outcome.{Succeeds, with_value}
use buzzer.Common.Words.{to_u32}
use buzzer.Ebpf.Encoding.Bytes.{le_value, le_value-le_bytes, length-le_bytes}
use buzzer.Ebpf.Encoding.{le_bytes}
use buzzer.Ebpf.Btf.{
  BtfType, Btf, Header, ProtoSize, set_header_section, type_data, write_ints, string_data,
  header_data, generate_btf, get_buffer,
}

-- The int32 at an offset.
abbrev pub int_at : ℕ → List ℕ → ℕ
int_at n bytes = le_value (take 4 (drop n bytes))

-- The offsets in the header count from its end, which hdr_len gives.
abbrev pub type_bytes : List ℕ → List ℕ
type_bytes bytes = take (int_at 12 bytes) (drop (int_at 4 bytes + int_at 8 bytes) bytes)

abbrev pub string_bytes : List ℕ → List ℕ
string_bytes bytes = take (int_at 20 bytes) (drop (int_at 4 bytes + int_at 16 bytes) bytes)

-- The header leads to the types and to the strings, and these end the bytes.
pub record IsLayout (types strings bytes : List ℕ) : Type 0 where
  pub types_found : type_bytes bytes ≡ types
  pub strings_found : string_bytes bytes ≡ strings
  pub whole : length bytes ≡ int_at 4 bytes + int_at 16 bytes + int_at 20 bytes

pub length-write_ints : (xs : List ℕ) → length (write_ints xs) ≡ 4 * length xs
unfolding write_ints
length-write_ints [] = refl
length-write_ints (x ∷ xs) =
    length-append (le_bytes 4 x) (write_ints xs)
    ∙ omega (arith, length-le_bytes 4 x, length-write_ints xs)

pub length-string_data : (cs : List ℕ) → length (string_data cs) ≡ 2 * length cs
unfolding string_data
length-string_data [] = refl
length-string_data (c ∷ cs) = omega (arith, length-string_data cs)

-- A header of 24 bytes that states the lengths of what follows it.
abbrev stating : ℕ → ℕ → ℕ → List ℕ → List ℕ → Header
stating magic version flags types strings = record {
  magic = magic;
  version = version;
  flags = flags;
  hdr_len = 0x18;
  type_off = 0;
  type_len = to_u32 (length types);
  str_off = to_u32 (length types);
  str_len = to_u32 (length strings);
}

stating-IsLayout :
    (magic version flags : ℕ) (types strings : List ℕ)
    → length types < 2 ^ 32
    → length strings < 2 ^ 32
    → IsLayout types strings
        ((header_data (stating magic version flags types strings) ++ types) ++ strings)
unfolding header_data write_ints le_bytes le_value
stating-IsLayout magic version flags types strings p q =
    let t : to_u32 (length types) ≡ length types = omega arith in
    let s : to_u32 (length strings) ≡ length strings = omega arith in
    let type_len = le_value-le_bytes 4 (length types) (omega arith) in
    let str_len = le_value-le_bytes 4 (length strings) (omega arith) in
    record {
      types_found = rw (t, type_len) (take-append types strings);
      strings_found =
          rw (t, s, type_len, str_len, drop-add 24 (length types) _, drop-append types strings)
            (take_all strings);
      whole = rw (t, s, type_len, str_len) (omega (arith, length-append types strings));
    }

-- The bytes that GetBuffer returns for a header set by SetHeaderSection and sections set after it: the offsets and
-- lengths of the header, which generateBTF corrects, lead to the type section and to the string section, and
-- the bytes end with these. The strings are a null byte and then each byte of the given string with a null
-- byte behind it. This holds whatever proto.Size answered, where all types have an info and the sections
-- stay below 2 ^ 32 bytes.
pub get_buffer-IsLayout :
    (proto_size : ProtoSize) (magic version flags : ℕ) (empty : Btf) (types : List BtfType)
    (ints str : List ℕ)
    → type_data types ≡ ok ints
    → 4 * length ints < 2 ^ 32
    → 2 * length str + 1 < 2 ^ 32
    → Succeeds (IsLayout (write_ints ints) (0 ∷ string_data str)) (
        get_buffer (record (set_header_section proto_size magic version flags empty) {
          type_section = some types;
          string_section = some str;
        }))
unfolding get_buffer generate_btf set_header_section
get_buffer-IsLayout proto_size magic version flags empty types ints str e p q = rw e (
    with_value (
      stating-IsLayout magic version flags (write_ints ints) (0 ∷ string_data str)
        (omega (arith, length-write_ints ints)) (omega (arith, length-string_data str))))

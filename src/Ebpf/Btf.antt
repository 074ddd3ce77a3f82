-- ===== src/Ebpf/Btf.antt =====
-- pkg/ebpf/btf.go and proto/btf.proto: the type information of a program and its bytes. A sub-message is a
-- pointer that may be nil, and a nil one that is read panics; the numbers are int32.
pub mod TypeInfo
pub mod Layout
pub mod Types
mod Tests
use buzzer.Common.{
  ℕ, ◌*◌, ◌^◌, List, [], ◌∷◌, ◌++◌, Option, none, some, Bool, true, false, if◌then◌else◌, bit_or,
  length,
}
use buzzer.Common.Run.{Run, ok, or_panic, ◌>>=◌}
use buzzer.Common.Words.{to_u8, to_u16, to_u32}
use buzzer.Ebpf.Encoding.{le_bytes}

pub record BtfParam : Type 0 where
  pub name_off : ℕ
  pub param_type : ℕ

pub record StructTypeData : Type 0 where
  pub name_off : ℕ
  pub struct_type : ℕ
  pub offset : ℕ

-- The message TypeInfo.
pub record Info : Type 0 where
  pub vlen : ℕ
  pub kind : ℕ
  pub kind_flag : Bool

-- The oneof `extra`.
pub data Extra : Type 0 where
  absent : Extra
  no_data : Extra
  int_type_data : ℕ → Extra
  struct_type_data : StructTypeData → Extra
  func_proto_type_data : List BtfParam → Extra

pub record BtfType : Type 0 where
  pub name_off : ℕ
  pub info : Option Info
  pub size_or_type : ℕ
  pub extra : Extra

pub record Header : Type 0 where
  pub magic : ℕ
  pub version : ℕ
  pub flags : ℕ
  pub hdr_len : ℕ
  pub type_off : ℕ
  pub type_len : ℕ
  pub str_off : ℕ
  pub str_len : ℕ

-- The string section is the bytes of its string.
pub record Btf : Type 0 where
  pub header : Option Header
  pub type_section : Option (List BtfType)
  pub string_section : Option (List ℕ)

-- What proto.Size says of a section, nil or not.
pub record ProtoSize : Type 0 where
  pub of_types : Option (List BtfType) → ℕ
  pub of_string : Option (List ℕ) → ℕ

unfoldable pub set_header_section : ProtoSize → ℕ → ℕ → ℕ → Btf → Btf
set_header_section proto_size magic version flags btf = record btf {
  header = some (record {
    magic = magic;
    version = version;
    flags = flags;
    hdr_len = 0x18;
    type_off = 0;
    type_len = to_u32 (proto_size.of_types btf.type_section);
    str_off = to_u32 (proto_size.of_types btf.type_section);
    str_len = to_u32 (proto_size.of_string btf.string_section);
  });
}

unfoldable pub encode_type_info : Info → ℕ
encode_type_info type_info =
    let info = bit_or 0 type_info.vlen in
    let info = bit_or info (to_u32 (type_info.kind * 2 ^ 24)) in
    if type_info.kind_flag then bit_or info (1 * 2 ^ 28) else bit_or info (0 * 2 ^ 28)

unfoldable pub param_data : List BtfParam → List ℕ
param_data [] = []
param_data (param ∷ params) = param.name_off ∷ param.param_type ∷ param_data params

-- The type switch.
unfoldable pub extra_data : Extra → List ℕ
unfolding param_data
extra_data absent = []
extra_data no_data = []
extra_data (int_type_data int_info) = int_info ∷ []
extra_data (struct_type_data e) = e.name_off ∷ e.struct_type ∷ e.offset ∷ []
extra_data (func_proto_type_data params) = param_data params

-- One round of the loop over the types.
unfoldable pub one_type_data : BtfType → Run (List ℕ)
unfolding encode_type_info extra_data
one_type_data t = do
  info ← or_panic t.info
  ok (t.name_off ∷ encode_type_info info ∷ t.size_or_type ∷ extra_data t.extra)

unfoldable pub type_data : List BtfType → Run (List ℕ)
unfolding one_type_data
type_data [] = ok []
type_data (t ∷ ts) = do one ← one_type_data t; rest ← type_data ts; ok (one ++ rest)

-- What binary.Write puts for int32 numbers in turn.
unfoldable pub write_ints : List ℕ → List ℕ
unfolding le_bytes
write_ints [] = []
write_ints (x ∷ xs) = le_bytes 4 x ++ write_ints xs

-- Each byte of the string, and a null byte after it.
unfoldable pub string_data : List ℕ → List ℕ
string_data [] = []
string_data (c ∷ cs) = c ∷ 0 ∷ string_data cs

unfoldable pub header_data : Header → List ℕ
unfolding write_ints le_bytes
header_data h =
    le_bytes 2 (to_u16 h.magic)
    ++ le_bytes 1 (to_u8 h.version)
    ++ le_bytes 1 (to_u8 h.flags)
    ++ write_ints (h.hdr_len ∷ h.type_off ∷ h.type_len ∷ h.str_off ∷ h.str_len ∷ [])

-- The header that generateBTF fills in, and the bytes.
unfoldable pub generate_btf : Btf → Run (Btf × List ℕ)
generate_btf btf = do
  types ← or_panic btf.type_section
  type_ints ← type_data types
  let types_buff = write_ints type_ints
  str ← or_panic btf.string_section
  let string_buff = 0 ∷ string_data str
  h ← or_panic btf.header
  let h = record h {
    type_len = to_u32 (length types_buff);
    str_off = to_u32 (length types_buff);
    str_len = to_u32 (length string_buff);
  }
  ok (record btf { header = some h }, (header_data h ++ types_buff) ++ string_buff)

unfoldable pub get_buffer : Btf → Run (List ℕ)
unfolding generate_btf
get_buffer btf = generate_btf btf >>= λ (btf, buffer). ok buffer

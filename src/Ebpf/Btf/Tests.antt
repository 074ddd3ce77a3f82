-- ===== src/Ebpf/Btf/Tests.antt =====
-- A small type section, its bytes, and what is read of an info word.
use buzzer.Common.{ℕ, ◌≡◌, refl, arith, List, [], ◌∷◌, none, some, true, false, inl, inr}
use buzzer.Common.Run.{ok, panic}
use buzzer.Common.Outcome.{Succeeds}
use buzzer.Ebpf.Btf.{
  Info, BtfType, Btf, ProtoSize, no_data, int_type_data, struct_type_data, func_proto_type_data,
  set_header_section, encode_type_info, extra_data, param_data, one_type_data, type_data,
  write_ints, string_data, generate_btf, get_buffer,
}
use buzzer.Ebpf.Btf.Layout.{IsLayout, get_buffer-IsLayout}
use buzzer.Ebpf.Btf.TypeInfo.{read_info, read_info-encode_type_info}
use buzzer.Ebpf.Btf.Types.{IsBtfType, extra_size, read_types, read_types-type_data}

abbrev struct_info : Info
struct_info = record { vlen = 2; kind = 4; kind_flag = true }

-- A struct with the kind flag is read as a type of kind 20, without it.
read_info-encode_type_info_example :
    read_info (encode_type_info struct_info) ≡ record struct_info { kind = 20; kind_flag = false }
read_info-encode_type_info_example =
    read_info-encode_type_info struct_info (record { vlen = omega arith; kind = omega arith })

-- An int of 32 bits, and a pointer to it.
abbrev int_type : BtfType
int_type = record {
  name_off = 1;
  info = some (record { vlen = 0; kind = 1; kind_flag = false });
  size_or_type = 4;
  extra = int_type_data 0x20;
}

abbrev pointer_type : BtfType
pointer_type = record {
  name_off = 0;
  info = some (record { vlen = 0; kind = 2; kind_flag = false });
  size_or_type = 1;
  extra = no_data;
}

abbrev two_types : List BtfType
two_types = int_type ∷ pointer_type ∷ []

-- A struct with one member, and a prototype with two parameters.
abbrev struct_type : BtfType
struct_type = record {
  name_off = 1;
  info = some (record { vlen = 1; kind = 4; kind_flag = false });
  size_or_type = 4;
  extra = struct_type_data (record { name_off = 1; struct_type = 1; offset = 8 });
}

abbrev proto_type : BtfType
proto_type = record {
  name_off = 0;
  info = some (record { vlen = 2; kind = 13; kind_flag = false });
  size_or_type = 1;
  extra =
      func_proto_type_data
        (record { name_off = 1; param_type = 1 } ∷ record { name_off = 3; param_type = 2 } ∷ []);
}

abbrev four_types : List BtfType
four_types = int_type ∷ pointer_type ∷ struct_type ∷ proto_type ∷ []

abbrev info_of : (vlen kind : ℕ) → Info
info_of vlen kind = record { vlen = vlen; kind = kind; kind_flag = false }

int_type-IsBtfType : IsBtfType int_type
int_type-IsBtfType = record {
  type_info = info_of 0 1;
  present = refl;
  in_range = record { vlen = omega arith; kind = omega arith };
  no_flag = refl;
  suits = inl refl;
}

pointer_type-IsBtfType : IsBtfType pointer_type
unfolding extra_size
pointer_type-IsBtfType = record {
  type_info = info_of 0 2;
  present = refl;
  in_range = record { vlen = omega arith; kind = omega arith };
  no_flag = refl;
  suits = (omega arith, omega arith, refl);
}

struct_type-IsBtfType : IsBtfType struct_type
struct_type-IsBtfType = record {
  type_info = info_of 1 4;
  present = refl;
  in_range = record { vlen = omega arith; kind = omega arith };
  no_flag = refl;
  suits = inr (inl refl, refl);
}

proto_type-IsBtfType : IsBtfType proto_type
proto_type-IsBtfType = record {
  type_info = info_of 2 13;
  present = refl;
  in_range = record { vlen = omega arith; kind = omega arith };
  no_flag = refl;
  suits = (inr refl, refl);
}

read_types-type_data_example :
    (ints : List ℕ) × (type_data four_types ≡ ok ints) × (read_types 4 ints ≡ some four_types)
read_types-type_data_example = read_types-type_data four_types (
  int_type-IsBtfType,
  (pointer_type-IsBtfType, (struct_type-IsBtfType, (proto_type-IsBtfType, tt))),
)

abbrev no_sizes : ProtoSize
no_sizes = record { of_types = λ s. 0; of_string = λ s. 0 }

abbrev nothing : Btf
nothing = record { header = none; type_section = none; string_section = none }

abbrev two_ints : List ℕ
two_ints = 1 ∷ 0x01000000 ∷ 4 ∷ 0x20 ∷ 0 ∷ 0x02000000 ∷ 1 ∷ []

two_types-ints : type_data two_types ≡ ok two_ints
unfolding type_data one_type_data encode_type_info extra_data param_data
two_types-ints = refl

get_buffer-IsLayout_example :
    Succeeds (IsLayout (write_ints two_ints) (0 ∷ string_data (105 ∷ []))) (
      get_buffer (record (set_header_section no_sizes 0xeb9f 1 0 nothing) {
        type_section = some two_types;
        string_section = some (105 ∷ []);
      }))
get_buffer-IsLayout_example =
    get_buffer-IsLayout no_sizes 0xeb9f 1 0 nothing two_types two_ints (105 ∷ []) two_types-ints
      (omega arith) (omega arith)

-- Without sections GetBuffer panics.
buffer-missing : get_buffer (set_header_section no_sizes 0xeb9f 1 0 nothing) ≡ panic
unfolding get_buffer generate_btf set_header_section
buffer-missing = refl

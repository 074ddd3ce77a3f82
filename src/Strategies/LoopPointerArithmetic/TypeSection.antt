-- ===== src/Strategies/LoopPointerArithmetic/TypeSection.antt =====
-- The type information of pkg/strategies/loop_pointer_arithmetic.go.
use buzzer.Common.{ℕ, List, [], ◌∷◌, Option, none, some, false}
use buzzer.Ebpf.Btf.{
  Info, BtfType, Btf, ProtoSize, no_data, int_type_data, struct_type_data, func_proto_type_data,
  set_header_section,
}
use buzzer.Ebpf.BtfKind

abbrev kind_info : ℕ → ℕ → Option Info
kind_info vlen kind = some (record { vlen = vlen; kind = kind; kind_flag = false })

abbrev pub types : List BtfType
types =
    record {
      name_off = 0;
      info = kind_info 0 BtfKind.func_proto;
      size_or_type = 0;
      extra = no_data;
    }
    ∷ record { name_off = 1; info = kind_info 0 BtfKind.func; size_or_type = 1; extra = no_data }
    ∷ record {
      name_off = 1;
      info = kind_info 0 BtfKind.int;
      size_or_type = 4;
      extra = int_type_data 0x01000020;
    }
    ∷ record {
      name_off = 1;
      info = kind_info 1 BtfKind.struct;
      size_or_type = 4;
      extra = struct_type_data (record { name_off = 1; struct_type = 3; offset = 0 });
    }
    ∷ record { name_off = 0; info = kind_info 0 BtfKind.ptr; size_or_type = 4; extra = no_data }
    ∷ record {
      name_off = 0;
      info = kind_info 2 BtfKind.func_proto;
      size_or_type = 3;
      extra =
          func_proto_type_data (
            record { name_off = 1; param_type = 3 } ∷ record { name_off = 1; param_type = 5 } ∷ []);
    }
    ∷ record { name_off = 1; info = kind_info 0 BtfKind.func; size_or_type = 6; extra = no_data }
    ∷ []

-- The bytes of "buzzer".
abbrev pub names : List ℕ
names = 98 ∷ 117 ∷ 122 ∷ 122 ∷ 101 ∷ 114 ∷ []

abbrev pub no_btf : Btf
no_btf = record { header = none; type_section = none; string_section = none }

abbrev pub btf : ProtoSize → Btf
btf proto_size = record (set_header_section proto_size 0xeb9f 1 0 no_btf) {
  type_section = some types;
  string_section = some names;
}

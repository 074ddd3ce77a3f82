-- ===== src/Ebpf/Encoding/Tests.antt =====
-- Runs of the encoder, and its theorems at concrete programs.
use buzzer.Common.{ℕ, ◌*◌, ◌≡◌, refl, arith, List, [], ◌∷◌, ◌++◌, none, some, length, All}
use buzzer.Common.Run.{ok, err, unknown_opcode_type}
use buzzer.Common.Words.{IsU64}
use buzzer.Ebpf.{Instruction, Program, unset, jmp_opcode, mem_opcode, empty, pseudo_value}
use buzzer.Ebpf.Encoding.{
  encode_opcode, encode_word, encode_instruction, encode_instructions, encode_functions,
  encode_body, write_words, write_func_info,
}
use buzzer.Ebpf.Encoding.Bytes.{read_words}
use buzzer.Ebpf.Encoding.Format.{decode_first, decode_all}
use buzzer.Ebpf.Encoding.RoundTrip.{decode_first-encode_instruction}
use buzzer.Ebpf.Encoding.Programs.{encode_instructions-set, encode_instructions-unset}
use buzzer.Ebpf.Encoding.Decoding.{decode_all-encode_instructions}

-- R9 = map fd 7
abbrev load_map : Instruction
load_map =
    pseudo_value
      (record {
        opcode = mem_opcode (record { mode = 0; size = 0x18; instruction_class = 0 });
        dst_reg = 9;
        src_reg = 1;
        offset = 0;
        immediate = 7;
      })
      (empty (record {
        opcode = mem_opcode (record { mode = 0; size = 0; instruction_class = 0 });
        dst_reg = 0;
        src_reg = 0;
        offset = 0;
        immediate = 0;
      }))

-- *(u32 *)(R10 - 4) = 1
abbrev store_one : Instruction
store_one = empty (record {
  opcode = mem_opcode (record { mode = 0x60; size = 0; instruction_class = 2 });
  dst_reg = 10;
  src_reg = 0;
  offset = 0xffff_fffc;
  immediate = 1;
})

abbrev leave : Instruction
leave = empty (record {
  opcode = jmp_opcode (record { operation_code = 0x90; source = 0; instruction_class = 5 });
  dst_reg = 0;
  src_reg = 0;
  offset = 0;
  immediate = 0;
})

abbrev sample : Program
sample = record {
  btf = [];
  functions =
      record {
        instructions = load_map ∷ store_one ∷ [];
        func_info = some (record { insn_off = 0; type_id = 2 });
      }
      ∷ record { instructions = leave ∷ []; func_info = none }
      ∷ [];
}

abbrev no_opcode : Program
no_opcode = record {
  btf = [];
  functions =
      record {
        instructions =
            leave
            ∷ empty (record { opcode = unset; dst_reg = 0; src_reg = 0; offset = 0; immediate = 0 })
            ∷ [];
        func_info = none;
      }
      ∷ [];
}

store_one_bytes : encode_instruction store_one ≡ ok (0x1_fffc_0a62 ∷ [])
unfolding encode_instruction encode_opcode encode_word
store_one_bytes = refl

sample_info :
    encode_instructions sample
    ≡ ok (
      (0x18 ∷ 0x19 ∷ 0 ∷ 0 ∷ 7 ∷ 0 ∷ 0 ∷ 0 ∷ 0 ∷ 0 ∷ 0 ∷ 0 ∷ 0 ∷ 0 ∷ 0 ∷ 0 ∷ [])
          ++ (0x62 ∷ 0x0a ∷ 0xfc ∷ 0xff ∷ 1 ∷ 0 ∷ 0 ∷ 0 ∷ 0x95 ∷ 0 ∷ 0 ∷ 0 ∷ 0 ∷ 0 ∷ 0 ∷ 0 ∷ []),
      0 ∷ 0 ∷ 0 ∷ 0 ∷ 2 ∷ 0 ∷ 0 ∷ 0 ∷ [],
    )
unfolding encode_instructions encode_functions encode_body encode_instruction encode_opcode
    write_words write_func_info encode_word
sample_info = refl

decode_first-encode_instruction_example :
    (ws : List ℕ) × (encode_instruction load_map ≡ ok ws)
    × All IsU64 ws
    × ((rest : List ℕ) → decode_first (ws ++ rest) ≡ some (load_map, rest))
decode_first-encode_instruction_example = decode_first-encode_instruction load_map (omega arith)

decode_all-encode_instructions_example :
    (prog : List ℕ) × (info : List ℕ) × (n : ℕ) × (encode_instructions sample ≡ ok (prog, info))
    × (length prog ≡ 8 * n)
    × (decode_all 3 (read_words n prog) ≡ some (load_map ∷ store_one ∷ leave ∷ []))
decode_all-encode_instructions_example = decode_all-encode_instructions sample (omega arith)

encode_instructions-set_example :
    (prog : List ℕ) × (info : List ℕ) × (encode_instructions sample ≡ ok (prog, info))
    × (length prog ≡ 32)
    × (length info ≡ 8)
encode_instructions-set_example = encode_instructions-set sample refl

encode_instructions-unset_example : encode_instructions no_opcode ≡ err unknown_opcode_type
encode_instructions-unset_example = encode_instructions-unset no_opcode refl

-- ===== src/Ebpf/Encoding.antt =====
-- pkg/ebpf/encoding_functions.go: instructions to 64-bit words, programs to bytes.
pub mod Opcodes
pub mod Format
pub mod RoundTrip
pub mod Bytes
pub mod Programs
pub mod Decoding
mod Tests
use buzzer.Common.{
  ℕ, zero, suc, ◌+◌, ◌*◌, ◌/◌, ◌%◌, ◌^◌, List, [], ◌∷◌, ◌++◌, Option, none, some, bit_and, bit_or,
  get_elem?,
}
use buzzer.Common.Run.{Run, ok, err, unknown_opcode_type, or_panic, ◌>>=◌}
use buzzer.Common.Words.{to_u8, to_u16, to_u32, to_u64, sext_32_64}
use buzzer.Ebpf.{
  AluOpcode, MemOpcode, Opcode, Fields, Instruction, FuncInfo, Functions, Program, unset,
  alu_opcode, jmp_opcode, mem_opcode, empty, pseudo_value,
}

unfoldable pub encode_alu_jmp_opcode : ℕ → ℕ → ℕ → Run ℕ
encode_alu_jmp_opcode opcode ins_class source =
    let result = bit_or 0 (bit_and ins_class 0x07) in
    let result = bit_or result (bit_and source 0x08) in ok (bit_or result (bit_and opcode 0xf0))

unfoldable pub encode_mem_opcode : MemOpcode → Run ℕ
encode_mem_opcode op =
    let opcode = bit_or 0 (bit_and (to_u8 op.instruction_class) 0x07) in
    let opcode = bit_or opcode (bit_and (to_u8 op.size) 0x18) in
    ok (bit_or opcode (bit_and (to_u8 op.mode) 0xe0))

-- The type switch of encodeInstruction.
unfoldable pub encode_opcode : Opcode → Run ℕ
unfolding encode_alu_jmp_opcode encode_mem_opcode
encode_opcode unset = err unknown_opcode_type
encode_opcode (alu_opcode c) =
    encode_alu_jmp_opcode (to_u8 c.operation_code) (to_u8 c.instruction_class) (to_u8 c.source)
encode_opcode (jmp_opcode c) =
    encode_alu_jmp_opcode (to_u8 c.operation_code) (to_u8 c.instruction_class) (to_u8 c.source)
encode_opcode (mem_opcode c) = encode_mem_opcode c

-- The word that encodeInstruction builds around an encoded opcode.
unfoldable pub encode_word : Fields → ℕ → ℕ
encode_word i opcode =
    let registers = to_u8 (bit_and (to_u8 i.dst_reg) 0x0f) in
    let registers = bit_or registers (to_u8 (bit_and (to_u8 i.src_reg) 0x0f * 2 ^ 4)) in
    let encoding = bit_or 0 opcode in
    let encoding = bit_or encoding (to_u16 (registers * 2 ^ 8)) in
    let encoding = bit_or encoding (to_u32 (i.offset * 2 ^ 16)) in
    bit_or encoding (to_u64 (sext_32_64 i.immediate * 2 ^ 32))

unfoldable pub encode_instruction : Instruction → Run (List ℕ)
encode_instruction (empty i) = do opcode ← encode_opcode i.opcode; ok (encode_word i opcode ∷ [])
encode_instruction (pseudo_value i p) = do
  opcode ← encode_opcode i.opcode
  result_pseudo_value ← encode_instruction p
  second ← or_panic (get_elem? result_pseudo_value 0)
  ok (encode_word i opcode ∷ second ∷ [])

-- What binary.Write puts for a number of `n` bytes in little endian, and for a slice of uint64.
unfoldable pub le_bytes : ℕ → ℕ → List ℕ
le_bytes zero x = []
le_bytes (suc n) x = (x % 256) ∷ le_bytes n (x / 256)

unfoldable pub write_words : List ℕ → List ℕ
unfolding le_bytes
write_words [] = []
write_words (w ∷ ws) = le_bytes 8 w ++ write_words ws

-- The inner loop of EncodeInstructions.
unfoldable pub encode_body : List Instruction → List ℕ → Run (List ℕ)
encode_body [] prog_buff = ok prog_buff
encode_body (instruction ∷ rest) prog_buff = do
  encoding ← encode_instruction instruction
  encode_body rest (prog_buff ++ write_words encoding)

unfoldable pub write_func_info : Option FuncInfo → List ℕ → List ℕ
write_func_info none func_buff = func_buff
write_func_info (some info) func_buff =
    (func_buff ++ le_bytes 4 info.insn_off) ++ le_bytes 4 info.type_id

unfoldable pub encode_functions : List Functions → List ℕ → List ℕ → Run (List ℕ × List ℕ)
encode_functions [] prog_buff func_buff = ok (prog_buff, func_buff)
encode_functions (f ∷ rest) prog_buff func_buff = do
  prog ← encode_body f.instructions prog_buff
  encode_functions rest prog (write_func_info f.func_info func_buff)

-- EncodeInstructions: the program's bytes and its func_info's.
unfoldable pub encode_instructions : Program → Run (List ℕ × List ℕ)
encode_instructions program = encode_functions program.functions [] []

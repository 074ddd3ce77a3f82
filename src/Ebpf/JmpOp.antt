-- ===== src/Ebpf/JmpOp.antt =====
-- proto/ebpf.proto: JmpOperationCode
use buzzer.Common.{ℕ}

abbrev pub ja : ℕ
ja = 0x0

abbrev pub jeq : ℕ
jeq = 0x10

abbrev pub jgt : ℕ
jgt = 0x20

abbrev pub jge : ℕ
jge = 0x30

abbrev pub jset : ℕ
jset = 0x40

abbrev pub jne : ℕ
jne = 0x50

abbrev pub jsgt : ℕ
jsgt = 0x60

abbrev pub jsge : ℕ
jsge = 0x70

abbrev pub call : ℕ
call = 0x80

abbrev pub exit : ℕ
exit = 0x90

abbrev pub jlt : ℕ
jlt = 0xa0

abbrev pub jle : ℕ
jle = 0xb0

abbrev pub jslt : ℕ
jslt = 0xc0

abbrev pub jsle : ℕ
jsle = 0xd0

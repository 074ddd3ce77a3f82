-- ===== src/Cbpf/JmpOp.antt =====
-- proto/cbpf.proto: JmpOperationCode
use buzzer.Common.{ℕ}

abbrev pub ja : ℕ
ja = 0x00

abbrev pub jeq : ℕ
jeq = 0x10

abbrev pub jgt : ℕ
jgt = 0x20

abbrev pub jge : ℕ
jge = 0x30

abbrev pub jset : ℕ
jset = 0x40

-- ===== src/Ebpf/InsClass.antt =====
-- proto/ebpf.proto: InsClass
use buzzer.Common.{ℕ}

abbrev pub ld : ℕ
ld = 0x0

abbrev pub ldx : ℕ
ldx = 0x1

abbrev pub st : ℕ
st = 0x2

abbrev pub stx : ℕ
stx = 0x3

abbrev pub alu : ℕ
alu = 0x4

abbrev pub jmp : ℕ
jmp = 0x5

abbrev pub jmp32 : ℕ
jmp32 = 0x6

abbrev pub alu64 : ℕ
alu64 = 0x7

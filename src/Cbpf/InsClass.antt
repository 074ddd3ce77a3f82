-- ===== src/Cbpf/InsClass.antt =====
-- proto/cbpf.proto: InsClass
use buzzer.Common.{ℕ}

abbrev pub ld : ℕ
ld = 0x00

abbrev pub ldx : ℕ
ldx = 0x01

abbrev pub st : ℕ
st = 0x02

abbrev pub stx : ℕ
stx = 0x03

abbrev pub alu : ℕ
alu = 0x04

abbrev pub jmp : ℕ
jmp = 0x05

abbrev pub ret : ℕ
ret = 0x06

abbrev pub misc : ℕ
misc = 0x07

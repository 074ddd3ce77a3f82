-- ===== src/Ebpf/AluOp.antt =====
-- proto/ebpf.proto: AluOperationCode
use buzzer.Common.{ℕ}

abbrev pub add : ℕ
add = 0x0

abbrev pub sub : ℕ
sub = 0x10

abbrev pub mul : ℕ
mul = 0x20

abbrev pub div : ℕ
div = 0x30

abbrev pub or : ℕ
or = 0x40

abbrev pub and : ℕ
and = 0x50

abbrev pub lsh : ℕ
lsh = 0x60

abbrev pub rsh : ℕ
rsh = 0x70

abbrev pub neg : ℕ
neg = 0x80

abbrev pub modulo : ℕ
modulo = 0x90

abbrev pub xor : ℕ
xor = 0xa0

abbrev pub mov : ℕ
mov = 0xb0

abbrev pub arsh : ℕ
arsh = 0xc0

abbrev pub end : ℕ
end = 0xd0

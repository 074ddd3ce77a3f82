-- ===== src/Cbpf/StLdMode.antt =====
-- proto/cbpf.proto: StLdMode
use buzzer.Common.{ℕ}

abbrev pub imm : ℕ
imm = 0x00

abbrev pub abs : ℕ
abs = 0x20

abbrev pub ind : ℕ
ind = 0x40

abbrev pub mem : ℕ
mem = 0x60

abbrev pub len : ℕ
len = 0x80

abbrev pub msh : ℕ
msh = 0xa0

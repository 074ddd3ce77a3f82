-- ===== src/Ebpf/StLdMode.antt =====
-- proto/ebpf.proto: StLdMode
use buzzer.Common.{ℕ}

abbrev pub imm : ℕ
imm = 0x00

abbrev pub abs : ℕ
abs = 0x20

abbrev pub ind : ℕ
ind = 0x40

abbrev pub mem : ℕ
mem = 0x60

abbrev pub atomic : ℕ
atomic = 0xc0

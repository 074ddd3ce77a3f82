-- ===== src/Ebpf/StLdSize.antt =====
-- proto/ebpf.proto: StLdSize
use buzzer.Common.{ℕ}

abbrev pub w : ℕ
w = 0x00

abbrev pub h : ℕ
h = 0x08

abbrev pub b : ℕ
b = 0x10

abbrev pub dw : ℕ
dw = 0x18

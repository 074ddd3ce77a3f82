-- ===== src/Cbpf/StLdSize.antt =====
-- proto/cbpf.proto: StLdSize
use buzzer.Common.{ℕ}

abbrev pub w : ℕ
w = 0x00

abbrev pub h : ℕ
h = 0x08

abbrev pub b : ℕ
b = 0x10

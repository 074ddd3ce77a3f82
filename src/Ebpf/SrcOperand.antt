-- ===== src/Ebpf/SrcOperand.antt =====
-- proto/ebpf.proto: SrcOperand
use buzzer.Common.{ℕ}

abbrev pub immediate : ℕ
immediate = 0x00

abbrev pub reg_src : ℕ
reg_src = 0x08

-- ===== src/Ebpf/BtfKind.antt =====
-- proto/btf.proto: the kinds of types that the repository uses.
use Prim.Native.Nat.{ℕ}

abbrev pub int : ℕ
int = 1

abbrev pub ptr : ℕ
ptr = 2

abbrev pub struct : ℕ
struct = 4

abbrev pub func : ℕ
func = 12

abbrev pub func_proto : ℕ
func_proto = 13

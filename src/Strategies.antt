-- ===== src/Strategies.antt =====
-- pkg/strategies: the fuzzing strategies.
pub mod Targets
pub mod Calls
pub mod PointerArithmetic
pub mod CbpfRandom
pub mod Container
pub mod Heap
pub mod CoverageBased
pub mod LoopPointerArithmetic

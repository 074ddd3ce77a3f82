-- ===== src/Lib.antt =====
-- Buzzer fuzzes the verifier of the Linux kernel's BPF. A strategy generates a random program, the
-- control unit encodes it and hands it to the kernel through the FFI, the kernel's verdict goes back to
-- the strategy and to the metrics unit, and a program that both approve is executed. This library
-- models that path, from a random number to the bytes that the kernel reads.
--
-- The parts, with the files of the repository that they model:
--
-- - Ebpf: eBPF instructions (proto/ebpf.proto, pkg/ebpf/constants.go, instruction_sequence.go) and, in
--   Ebpf.Alu, Ebpf.Jmp and Ebpf.StLd, their constructors (alu_instructions.go, jmp_instructions.go,
--   st_ld_instructions.go). Each Go function keeps its name in the spelling of this library: Add64 is
--   add64, Mod is modulo, Jmp is jump. Ebpf.AluOp, JmpOp, InsClass, StLdMode, StLdSize and SrcOperand are the
--   numbers of the enums.
-- - Ebpf.Encoding: encoding_functions.go, down to the bytes of the program and of its func_info. Its
--   child Format has an independent decoder, by arithmetic on the bits of a word.
-- - Ebpf.Assembly: from a named constructor to the word with the kernel's opcode.
-- - Ebpf.Generators: instruction_generators.go.
-- - Cbpf, Cbpf.Encoding and Cbpf.Generators: the same for classic BPF (pkg/cbpf, proto/cbpf.proto, and
--   encodeCbpfInstructions of pkg/units/control.go).
-- - Rand: pkg/rand/rand.go. Rand.Draws is the monad of the generators.
-- - Strategies.PointerArithmetic and Strategies.CbpfRandom: pkg/strategies/pointer_arithmetic.go and
--   cbpf_random_instruction.go. Strategies.Targets says where the jumps of an eBPF program go.
-- - Strategies.CoverageBased: pkg/strategies/coverage_based.go, over any priority queue with the laws that
--   it states: the mutations and OnVerifyDone, and in Generation the default program, GenerateProgram and
--   OnExecuteDone.
-- - Ebpf.Btf: pkg/ebpf/btf.go and proto/btf.proto, down to the bytes, with readers of the info word, of the
--   header and of the types in TypeInfo, Layout and Types.
-- - Strategies.LoopPointerArithmetic: pkg/strategies/loop_pointer_arithmetic.go, its two functions and, in
--   TypeSection, its BTF.
-- - Strategies.Container and Strategies.Heap: pkg/strategies/heap.go and the loops of Go's container/heap, each
--   with the rounds that its tree can ask for as fuel. Heap.Refinement has the queue's abstract view, a
--   bag of traces, and CoverageBased.HeapQueue gives the strategy its queue.
-- - Units.Control: the loop of pkg/units/control.go, for any strategy and any FFI.
-- - Units.Metrics: pkg/units/metrics_unit.go, the queue, the sampling and the two counters.
-- - Units.MetricsCollection: pkg/units/metrics_collection.go, the verdicts and the latest log, with the processing
--   routine of metrics_unit.go that takes the results from the queue and fills them.
-- - Units.CoverageManager: pkg/units/coverage_manager.go. Places has the lines that addr2line writes, Output all of
--   its output, and the function that runs it is a parameter.
-- - Units.Ffi: the validations of pkg/units/ffi.go around the call of C that loads a program, which is a
--   parameter; and in Struct the executions and the reading of what C answers.
-- - Common: tests, lists, bits and words, and Run, how a Go call ends; in Outcome what a call that ends with a
--   value has, in Arrays the reads and writes of a slice, in Text strings.Split, strconv.Atoi and %02x on lists of
--   bytes, and in Maps association lists for Go's maps.
--
-- How the code is represented:
--
-- - Integers are natural numbers that hold the bit pattern: an int32 is a number below 2 ^ 32, and the
--   conversions cut or extend the sign as Go does (Common.Words). A protobuf enum is open, so it is a
--   number too. The Src constraint of the generic constructors is a data type with one constructor for
--   each Go type.
-- - A call that can fail returns a Run: a value, an error, or a run-time panic. A type assertion to the
--   wrong type and a read out of range are panics.
-- - A generator (Gen) is given the raw numbers that math/rand will produce, as a list, and uses them up.
--   Where the list is too short it is starved, which is no outcome of the program; a theorem about
--   what a generator yields holds for every list. The loops that draw again have the number of raw numbers
--   as their fuel, since each round takes at least one. Ebpf.Generators.Endings says when the loops for a
--   conditional operation and for another operation than Neg return, and Rand.Endings that RandInt does; of the
--   loops that draw an offset or a register again it is shown what they return, not when. The loop that aligns an
--   offset needs 8 rounds at most, one more than the widest access can ask for.
-- - In the control unit the strategy, the FFI, the kernel and the metrics are one state that the
--   parameters Strategy and Ffi change. Every call is noted in a log, and the theorems speak of
--   the log. RunFuzzer has as its fuel the rounds that it may take, since fuzzing need not end.
-- - In the metrics unit a mutex makes each operation one step, so that two goroutines are a sequence of turns.
--
-- Not modelled: the C++ side of the FFI and the kernel behind it, protobuf's own encoding, the web server, and prints,
-- which do input and output only; the strategies under deprecated, which nothing builds; the playgrounds,
-- which are one fixed program each. A nil instruction or function in a program, on which EncodeInstructions would
-- panic, and a strategy that returns neither a program nor an error, on which RunFuzzer would, are not represented.
pub mod Common
pub mod Cbpf
pub mod Ebpf
pub mod Rand
pub mod Strategies
pub mod Units

-- ===== src/Lib.antt =====
-- A model of the EVM2 virtual machine of temp_esas, which compiles byte code to ARM64 words, and of
-- the assembler that its test programs are built with, and of the host that runs the words.
--
-- The parts of the program and how they interact. `main.cpp` loads a file with the constructor of
-- `Disassembler` (evm2.h), which checks the header, fills the initial memory and reads the code, a
-- stream of bits, into instructions. `Compile` (compile.h) walks them three times: it marks the
-- addresses that are jumped to or called, it asks `ARM64JITFrontend` (jit_arm64_fe.h) for the words
-- of each instruction, with a placeholder for each target that is not known yet, and it patches the
-- placeholders. The front end asks `ARM64Backend` (jit_arm64_be.h) for each word. `RunTest` of
-- main.cpp runs the words in a thread of thread.h and gives them functions for threads, locks and the
-- payload file; `RunGuard` does so in a child process with a region of memory, and reports how the
-- child ended. res/compiler.py writes the files.
--
-- Which file models what, by the repository's paths:
--   Evm2/Types, BitReader, Opcode, Disassembler: the structures, `BitReader`, `readOpcode`,
--     `readDataArg` and `disassembleCode` of evm2.h; a reader is a function from the reader's state
--     to the result and the next state, and `none` is an empty `optional` or the bit -1.
--   Evm2/Image: `Header`, `readLE32` and the constructor of `Disassembler`, from the file's bytes on;
--     Evm2/Sections: theorems on its checks.
--   Evm2/Names: `opToString`; Assembler/Mnemonics: the names that res/compiler.py has for them.
--   Evm2/Stream, Prefix, Progress: lemmas on what the reads take off the stream.
--   Arm64/Word: the `int32_t` arithmetic of the encoders; Arm64/Backend: one function per `gen_*` of
--     jit_arm64_be.h; Arm64/Isa: a decoder after the architecture manual, which is the description
--     that the encoders are held against; Arm64/Encoding: the words that they write.
--   Frontend/Code: the vector `code` as a state, and `assert` as `none`; Frontend/Emit: the emitting
--     methods of jit_arm64_fe.h; Frontend/Patch: `patchBranchOrImm`; Frontend/Finalize: `finalize`
--     and the destructor, with the calls of the system as parameters.
--   Machine: what the decoded words do to registers, flags and the guest, and Machine/Operand: the
--     guest and the values of operands and operations; Machine/Entry: what the prologue does to the
--     registers; all are descriptions, and no code.
--   Frontend/Blocks: the words that jit_arm64_fe.h emits, as blocks that move that machine.
--   Compile/Labels, Instr, Program: the passes of `Compile` in compile.h, up to `finalize`.
--   Compile/Typed, Succeeds, Decided: the arguments that the disassembler reads, and which of the
--     instructions the cases take.
--   Compile/Execute, Straight, Accepted: an interpreter of the instructions that compute, and the
--     theorems that relate compiled code to it.
--   Machine/Cpu: a processor with a program counter, the link register and saved frames; Compile/Run:
--     Meaning is an interpreter of programs, as a relation; both are descriptions. The other files
--     show that compiled programs do what the interpreter does: Words, Layout, Final: the words of
--     one instruction and where they stand in the patched code; Targets, Entered: the mapping and the
--     labels; Block, Control, Service, Creates, Leading: the words on the processor; Matching, Straights, Transfers,
--     Returns, Starting, Simulates, Halts: the processor and the interpreter side by side.
--   Compile/Marks, Patches, Branches: theorems on the first pass, on the last loop and on the branches.
--   Frontend/Growth, Compile/Fixups, Starts, Entries, Places, Loop, Begins: what the second loop
--     keeps of code, fixups and mapping; Compile/Resolve, Lands: the three passes together.
--   Thread/State, Calls, Step: the shared state of `CThread` in thread.h, its functions and the
--     lambdas of `RunTest` in main.cpp that call them, cut where another thread can come between, and
--     the orders in which the pieces run; Thread/Invariant, Safety, Outcomes, Joins: what holds in all of
--     them.
--   Thread/Timeout: the native thread of `CThread::run` in thread.h with its two timeouts.
--   Compile/Tells, Total: the fixups ask only for what the arguments of instructions name, and when
--     `Compile` goes through.
--   Host/Guard, Main: the sizes and the exit codes of `RunGuard` in main.cpp, `RunGuard` and `main`
--     on them, with the calls of the system as parameters; Host/Files: `file_read` and
--     `file_write` of `RunTest`; Host/Slices, Transfer, Payloads: theorems on them; Host/JitThread: the
--     class of main.cpp that a thread starts compiled code with.
--   Assembler: the opcode table, the encoders, `build` and the file layout of res/compiler.py, with
--     the parsed program as the input, assembled in one pass with given addresses of the labels;
--     Assembler/Build: the two passes of the source, which give the same.
--   Prelude, Bits, Masks: shared names, lists, and the laws of shifts and masks on ℕ.
--   Tests and its children: the theorems on concrete programs, files and words.
--
-- Numbers are natural numbers; a field of w bits is kept below 2 ^ w by the mask or the cast of the
-- source, and a negative `int` is its two's complement pattern. `constValue` is such a pattern.
--
-- Threads: a state says for each thread which piece of code it comes to next. A step is a call that
-- guest code makes, which is any call at all, a piece, or the soft timeout. A piece that must wait
-- does not step. An `assert` that fails and a destructor that joins its own thread end the process;
-- breaking a rule of `std::mutex` or `std::thread` is `undefined`. Guest code runs on the thread of
-- `std::async` and `nativeThread` waits for it, so a guest thread that joins itself waits for ever;
-- Thread/Timeout says what ends it. Whether an object is destroyed is told by where the threads are:
-- inside `run` or `join` they have a pointer to it, and so has, for ever, the one that `longjmp`
-- leaves behind when a thread halts. Time is in milliseconds, and guest code is a parameter there.
--
-- Files: the payload is its bytes, and a stream a mode and a position; stdio's buffer, which a close
-- writes out, is not seen. A negative `long` as an offset makes `fseek` fail. Reads and writes go to
-- any mapped byte of the process, by its distance from the guest's memory; which bytes outside it
-- are mapped is a parameter, nothing is behind the last 64-bit address, and what the host does after
-- its own bytes are overwritten is not followed.
--
-- Programs: what the host does is a parameter, a function that may change every register, with the
-- arguments from x0 up and the result in x0. On the processor an address of code is an index of a
-- word. A return with no call before it has no meaning.
-- Threads share the guest's memory; the interpreter runs one of them, and what the others do to the
-- memory in the meantime is left out there.
--
-- Fuel: the loop of `disassembleCode` gets one unit for each bit of the code and one more. Each
-- round takes at least one bit, so it ends before. The digits of a number get the number itself.
--
-- Memory: `mmap` gives a new region or fails, `mprotect` works or not, and `munmap` takes the region
-- at an address away; a call with an address that has none changes nothing.
--
-- Not modelled: `readFile`, `print` and `Arg::toString`, which only do input and output; flushing the
-- instruction cache; the parts of main.cpp that are calls of the system:
-- signals, setjmp, printing and reading numbers; the lexer and the parser of
-- res/compiler.py. A label is the number of instructions before it, as the parser's `code_labels`
-- has it.
-- A copy past the end of its target, which C++ leaves undefined, is the outcome `overrun`.
pub mod Prelude
pub mod Bits
pub mod Masks
pub mod Arm64
pub mod Evm2
pub mod Assembler
pub mod Frontend
pub mod Machine
pub mod Compile
pub mod Thread
pub mod Host
pub mod Tests

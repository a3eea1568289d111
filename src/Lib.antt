-- ===== src/Lib.antt =====
-- telda: a verification of the BLF4 emulator and its assembler.
--
-- The program emulates a small computer. A machine (src/machine) holds a memory, a processor and
-- perhaps an emulated kernel; its loop executes instructions until a trap that nobody handles. The
-- processor (src/blf4/mod.rs) fetches opcodes through its page tables and runs their handlers
-- (src/blf4/isa/handlers.rs); a trap goes to the program's trap handler, or without one to the
-- kernel (src/blf4/std_kernel.rs), which also gives out pages and loads object files. The assembler
-- (src/bin/tc.rs) makes object files of source files, which src/source parses and processes: lines
-- become labels and the lines of segments, symbols get ids, and segments their places. The linker
-- (src/bin/tl.rs) joins object files to one.
--
-- Prelude holds what all modules share: tests, lists, machine words, bits and signed numbers.
-- Align models src/lib.rs, U4 src/u4.rs and Mem src/mem.rs: Mem.Io the ports, Mem.Lazy the memory
-- `LazyMain`. Blf4 models src/blf4/mod.rs: Trap, Flags, Registers (with src/blf4/register_type.rs)
-- and Context its state, Paging the resolution of addresses, Access fetch, read, write and the
-- stack, Execute `execute_instruction`, Mmap the reads of `print_mmap`. Isa models src/blf4/isa:
-- Opcode the numbers, Args the operands, System, Arith, Moves and Jumps the handlers, Words the
-- operations on words, Table `OP_HANDLERS`. Machine models src/machine, Kernel
-- src/blf4/std_kernel.rs (Handle the traps, Mmap the page tables, Load
-- std_kernel/load_user_binary.rs), Obj the types of src/aalv/obj.rs and in Sections the bytes of
-- its sections (sec_impl.rs), Aalv the container of sections (src/aalv/mod.rs) and in Aalv.File the
-- object files in it (obj.rs). Source models src/source: Text the operations on strings, Line and
-- Line.Parse the lines, Symbols symbols.rs, Operand and Operand.Forms the readers of operands, Ins
-- `parse_ins`, Encode `write_data_operand`, Segments the state of `process`, Process and
-- Process.Files its loop over lines and files, Resolve what follows. Assembler models src/bin/tc.rs
-- and Linker src/bin/tl.rs: Linker.Symbols the merging of symbols, Linker.Archive `read_archives`,
-- Linker.Link the rest of `tl_main`.
-- Align.Bounds, Mem.Total, Mem.Ram, Blf4.Registers.Laws,
-- Blf4.Access.Stack, Kernel.Agree, Obj.RoundTrip, Isa.Words.Range, Isa.Jumps.Compare, Machine.Runs
-- and Safety hold proofs, as do the children Growth, Names, Format, Reading, Readers, Arms, Written,
-- Decode, Quote, Fits, Layout, Sound, Loop, Counted, Total, Named, Merged and View below Source, Assembler
-- and Linker, Source.Ins.Fetches with its children, Linker.Archive.Globals, Linker.Archive.Loop and
-- the other children of Aalv; Tests has concrete runs.
--
-- The handlers are actions (Blf4.Action): they take a state and return a value or a trap with the
-- state as it is then, or panic. A function has the name that it has in the source. In the memory
-- and in the loading of programs a panic is `none`. The memory is an instance argument, as it is a
-- trait in the source; what the processor relies on are the laws of Mem.MemoryLaws, which
-- Mem.Total.lazy_main-laws gives for `LazyMain` from the laws of its ports (Mem.Total.IoLaws), the
-- hypothesis on the outside world: no access of a port panics, so the input of a `StdIo` must not
-- have ended. An array is a function of its index.
--
-- Numbers are natural numbers with the wrap-around of the release profile written out: additions
-- and subtractions wrap, and a shift takes its distance modulo the width. Registers and addresses
-- are kept in range by the invariant Blf4.Registers.IsBlf4. `run_until_abort` takes fuel, since the
-- source's loop may run for ever; Machine.Runs is about its chains of rounds, of any length. The
-- depth of inclusions has fuel too, since a file that includes itself has no end in the source; the
-- loop of `.string` has as much as the string has bytes, each of its turns taking one at least. The
-- loop of `read_archives` has one more than there are objects, of which each turn takes one away.
--
-- A text is a list of code points. The files that a source includes are a parameter, as is the path
-- of a file beside another. An error of src/source/err.rs is a record, and a chain of errors a list.
--
-- Not modelled: the text that is printed (Display, `print_mmap`, warnings), the random numbers of
-- `Blf4::new`, which are arguments, the magic at the start of object files, archives
-- (src/aalv/savn.rs), the disassembler (src/disassemble.rs) and the other command-line programs.
pub mod Prelude
pub mod Align
pub mod U4
pub mod Mem
pub mod Blf4
pub mod Isa
pub mod Machine
pub mod Kernel
pub mod Obj
pub mod Source
pub mod Aalv
pub mod Assembler
pub mod Linker
pub mod Safety
pub mod Tests

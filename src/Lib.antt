-- ===== src/Lib.antt =====
-- mini-strace: a tracer of system calls over ptrace(2) (src/*.c, src/*.h).
--
-- The program runs or attaches to a process and stops it at the entry and at the exit of every system
-- call. For each call it writes the name, the arguments, each by the decoder that the routing tables
-- name, and the result. Under `-f` it follows children, each with a state of its own, and under `-c` it
-- writes a table of totals instead of the calls.
--
-- Base
--     the native numbers, lists and texts with the lemmas that the other modules share; a `long` is a
--     constructor `pos n` or `negsuc n` of ℤ
-- Routing (src/arg_routing.h, src/arg_routing.c)
--     every table and every lookup, under the names of the source; a NULL result of a lookup is `none`
-- Dispatch (src/mini_strace.c, the two argument loops of `run_tracer`)
--     which decoder is called for an argument, with which values: `decode_entry` is a round of the loop
--     at the entry stop, `decode_exit` of the one at the exit stop, for calls that the kernel fills
--     arguments of. The if-else chain over masks is a list of masks and decoders (Ladder); the
--     `pending_*` fields are the record Pending
-- Filter (src/trace_filter.c)
--     `parse_trace_filter` and `syscall_allowed`; the static tokens are an argument and a result
-- Tracees (src/mini_strace.c)
--     `tracee_state`, `find_tracee`, `add_tracee`, `remove_tracee`; a pointer into the table of 64 is an
--     index
-- Summary (src/mini_strace.c)
--     `summary_lookup_or_add`, how an exit stop adds to a row, and the sorting and the totals of
--     `print_summary`; a `double` is a value of a type T with an addition and a test for greater
-- Arch (src/arch.h)
--     the registers of a call on x86-64 and on aarch64
-- ChildMem (src/child_mem.c)
--     the four readers of the memory of a traced process, over PTRACE_PEEKDATA as a function from
--     addresses to words that may fail
-- Decoders (src/decoders.c)
--     every `format_*` function and every table of names, under the names of the source; a function gives
--     what its buffer holds, from the size of the buffer. `walk` is the loop over a table of flags,
--     `of_struct` the reading of a structure. Calls joins them to Dispatch: `decoding_text` is the
--     text of a call that an argument loop makes. Reading is a reader of these texts, which is no part
--     of the program
-- Tracer (src/mini_strace.c, `run_tracer`)
--     `step` is one round of the loop over waitpid: it takes the state and a report of waitpid with what
--     the kernel answers in that round, and gives the state, the lines written and the ptrace requests
--     in order (Action), and whether the loop goes on. `enter` and `leave` are the two syscall stops,
--     `run` is the loop
-- Options (src/mini_strace.c, `main`)
--     `parse_options` is the loop over the options, `main_plan` what `main` does after it
-- Tests
--     runs on small inputs, and each theorem at an input of its own
--
-- How the parts meet: a syscall stop of Tracer finds its process in Tracees, names the call, asks Filter
-- whether it is shown, asks Dispatch.Pending (over Routing) whether it waits for its exit, has Dispatch
-- decode the arguments, and adds to Summary. Decoders.Calls gives the text that a decoded
-- argument has, from the call of its decoder.
--
-- Bounds and fuel. The loop over the fields of a filter has the length of the text as fuel, and each
-- round takes a byte at least; the loops over words have 1024 rounds, or as many as bytes are wanted,
-- and each takes eight bytes or all that are left, so that none of them ends for want of fuel. The loop
-- over directory entries has a round for each byte of the buffer and takes 19 bytes at least; the one
-- over control messages has 33 rounds for 512 bytes, and takes 16 at least; a 64-bit number has at most
-- 16, 20 or 22 digits to the bases 16, 10 and 8. All other loops are by recursion on a table, on a list or
-- on the number of rounds left. An address is reduced
-- modulo 2^64; counters of calls are natural numbers, which a `long` does not outgrow in practice.
--
-- The values of the macros in the tables, and the offsets and sizes of the structures, are those of
-- Linux on x86-64 with the GNU C library. A text that src/decoders.c writes in steps is the text asked
-- for, whose length is the index `oi`, cut at the end to the size of the buffer, which is what the
-- buffer holds as long as every step begins within it (Decoders.Written). A step that the source takes
-- after a test of the room is `append_text`, or `++` where the test stands outside. Two steps have no
-- such test: the name of the level in `format_cmsg` and the handler in `format_sigaction`. They are
-- `write_text`, which is `none` where the step begins behind the end of the buffer, and the decoders
-- that take them give `none` there. The readers of src/child_mem.c keep in their model every byte that
-- they write.
--
-- What is a parameter: `syscall_name`, which a script generates; the arithmetic of `double`; the
-- kernel's answers, which are part of a report of waitpid; of the C library, `sigabbrev_np`, `inet_ntop`,
-- CMSG_NXTHDR and `readlink`, and the bytes of the tracer's stack in and behind the buffer for control
-- messages where nothing was read into it (DecodeEnv).
--
-- What is not modelled: the lines that `print_summary` writes; opening the `-o` file, fork, attach and
-- exec; that a write or a ptrace request fails. `print_call` gives the decodings in order, whose texts
-- are those of `decoding_text`.
pub mod Base
pub mod Routing
pub mod Dispatch
pub mod Filter
pub mod Tracees
pub mod Summary
pub mod Arch
pub mod ChildMem
pub mod Decoders
pub mod Options
pub mod Tracer
pub mod Tests

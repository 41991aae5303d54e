-- ===== src/Dispatch.antt =====
-- src/mini_strace.c, `run_tracer`: how each argument of a call is decoded.
pub mod Decoder
pub mod Ladder
pub mod EntryLadder
pub mod ExitLadder
pub mod Pending
pub mod Entry
pub mod Exit
pub mod Names
pub mod Rungs
pub mod Unlisted
pub mod Slots
pub mod Coverage

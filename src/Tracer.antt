-- ===== src/Tracer.antt =====
-- src/mini_strace.c, `run_tracer`.
pub mod State
pub mod Stops
pub mod Step
pub mod Resume
pub mod Pairing
pub mod Frame
pub mod Names
pub mod Runs
pub mod Calls

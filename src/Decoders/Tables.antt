-- ===== src/Decoders/Tables.antt =====
-- src/decoders.c: its tables of names.
pub mod Files
pub mod Processes
pub mod Sockets

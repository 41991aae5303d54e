-- ===== src/Tests.antt =====
-- Runs of the model on small inputs, and the theorems at inputs of their own.
mod Tracing
mod Decoding
mod Tables
mod Memory
mod Arguments
mod Flags
mod Shown
mod Entries

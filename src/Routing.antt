-- ===== src/Routing.antt =====
-- src/arg_routing.c: which argument of which system call holds a value of which kind.
pub mod Lookup
pub mod Paths
pub mod Values
pub mod Structs
pub mod Outputs
pub mod Pairs
pub mod ArgcDecoded
pub mod ArgcOnly
pub mod Argc

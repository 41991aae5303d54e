-- ===== src/Decoders.antt =====
-- src/decoders.c: the text that each decoder writes into its buffer.
pub mod Text
pub mod Written
pub mod Walk
pub mod Tables
pub mod Flags
pub mod Choices
pub mod Mixed
pub mod Requests
pub mod Structs
pub mod Arrays
pub mod Dirents
pub mod FdsetShown
pub mod DirentsEnds
pub mod DirentsShown
pub mod Messages
pub mod Control
pub mod Msghdr
pub mod Calls
pub mod Decoded
pub mod Arguments
pub mod Parts
pub mod Joined
pub mod Shown
pub mod Reading
pub mod ReadBack
pub mod Words
pub mod Headed
pub mod Suffixes
pub mod Combined
pub mod Numbers
pub mod OpenFlags

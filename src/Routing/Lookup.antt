-- ===== src/Routing/Lookup.antt =====
-- src/arg_routing.h: the entry types of the routing tables; src/arg_routing.c: the linear scan that
-- `mask_lookup` makes, and that each of the older lookups writes out over its own table.
use mini_strace.Base.{ℕ, String, List, [], ◌∷◌, Option, none, some, if◌then◌else◌, str_eq}

-- The last entry of a C table, whose name is NULL, is the end of the list.
abbrev pub StringArgEntry : Type 0
StringArgEntry = String × ℕ

pub record BufferArgEntry : Type 0 where
  pub name : String
  pub buf_idx : ℕ
  pub len_idx : ℕ

abbrev pub SyscallArgcEntry : Type 0
SyscallArgcEntry = String × ℕ

abbrev pub MaskTable : Type 0
MaskTable = List StringArgEntry

abbrev pub PairTable : Type 0
PairTable = List BufferArgEntry

abbrev pub ArgcTable : Type 0
ArgcTable = List SyscallArgcEntry

unfoldable pub mask_lookup : MaskTable → String → ℕ
mask_lookup [] syscall = 0
mask_lookup ((name, str_args) ∷ table) syscall =
    if str_eq name syscall then str_args else mask_lookup table syscall

unfoldable pub pair_lookup : PairTable → String → Option BufferArgEntry
pair_lookup [] syscall = none
pair_lookup (entry ∷ table) syscall =
    if str_eq entry.name syscall then some entry else pair_lookup table syscall

-- `none` is the -1 of `syscall_argc`.
unfoldable pub argc_lookup : ArgcTable → String → Option ℕ
argc_lookup [] syscall = none
argc_lookup ((name, argc) ∷ table) syscall =
    if str_eq name syscall then some argc else argc_lookup table syscall

-- ===== src/Routing/Argc.antt =====
-- src/arg_routing.c: `syscall_argc`, over the whole of its table.
use mini_strace.Base.{ℕ, String, ◌++◌, Option, none, some, if◌then◌else◌, ltb}
use mini_strace.Routing.Lookup.{ArgcTable, argc_lookup}
use mini_strace.Routing.ArgcDecoded.{decoded_argc_table, common_argc_table}
use mini_strace.Routing.ArgcOnly.{arity_only_argc_table}

unfoldable pub syscall_argc_table : ArgcTable
unfolding decoded_argc_table common_argc_table arity_only_argc_table
syscall_argc_table = decoded_argc_table ++ (common_argc_table ++ arity_only_argc_table)

unfoldable pub syscall_argc : String → Option ℕ
unfolding syscall_argc_table argc_lookup
syscall_argc syscall = argc_lookup syscall_argc_table syscall

-- The number of arguments that `print_call` of src/mini_strace.c writes.
abbrev pub shown_args : Option ℕ → ℕ
shown_args none = 6
shown_args (some n) = if ltb 6 n then 6 else n

-- ===== src/Routing/Pairs.antt =====
-- src/arg_routing.c: the tables of `buffer_arg_entry`, which pair the slot of a buffer with the slot
-- of its length, each with its lookup.
use mini_strace.Base.{String, [], ◌∷◌, Option}
use mini_strace.Routing.Lookup.{BufferArgEntry, PairTable, pair_lookup}

unfoldable pub buffer_arg_table : PairTable
buffer_arg_table =
    record { name = "write"; buf_idx = 1; len_idx = 2 }
    ∷ record { name = "pwrite64"; buf_idx = 1; len_idx = 2 }
    ∷ []

unfoldable pub buffer_arg_lookup : String → Option BufferArgEntry
unfolding buffer_arg_table pair_lookup
buffer_arg_lookup syscall = pair_lookup buffer_arg_table syscall

unfoldable pub iovec_write_arg_table : PairTable
iovec_write_arg_table = record { name = "writev"; buf_idx = 1; len_idx = 2 } ∷ []

unfoldable pub iovec_write_arg_lookup : String → Option BufferArgEntry
unfolding iovec_write_arg_table pair_lookup
iovec_write_arg_lookup syscall = pair_lookup iovec_write_arg_table syscall

unfoldable pub sockaddr_arg_table : PairTable
sockaddr_arg_table =
    record { name = "connect"; buf_idx = 1; len_idx = 2 }
    ∷ record { name = "bind"; buf_idx = 1; len_idx = 2 }
    ∷ record { name = "sendto"; buf_idx = 4; len_idx = 5 }
    ∷ []

unfoldable pub sockaddr_arg_lookup : String → Option BufferArgEntry
unfolding sockaddr_arg_table pair_lookup
sockaddr_arg_lookup syscall = pair_lookup sockaddr_arg_table syscall

unfoldable pub accept_arg_table : PairTable
accept_arg_table =
    record { name = "accept"; buf_idx = 1; len_idx = 2 }
    ∷ record { name = "accept4"; buf_idx = 1; len_idx = 2 }
    ∷ record { name = "getsockname"; buf_idx = 1; len_idx = 2 }
    ∷ record { name = "getpeername"; buf_idx = 1; len_idx = 2 }
    ∷ record { name = "recvfrom"; buf_idx = 4; len_idx = 5 }
    ∷ []

unfoldable pub accept_arg_lookup : String → Option BufferArgEntry
unfolding accept_arg_table pair_lookup
accept_arg_lookup syscall = pair_lookup accept_arg_table syscall

unfoldable pub pollfds_arg_table : PairTable
pollfds_arg_table =
    record { name = "poll"; buf_idx = 0; len_idx = 1 }
    ∷ record { name = "ppoll"; buf_idx = 0; len_idx = 1 }
    ∷ []

unfoldable pub pollfds_arg_lookup : String → Option BufferArgEntry
unfolding pollfds_arg_table pair_lookup
pollfds_arg_lookup syscall = pair_lookup pollfds_arg_table syscall

unfoldable pub read_arg_table : PairTable
read_arg_table =
    record { name = "read"; buf_idx = 1; len_idx = 2 }
    ∷ record { name = "pread64"; buf_idx = 1; len_idx = 2 }
    ∷ record { name = "recvfrom"; buf_idx = 1; len_idx = 2 }
    ∷ []

unfoldable pub read_arg_lookup : String → Option BufferArgEntry
unfolding read_arg_table pair_lookup
read_arg_lookup syscall = pair_lookup read_arg_table syscall

unfoldable pub iovec_read_arg_table : PairTable
iovec_read_arg_table = record { name = "readv"; buf_idx = 1; len_idx = 2 } ∷ []

unfoldable pub iovec_read_arg_lookup : String → Option BufferArgEntry
unfolding iovec_read_arg_table pair_lookup
iovec_read_arg_lookup syscall = pair_lookup iovec_read_arg_table syscall

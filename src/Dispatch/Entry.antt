-- ===== src/Dispatch/Entry.antt =====
-- src/mini_strace.c, `run_tracer`: how the syscall-entry stop decodes one argument of a call that it
-- prints at once.
use mini_strace.Base.{
  ℕ, ◌-◌, ◌^◌, String, Bool, false, List, [], ◌∷◌, Option, none, some, if◌then◌else◌, ◌==◌, bit_and,
  get_or,
}
use mini_strace.Base.Int.{minus_one}
use mini_strace.Routing.Lookup.{BufferArgEntry}
use mini_strace.Routing.Pairs.{buffer_arg_lookup, sockaddr_arg_lookup, iovec_write_arg_lookup}
use mini_strace.Dispatch.Decoder.{
  Decoder, Decoding, decode, decode_with, decode_result, decode_array, sockopt_optname, open_mode,
  prctl_name, fdset, dirfd, msghdr, child_buffer, sockaddr, iovec_buf, hex_or_fd_arg,
}
use mini_strace.Dispatch.Ladder.{first_rung}
use mini_strace.Dispatch.EntryLadder.{entry_ladder}

-- `raw_args[i]`
abbrev pub arg : List ℕ → ℕ → ℕ
arg args i = get_or args i 0

-- The call that a rung makes. Three decoders also read the argument before theirs, `raw_args[i - 1]`.
unfoldable pub entry_call : Decoder → List ℕ → ℕ → ℕ → Decoding
entry_call sockopt_optname args i fd_mask =
    decode_with sockopt_optname (arg args (i - 1)) (arg args i)
entry_call open_mode args i fd_mask = decode_with open_mode (arg args (i - 1)) (arg args i)
entry_call prctl_name args i fd_mask = decode_with prctl_name (arg args (i - 1)) (arg args i)
entry_call fdset args i fd_mask = decode_with fdset (arg args i) (arg args 0)
entry_call dirfd args i fd_mask = decode_with dirfd (arg args i) (bit_and fd_mask (2 ^ i))
entry_call msghdr args i fd_mask = decode_result msghdr (arg args i) minus_one
entry_call d args i fd_mask = decode d (arg args i)

-- `entry != NULL && i == entry->buf_idx`
abbrev pub at_entry : Option BufferArgEntry → ℕ → Bool
at_entry none i = false
at_entry (some e) i = i == e.buf_idx

-- `args[entry->len_idx]`
abbrev pub len_arg : Option BufferArgEntry → List ℕ → ℕ
len_arg none args = 0
len_arg (some e) args = arg args e.len_idx

-- An if-else chain whose last `else` is `d`.
unfoldable pub choose : List (Bool × Decoding) → Decoding → Decoding
choose [] d = d
choose ((test, e) ∷ rungs) d = if test then e else choose rungs d

unfoldable pub entry_pairs : String → List ℕ → ℕ → List (Bool × Decoding)
entry_pairs name args i =
    (
      at_entry (buffer_arg_lookup name) i,
      decode_with child_buffer (arg args i) (len_arg (buffer_arg_lookup name) args),
    )
    ∷ (
      at_entry (sockaddr_arg_lookup name) i,
      decode_with sockaddr (arg args i) (len_arg (sockaddr_arg_lookup name) args),
    )
    ∷ (
      at_entry (iovec_write_arg_lookup name) i,
      decode_array iovec_buf (arg args i) (len_arg (iovec_write_arg_lookup name) args) minus_one,
    )
    ∷ []

-- The body of the loop over the six slots.
unfoldable pub decode_entry : String → ℕ → List ℕ → ℕ → Decoding
decode_entry name fd_mask args i = elim (first_rung (entry_ladder name) i) [
  | some d ↦ entry_call d args i fd_mask
  | none ↦
      choose (entry_pairs name args i)
        (decode_with hex_or_fd_arg (arg args i) (bit_and fd_mask (2 ^ i)))
]

-- ===== src/Dispatch/Exit.antt =====
-- src/mini_strace.c, `run_tracer`: how the syscall-exit stop decodes one argument of a call that was
-- deferred.
use mini_strace.Base.{
  ℕ, ◌%◌, ◌^◌, String, Bool, false, ◌&&◌, not, List, [], ◌∷◌, Option, none, some, if◌then◌else◌,
  ◌==◌, bit_and,
}
use mini_strace.Base.Int.{ℤ, is_nonneg, is_positive, to_ℕ}
use mini_strace.Dispatch.Decoder.{
  Decoder, Decoding, decode, decode_with, decode_result, decode_array, dirfd, child_buffer,
  sockaddr, wait_status, msghdr, stat_buf, getdents_buf, sigaction, timespec, rusage, rlimit,
  epoll_events_buf, pollfds_buf, statx_buf, iovec_buf, hex_or_fd_arg,
}
use mini_strace.Dispatch.Ladder.{first_rung}
use mini_strace.Dispatch.ExitLadder.{exit_ladder}
use mini_strace.Dispatch.Pending.{Pending, is_some}
use mini_strace.Dispatch.Entry.{arg, at_entry, len_arg, choose}

unfoldable pub exit_call : Decoder → List ℕ → ℕ → ℕ → Decoding
exit_call dirfd args i fd_mask = decode_with dirfd (arg args i) (bit_and fd_mask (2 ^ i))
exit_call d args i fd_mask = decode d (arg args i)

-- `pending_idx == i`
abbrev pub at_idx : Option ℕ → ℕ → Bool
at_idx none i = false
at_idx (some k) i = k == i

-- `sizeof(struct sockaddr_storage)`
abbrev pub sockaddr_storage_size : ℕ
sockaddr_storage_size = 128

-- The length of a `struct sockaddr` that the kernel wrote: the low 32 bits of the word at the
-- `socklen_t *` argument. `peek` is PTRACE_PEEKDATA, `none` where it sets errno.
unfoldable pub sockaddr_len : (ℕ → Option ℕ) → Pending → List ℕ → ℤ → ℕ
sockaddr_len peek p args ret =
    let addrlen_ptr = len_arg p.sockaddr_entry args in
    if is_some p.sockaddr_entry && (is_nonneg ret && not (addrlen_ptr == 0))
    then elim (peek addrlen_ptr) [ some word ↦ word % 2 ^ 32 | none ↦ sockaddr_storage_size ]
    else sockaddr_storage_size

unfoldable pub pending_rungs : Pending → List ℕ → ℤ → ℕ → ℕ → List (Bool × Decoding)
pending_rungs p args ret addrlen i =
    (at_entry p.read_entry i && is_positive ret, decode_with child_buffer (arg args i) (to_ℕ ret))
    ∷ (at_entry p.sockaddr_entry i && is_nonneg ret, decode_with sockaddr (arg args i) addrlen)
    ∷ (at_idx p.wait_status_idx i && is_nonneg ret, decode wait_status (arg args i))
    ∷ (at_idx p.msghdr_idx i && is_nonneg ret, decode_result msghdr (arg args i) ret)
    ∷ (at_idx p.stat_idx i && is_nonneg ret, decode stat_buf (arg args i))
    ∷ (at_idx p.getdents_idx i, decode_result getdents_buf (arg args i) ret)
    ∷ (at_idx p.sigaction_idx i && is_nonneg ret, decode sigaction (arg args i))
    ∷ (at_idx p.timespec_out_idx i, decode timespec (arg args i))
    ∷ (at_idx p.rusage_idx i && is_nonneg ret, decode rusage (arg args i))
    ∷ (at_idx p.rlimit_idx i && is_nonneg ret, decode rlimit (arg args i))
    ∷ (at_idx p.epoll_events_idx i, decode_result epoll_events_buf (arg args i) ret)
    ∷ (
      at_entry p.pollfds_entry i,
      decode_with pollfds_buf (arg args i) (len_arg p.pollfds_entry args),
    )
    ∷ (at_idx p.statx_idx i && is_nonneg ret, decode statx_buf (arg args i))
    ∷ (
      at_entry p.iovec_entry i && is_nonneg ret,
      decode_array iovec_buf (arg args i) (len_arg p.iovec_entry args) ret,
    )
    ∷ []

-- The body of the deferred loop over the six slots.
unfoldable pub decode_exit : String → Pending → ℕ → List ℕ → ℤ → ℕ → ℕ → Decoding
decode_exit name p fd_mask args ret addrlen i = elim (first_rung (exit_ladder name) i) [
  | some d ↦ exit_call d args i fd_mask
  | none ↦
      choose (pending_rungs p args ret addrlen i)
        (decode_with hex_or_fd_arg (arg args i) (bit_and fd_mask (2 ^ i)))
]

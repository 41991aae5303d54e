-- ===== src/Dispatch/Coverage.antt =====
-- What the two dispatch chains show of a call: no decoded slot lies beyond the arguments that
-- `print_call` prints, a deferred call loses none of the decodings of the entry chain, and no decoder
-- reads an argument before the first.
use mini_strace.Base.{
  ℕ, ◌+◌, ◌<◌, String, Bool, true, false, not, ◌&&◌, ◌||◌, Option, none, some, ◌≡◌, refl, sym, ap,
  ◌∙◌, arith, ltb, ◌==◌, all_of, Bool-cases, inl, inr,
}
use mini_strace.Routing.Outputs.{
  wait_status_arg_mask, msghdr_recv_arg_mask, stat_buf_arg_mask, getdents_buf_arg_mask,
  sigaction_old_arg_mask, timespec_out_arg_mask, rusage_arg_mask, epoll_events_arg_mask,
  statx_buf_arg_mask, rlimit_out_arg_mask,
}
use mini_strace.Routing.Pairs.{
  read_arg_lookup, accept_arg_lookup, pollfds_arg_lookup, iovec_read_arg_lookup, buffer_arg_lookup,
  sockaddr_arg_lookup, iovec_write_arg_lookup,
}
use mini_strace.Routing.Argc.{syscall_argc, shown_args}
use mini_strace.Dispatch.Decoder.{Decoder, Decoder-discrete, sockopt_optname, open_mode, prctl_name}
use mini_strace.Dispatch.Ladder.{first_rung, first_bit}
use mini_strace.Dispatch.EntryLadder.{entry_ladder}
use mini_strace.Dispatch.ExitLadder.{exit_ladder}
use mini_strace.Dispatch.Names.{mem_name, decoded_names}
use mini_strace.Dispatch.Pending.{outputs_of, is_pending}
use mini_strace.Dispatch.Rungs.{entry_ladder_unlisted}
use mini_strace.Dispatch.Slots.{entry_claims, exit_claims, listed_slot, each_slot, unlisted_claims}

abbrev in_arity : String → ℕ → Bool
in_arity name i =
    ltb i (shown_args (syscall_argc name)) || (entry_claims name i == 0 && exit_claims name i == 0)

abbrev reads_before : Option Decoder → Bool
reads_before (some sockopt_optname) = true
reads_before (some open_mode) = true
reads_before (some prctl_name) = true
reads_before _ = false

abbrev same_rung : Option Decoder → Option Decoder → Bool
same_rung none r = true
same_rung (some d) none = false
same_rung (some d) (some e) = elim (Decoder-discrete d e) [ yes same ↦ true | no differ ↦ false ]

abbrev keeps_rung : String → ℕ → Bool
keeps_rung name i =
    not (is_pending (outputs_of name))
    || same_rung (first_rung (entry_ladder name) i) (first_rung (exit_ladder name) i)

abbrev covered : String → ℕ → Bool
covered name i =
    in_arity name i
    && (keeps_rung name i && not (i == 0 && reads_before (first_rung (entry_ladder name) i)))

listed_covered : all_of (λ name. each_slot (covered name)) decoded_names ≡ true
unfolding decoded_names entry_claims exit_claims entry_ladder exit_ladder outputs_of first_bit
    syscall_argc is_pending first_rung Decoder-discrete wait_status_arg_mask msghdr_recv_arg_mask
    stat_buf_arg_mask getdents_buf_arg_mask sigaction_old_arg_mask timespec_out_arg_mask
    rusage_arg_mask epoll_events_arg_mask statx_buf_arg_mask rlimit_out_arg_mask read_arg_lookup
    accept_arg_lookup pollfds_arg_lookup iovec_read_arg_lookup buffer_arg_lookup sockaddr_arg_lookup
    iovec_write_arg_lookup
listed_covered = refl

same_rung→eq : (r q : Option Decoder) (d : Decoder) → same_rung r q ≡ true → r ≡ some d → q ≡ some d
same_rung→eq none q d h e = cc
same_rung→eq (some c) none d h e = cc
same_rung→eq (some c) (some b) d h e = go (Decoder-discrete c b) h
  where
    go :
        (t : Dec (c ≡ b))
        → (elim t [ yes same ↦ true | no differ ↦ false ]) ≡ true
        → some b ≡ some d
    go (yes same) k = sym (ap some same) ∙ e
    go (no differ) k = cc

covered_everywhere :
    (name : String) (i : ℕ) → mem_name name decoded_names ≡ true → i < 6 → covered name i ≡ true
covered_everywhere name i known h = listed_slot covered name i listed_covered known h

-- Whatever a dispatch chain decodes is also printed: one of the six slots that a rung of the entry
-- or the exit chain claims is one of those that `print_call` writes for this call.
pub claimed_slot_shown :
    (name : String) (i : ℕ)
    → i < 6
    → 0 < entry_claims name i + exit_claims name i
    → i < shown_args (syscall_argc name)
claimed_slot_shown name i h c = elim (Bool-cases (mem_name name decoded_names)) [
  | inl known ↦
      let e : in_arity name i ≡ true = (ground (arith, covered_everywhere name i known h)) in
      ground arith
  | inr unknown ↦ absurd (omega (arith, unlisted_claims name i unknown))
]

-- A deferred call loses no decoding by a mask: the decoder that a rung of the entry chain would
-- have used for one of the six slots is the one that the exit chain uses.
pub deferred_keeps_decoder :
    (name : String) (i : ℕ) (d : Decoder)
    → i < 6
    → is_pending (outputs_of name) ≡ true
    → first_rung (entry_ladder name) i ≡ some d
    → first_rung (exit_ladder name) i ≡ some d
deferred_keeps_decoder name i d h p e = elim (Bool-cases (mem_name name decoded_names)) [
  | inl known ↦
      let k : keeps_rung name i ≡ true = ground (arith, covered_everywhere name i known h) in
      same_rung→eq (first_rung (entry_ladder name) i) _ d (ground arith) e
  | inr unknown ↦ absurd (cc (e, (entry_ladder_unlisted name unknown i).1))
]

-- A decoder that also reads the argument before its own never stands at slot 0, where the tracer would
-- read outside the array.
pub reads_before_inside :
    (name : String) (i : ℕ) → reads_before (first_rung (entry_ladder name) i) ≡ true → i < 6 → 0 < i
reads_before_inside name i r h = elim (Bool-cases (mem_name name decoded_names)) [
  | inl known ↦ ground (arith, covered_everywhere name i known h)
  | inr unknown ↦
      let e : reads_before (first_rung (entry_ladder name) i) ≡ false =
        rw (entry_ladder_unlisted name unknown i).1 refl in
      cc
]

-- ===== src/Dispatch/Slots.antt =====
-- Who claims a slot: for every call and every slot at most one rung of a dispatch chain applies, so
-- the order of the chain decides nothing.
use mini_strace.Base.{
  ℕ, zero, suc, ◌+◌, ◌<◌, ◌≤◌, String, Bool, true, false, ◌&&◌, List, [], ◌∷◌, ◌≡◌, refl, arith,
  if◌then◌else◌, leb, all_of, Bool-cases, inl, inr,
}
use mini_strace.Routing.Outputs.{
  wait_status_arg_mask, msghdr_recv_arg_mask, stat_buf_arg_mask, getdents_buf_arg_mask,
  sigaction_old_arg_mask, timespec_out_arg_mask, rusage_arg_mask, epoll_events_arg_mask,
  statx_buf_arg_mask, rlimit_out_arg_mask,
}
use mini_strace.Routing.Pairs.{
  read_arg_lookup, accept_arg_lookup, pollfds_arg_lookup, iovec_read_arg_lookup, buffer_arg_lookup,
  sockaddr_arg_lookup, iovec_write_arg_lookup,
}
use mini_strace.Dispatch.Ladder.{first_bit}
use mini_strace.Dispatch.EntryLadder.{entry_ladder}
use mini_strace.Dispatch.ExitLadder.{exit_ladder}
use mini_strace.Dispatch.Pending.{Pending, outputs_of}
use mini_strace.Dispatch.Entry.{at_entry}
use mini_strace.Dispatch.Exit.{at_idx}
use mini_strace.Dispatch.Names.{mem_name, decoded_names, listed}
use mini_strace.Dispatch.Unlisted.{
  outputs_of_unlisted, buffer_unlisted, sockaddr_unlisted, iovec_write_unlisted,
}
use mini_strace.Dispatch.Rungs.{ladder_claims, entry_ladder_unlisted, exit_ladder_unlisted}

abbrev pub count_true : List Bool → ℕ
count_true [] = 0
count_true (b ∷ bs) = (if b then 1 else 0) + count_true bs

-- The tests of the three rungs behind the masks of the entry chain.
abbrev pub entry_pair_tests : String → ℕ → List Bool
entry_pair_tests name i =
    at_entry (buffer_arg_lookup name) i
    ∷ at_entry (sockaddr_arg_lookup name) i
    ∷ at_entry (iovec_write_arg_lookup name) i
    ∷ []

-- The slot tests of the fourteen rungs behind the masks of the exit chain.
abbrev pub pending_tests : Pending → ℕ → List Bool
pending_tests p i =
    at_entry p.read_entry i
    ∷ at_entry p.sockaddr_entry i
    ∷ at_idx p.wait_status_idx i
    ∷ at_idx p.msghdr_idx i
    ∷ at_idx p.stat_idx i
    ∷ at_idx p.getdents_idx i
    ∷ at_idx p.sigaction_idx i
    ∷ at_idx p.timespec_out_idx i
    ∷ at_idx p.rusage_idx i
    ∷ at_idx p.rlimit_idx i
    ∷ at_idx p.epoll_events_idx i
    ∷ at_entry p.pollfds_entry i
    ∷ at_idx p.statx_idx i
    ∷ at_entry p.iovec_entry i
    ∷ []

unfoldable pub entry_claims : String → ℕ → ℕ
entry_claims name i = ladder_claims (entry_ladder name) i + count_true (entry_pair_tests name i)

unfoldable pub exit_claims : String → ℕ → ℕ
exit_claims name i =
    ladder_claims (exit_ladder name) i + count_true (pending_tests (outputs_of name) i)

-- A test of the six slots.
abbrev pub each_slot : (ℕ → Bool) → Bool
each_slot p = p 0 && (p 1 && (p 2 && (p 3 && (p 4 && p 5))))

pub each_slot_sound : (p : ℕ → Bool) (i : ℕ) → each_slot p ≡ true → i < 6 → p i ≡ true
each_slot_sound p zero h k = ground arith
each_slot_sound p (suc zero) h k = ground arith
each_slot_sound p (suc (suc zero)) h k = ground arith
each_slot_sound p (suc (suc (suc zero))) h k = ground arith
each_slot_sound p (suc (suc (suc (suc zero)))) h k = ground arith
each_slot_sound p (suc (suc (suc (suc (suc zero))))) h k = ground arith
each_slot_sound p (suc (suc (suc (suc (suc (suc i)))))) h k = absurd (omega arith)

-- A test that passes on every slot of every listed name.
pub listed_slot :
    (p : String → ℕ → Bool) (name : String) (i : ℕ)
    → all_of (λ n. each_slot (p n)) decoded_names ≡ true
    → mem_name name decoded_names ≡ true
    → i < 6
    → p name i ≡ true
listed_slot p name i h m k =
    each_slot_sound (p name) i (listed (λ n. each_slot (p n)) name decoded_names h m) k

abbrev at_most_one : String → ℕ → Bool
at_most_one name i = leb (entry_claims name i) 1 && leb (exit_claims name i) 1

listed_slots_distinct : all_of (λ name. each_slot (at_most_one name)) decoded_names ≡ true
unfolding decoded_names entry_claims exit_claims entry_ladder exit_ladder outputs_of first_bit
    wait_status_arg_mask msghdr_recv_arg_mask stat_buf_arg_mask getdents_buf_arg_mask
    sigaction_old_arg_mask timespec_out_arg_mask rusage_arg_mask epoll_events_arg_mask
    statx_buf_arg_mask rlimit_out_arg_mask read_arg_lookup accept_arg_lookup pollfds_arg_lookup
    iovec_read_arg_lookup buffer_arg_lookup sockaddr_arg_lookup iovec_write_arg_lookup
listed_slots_distinct = refl

pub unlisted_claims :
    (name : String) (i : ℕ)
    → mem_name name decoded_names ≡ false
    → (entry_claims name i ≡ 0) × (exit_claims name i ≡ 0)
unfolding entry_claims exit_claims
unlisted_claims name i h = (
  rw (entry_ladder_unlisted name h i).0
      (rw (buffer_unlisted name h, sockaddr_unlisted name h, iovec_write_unlisted name h) refl),
  rw (exit_ladder_unlisted name h i).0 (rw (outputs_of_unlisted name h) refl),
)

at_most_one_claim :
    (name : String) (i : ℕ) → i < 6 → (entry_claims name i ≤ 1) × (exit_claims name i ≤ 1)
at_most_one_claim name i h = elim (Bool-cases (mem_name name decoded_names)) [
  | inl known ↦
      let e : at_most_one name i ≡ true =
        listed_slot at_most_one name i listed_slots_distinct known h in
      ground arith
  | inr unknown ↦ omega (arith, unlisted_claims name i unknown)
]

-- At a syscall-entry stop at most one rung of the dispatch chain claims any of the six slots,
-- whatever the call.
pub entry_claims_le_one : (name : String) (i : ℕ) → i < 6 → entry_claims name i ≤ 1
entry_claims_le_one name i h = (at_most_one_claim name i h).0

-- At a syscall-exit stop at most one rung of the deferred chain claims any of the six slots,
-- whatever the call: the arguments that the kernel fills in share no slot with one another, nor
-- with those read from the caller.
pub exit_claims_le_one : (name : String) (i : ℕ) → i < 6 → exit_claims name i ≤ 1
exit_claims_le_one name i h = (at_most_one_claim name i h).1

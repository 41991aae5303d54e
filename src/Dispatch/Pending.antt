-- ===== src/Dispatch/Pending.antt =====
-- src/mini_strace.c: the `pending_*` fields of `tracee_state`, and their lookups at a syscall-entry
-- stop: which arguments of the call the kernel fills in, so that they wait for the exit stop.
use mini_strace.Base.{ℕ, String, Bool, true, false, ◌||◌, Option, none, some}
use mini_strace.Routing.Lookup.{BufferArgEntry}
use mini_strace.Routing.Outputs.{
  wait_status_arg_mask, msghdr_recv_arg_mask, stat_buf_arg_mask, getdents_buf_arg_mask,
  sigaction_old_arg_mask, timespec_out_arg_mask, rusage_arg_mask, epoll_events_arg_mask,
  statx_buf_arg_mask, rlimit_out_arg_mask,
}
use mini_strace.Routing.Pairs.{
  read_arg_lookup, accept_arg_lookup, pollfds_arg_lookup, iovec_read_arg_lookup,
}
use mini_strace.Dispatch.Ladder.{slot_of, first_bit}

-- NULL and -1 are `none`.
pub record Pending : Type 0 where
  pub read_entry : Option BufferArgEntry
  pub sockaddr_entry : Option BufferArgEntry
  pub wait_status_idx : Option ℕ
  pub msghdr_idx : Option ℕ
  pub stat_idx : Option ℕ
  pub getdents_idx : Option ℕ
  pub sigaction_idx : Option ℕ
  pub timespec_out_idx : Option ℕ
  pub rusage_idx : Option ℕ
  pub epoll_events_idx : Option ℕ
  pub pollfds_entry : Option BufferArgEntry
  pub statx_idx : Option ℕ
  pub iovec_entry : Option BufferArgEntry
  pub rlimit_idx : Option ℕ

-- The fields as every path that prints nothing later resets them.
abbrev pub no_pending : Pending
no_pending = record {
  read_entry = none;
  sockaddr_entry = none;
  wait_status_idx = none;
  msghdr_idx = none;
  stat_idx = none;
  getdents_idx = none;
  sigaction_idx = none;
  timespec_out_idx = none;
  rusage_idx = none;
  epoll_events_idx = none;
  pollfds_entry = none;
  statx_idx = none;
  iovec_entry = none;
  rlimit_idx = none;
}

-- The lookups by the name of the call.
unfoldable pub outputs_of : String → Pending
unfolding first_bit
outputs_of name = record {
  read_entry = read_arg_lookup name;
  sockaddr_entry = accept_arg_lookup name;
  wait_status_idx = slot_of (wait_status_arg_mask name);
  msghdr_idx = slot_of (msghdr_recv_arg_mask name);
  stat_idx = slot_of (stat_buf_arg_mask name);
  getdents_idx = slot_of (getdents_buf_arg_mask name);
  sigaction_idx = slot_of (sigaction_old_arg_mask name);
  timespec_out_idx = slot_of (timespec_out_arg_mask name);
  rusage_idx = slot_of (rusage_arg_mask name);
  epoll_events_idx = slot_of (epoll_events_arg_mask name);
  pollfds_entry = pollfds_arg_lookup name;
  statx_idx = slot_of (statx_buf_arg_mask name);
  iovec_entry = iovec_read_arg_lookup name;
  rlimit_idx = slot_of (rlimit_out_arg_mask name);
}

abbrev pub is_some {ℓ} : {A : Type ℓ} → Option A → Bool
is_some none = false
is_some (some a) = true

-- The test of the entry stop before it defers a call, and of the exit stop before it prints one.
unfoldable pub is_pending : Pending → Bool
is_pending p =
    is_some p.read_entry
    || (is_some p.sockaddr_entry
        || (is_some p.wait_status_idx
            || (is_some p.msghdr_idx
                || (is_some p.stat_idx
                    || (is_some p.getdents_idx
                        || (is_some p.sigaction_idx
                            || (is_some p.timespec_out_idx
                                || (is_some p.rusage_idx
                                    || (is_some p.epoll_events_idx
                                        || (is_some p.pollfds_entry
                                            || (is_some p.statx_idx
                                                || (is_some p.iovec_entry
                                                    || is_some p.rlimit_idx))))))))))))

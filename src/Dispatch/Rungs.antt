-- ===== src/Dispatch/Rungs.antt =====
-- The two ladders as lists of tables, so that a fact about every rung is proved table by table.
use mini_strace.Base.{
  ℕ, String, Bool, true, false, ◌&&◌, List, [], ◌∷◌, none, ◌≡◌, refl, arith, if◌then◌else◌, ◌+◌,
  ◌^◌,
}
use mini_strace.Base.Bits.{zero-bit_and}
use mini_strace.Routing.Lookup.{MaskTable, mask_lookup}
use mini_strace.Dispatch.Decoder.{Decoder}
use mini_strace.Dispatch.Ladder.{Ladder, bit_at, first_rung}
use mini_strace.Dispatch.EntryLadder.{entry_ladder}
use mini_strace.Dispatch.ExitLadder.{exit_ladder}
use mini_strace.Dispatch.Names.{mem_name, decoded_names, masks_listed, mask_lookup_unlisted}
use mini_strace.Routing.Paths.{
  string_arg_table, argv_arg_table, open_flags_arg_table, dirfd_arg_table, file_mode_arg_table,
  open_mode_arg_table, at_flags_arg_table, unlinkat_flags_arg_table, faccessat_flags_arg_table,
  access_mode_arg_table,
}
use mini_strace.Routing.Values.{
  prot_flags_arg_table, map_flags_arg_table, mount_flags_arg_table, socket_domain_arg_table,
  socket_type_arg_table, sockopt_level_arg_table, sockopt_optname_arg_table, fdset_arg_table,
  msg_flags_arg_table, rlimit_in_arg_table, waitid_idtype_arg_table, waitid_options_arg_table,
  sched_policy_arg_table, renameat2_flags_arg_table, mremap_flags_arg_table, memfd_flags_arg_table,
  eventfd_flags_arg_table, rlimit_resource_arg_table, wait4_options_arg_table, rusage_who_arg_table,
}
use mini_strace.Routing.Structs.{
  epoll_op_arg_table, epoll_event_arg_table, prctl_option_arg_table, prctl_name_arg_table,
  pipe2_flags_arg_table, getrandom_flags_arg_table, flock_op_arg_table, madvise_advice_arg_table,
  futex_op_arg_table, signal_arg_table, lseek_whence_arg_table, fcntl_cmd_arg_table,
  sigprocmask_how_arg_table, clockid_arg_table, timespec_in_arg_table, clone_flags_arg_table,
  clone3_args_arg_table, ioctl_request_arg_table, msghdr_send_arg_table, sigaction_new_arg_table,
  statx_mask_arg_table,
}
use mini_strace.Routing.Paths.{
  string_arg_mask, argv_arg_mask, open_flags_arg_mask, dirfd_arg_mask, file_mode_arg_mask,
  open_mode_arg_mask, at_flags_arg_mask, unlinkat_flags_arg_mask, faccessat_flags_arg_mask,
  access_mode_arg_mask,
}
use mini_strace.Routing.Values.{
  prot_flags_arg_mask, map_flags_arg_mask, mount_flags_arg_mask, socket_domain_arg_mask,
  socket_type_arg_mask, sockopt_level_arg_mask, sockopt_optname_arg_mask, fdset_arg_mask,
  msg_flags_arg_mask, rlimit_in_arg_mask, waitid_idtype_arg_mask, waitid_options_arg_mask,
  sched_policy_arg_mask, renameat2_flags_arg_mask, mremap_flags_arg_mask, memfd_flags_arg_mask,
  eventfd_flags_arg_mask, rlimit_resource_arg_mask, wait4_options_arg_mask, rusage_who_arg_mask,
}
use mini_strace.Routing.Structs.{
  epoll_op_arg_mask, epoll_event_arg_mask, prctl_option_arg_mask, prctl_name_arg_mask,
  pipe2_flags_arg_mask, getrandom_flags_arg_mask, flock_op_arg_mask, madvise_advice_arg_mask,
  futex_op_arg_mask, signal_arg_mask, lseek_whence_arg_mask, fcntl_cmd_arg_mask,
  sigprocmask_how_arg_mask, clockid_arg_mask, timespec_in_arg_mask, clone_flags_arg_mask,
  clone3_args_arg_mask, ioctl_request_arg_mask, msghdr_send_arg_mask, sigaction_new_arg_mask,
  statx_mask_arg_mask,
}

abbrev Tables : Type 0
Tables = List (MaskTable × Decoder)

abbrev rungs_of : Tables → String → Ladder
rungs_of [] name = []
rungs_of ((table, d) ∷ tables) name = (mask_lookup table name, d) ∷ rungs_of tables name

abbrev all_listed : Tables → Bool
all_listed [] = true
all_listed ((table, d) ∷ tables) = masks_listed table && all_listed tables

abbrev entry_tables : Tables
entry_tables =
    (string_arg_table, Decoder.child_string)
    ∷ (argv_arg_table, Decoder.child_argv)
    ∷ (open_flags_arg_table, Decoder.open_flags)
    ∷ (prot_flags_arg_table, Decoder.prot_flags)
    ∷ (map_flags_arg_table, Decoder.map_flags)
    ∷ (mount_flags_arg_table, Decoder.mount_flags)
    ∷ (epoll_op_arg_table, Decoder.epoll_op)
    ∷ (epoll_event_arg_table, Decoder.epoll_event)
    ∷ (socket_domain_arg_table, Decoder.socket_domain)
    ∷ (socket_type_arg_table, Decoder.socket_type)
    ∷ (sockopt_level_arg_table, Decoder.sockopt_level)
    ∷ (sockopt_optname_arg_table, Decoder.sockopt_optname)
    ∷ (fdset_arg_table, Decoder.fdset)
    ∷ (msg_flags_arg_table, Decoder.msg_flags)
    ∷ (prctl_option_arg_table, Decoder.prctl_option)
    ∷ (prctl_name_arg_table, Decoder.prctl_name)
    ∷ (dirfd_arg_table, Decoder.dirfd)
    ∷ (rlimit_in_arg_table, Decoder.rlimit)
    ∷ (waitid_idtype_arg_table, Decoder.waitid_idtype)
    ∷ (waitid_options_arg_table, Decoder.waitid_options)
    ∷ (sched_policy_arg_table, Decoder.sched_policy)
    ∷ (renameat2_flags_arg_table, Decoder.renameat2_flags)
    ∷ (mremap_flags_arg_table, Decoder.mremap_flags)
    ∷ (memfd_flags_arg_table, Decoder.memfd_flags)
    ∷ (eventfd_flags_arg_table, Decoder.eventfd_flags)
    ∷ (rlimit_resource_arg_table, Decoder.rlimit_resource)
    ∷ (file_mode_arg_table, Decoder.file_mode)
    ∷ (open_mode_arg_table, Decoder.open_mode)
    ∷ (pipe2_flags_arg_table, Decoder.pipe2_flags)
    ∷ (getrandom_flags_arg_table, Decoder.getrandom_flags)
    ∷ (flock_op_arg_table, Decoder.flock_op)
    ∷ (madvise_advice_arg_table, Decoder.madvise_advice)
    ∷ (futex_op_arg_table, Decoder.futex_op)
    ∷ (at_flags_arg_table, Decoder.at_flags)
    ∷ (unlinkat_flags_arg_table, Decoder.unlinkat_flags)
    ∷ (faccessat_flags_arg_table, Decoder.faccessat_flags)
    ∷ (signal_arg_table, Decoder.signal)
    ∷ (lseek_whence_arg_table, Decoder.lseek_whence)
    ∷ (fcntl_cmd_arg_table, Decoder.fcntl_cmd)
    ∷ (sigprocmask_how_arg_table, Decoder.sigprocmask_how)
    ∷ (access_mode_arg_table, Decoder.access_mode)
    ∷ (clockid_arg_table, Decoder.clockid)
    ∷ (timespec_in_arg_table, Decoder.timespec)
    ∷ (clone_flags_arg_table, Decoder.clone_flags)
    ∷ (clone3_args_arg_table, Decoder.clone3_args)
    ∷ (ioctl_request_arg_table, Decoder.ioctl_request)
    ∷ (msghdr_send_arg_table, Decoder.msghdr)
    ∷ []

entry_ladder-rungs : (name : String) → entry_ladder name ≡ rungs_of entry_tables name
unfolding entry_ladder string_arg_mask argv_arg_mask open_flags_arg_mask prot_flags_arg_mask
    map_flags_arg_mask mount_flags_arg_mask epoll_op_arg_mask epoll_event_arg_mask
    socket_domain_arg_mask socket_type_arg_mask sockopt_level_arg_mask sockopt_optname_arg_mask
    fdset_arg_mask msg_flags_arg_mask prctl_option_arg_mask prctl_name_arg_mask dirfd_arg_mask
    rlimit_in_arg_mask waitid_idtype_arg_mask waitid_options_arg_mask sched_policy_arg_mask
    renameat2_flags_arg_mask mremap_flags_arg_mask memfd_flags_arg_mask eventfd_flags_arg_mask
    rlimit_resource_arg_mask file_mode_arg_mask open_mode_arg_mask pipe2_flags_arg_mask
    getrandom_flags_arg_mask flock_op_arg_mask madvise_advice_arg_mask futex_op_arg_mask
    at_flags_arg_mask unlinkat_flags_arg_mask faccessat_flags_arg_mask signal_arg_mask
    lseek_whence_arg_mask fcntl_cmd_arg_mask sigprocmask_how_arg_mask access_mode_arg_mask
    clockid_arg_mask timespec_in_arg_mask clone_flags_arg_mask clone3_args_arg_mask
    ioctl_request_arg_mask msghdr_send_arg_mask
entry_ladder-rungs name = refl

entry_tables_listed : all_listed entry_tables ≡ true
unfolding mem_name decoded_names string_arg_table argv_arg_table open_flags_arg_table
    prot_flags_arg_table map_flags_arg_table mount_flags_arg_table epoll_op_arg_table
    epoll_event_arg_table socket_domain_arg_table socket_type_arg_table sockopt_level_arg_table
    sockopt_optname_arg_table fdset_arg_table msg_flags_arg_table prctl_option_arg_table
    prctl_name_arg_table dirfd_arg_table rlimit_in_arg_table waitid_idtype_arg_table
    waitid_options_arg_table sched_policy_arg_table renameat2_flags_arg_table mremap_flags_arg_table
    memfd_flags_arg_table eventfd_flags_arg_table rlimit_resource_arg_table file_mode_arg_table
    open_mode_arg_table pipe2_flags_arg_table getrandom_flags_arg_table flock_op_arg_table
    madvise_advice_arg_table futex_op_arg_table at_flags_arg_table unlinkat_flags_arg_table
    faccessat_flags_arg_table signal_arg_table lseek_whence_arg_table fcntl_cmd_arg_table
    sigprocmask_how_arg_table access_mode_arg_table clockid_arg_table timespec_in_arg_table
    clone_flags_arg_table clone3_args_arg_table ioctl_request_arg_table msghdr_send_arg_table
entry_tables_listed = refl

abbrev exit_tables : Tables
exit_tables =
    (string_arg_table, Decoder.child_string)
    ∷ (signal_arg_table, Decoder.signal)
    ∷ (sigaction_new_arg_table, Decoder.sigaction)
    ∷ (timespec_in_arg_table, Decoder.timespec)
    ∷ (clockid_arg_table, Decoder.clockid)
    ∷ (statx_mask_arg_table, Decoder.statx_mask)
    ∷ (msg_flags_arg_table, Decoder.msg_flags)
    ∷ (dirfd_arg_table, Decoder.dirfd)
    ∷ (at_flags_arg_table, Decoder.at_flags)
    ∷ (wait4_options_arg_table, Decoder.wait4_options)
    ∷ (rusage_who_arg_table, Decoder.rusage_who)
    ∷ (rlimit_resource_arg_table, Decoder.rlimit_resource)
    ∷ (rlimit_in_arg_table, Decoder.rlimit)
    ∷ []

exit_ladder-rungs : (name : String) → exit_ladder name ≡ rungs_of exit_tables name
unfolding exit_ladder string_arg_mask signal_arg_mask sigaction_new_arg_mask timespec_in_arg_mask
    clockid_arg_mask statx_mask_arg_mask msg_flags_arg_mask dirfd_arg_mask at_flags_arg_mask
    wait4_options_arg_mask rusage_who_arg_mask rlimit_resource_arg_mask rlimit_in_arg_mask
exit_ladder-rungs name = refl

exit_tables_listed : all_listed exit_tables ≡ true
unfolding mem_name decoded_names string_arg_table signal_arg_table sigaction_new_arg_table
    timespec_in_arg_table clockid_arg_table statx_mask_arg_table msg_flags_arg_table dirfd_arg_table
    at_flags_arg_table wait4_options_arg_table rusage_who_arg_table rlimit_resource_arg_table
    rlimit_in_arg_table
exit_tables_listed = refl

-- How many rungs have bit `i`.
abbrev pub ladder_claims : Ladder → ℕ → ℕ
ladder_claims [] i = 0
ladder_claims ((mask, d) ∷ ladder) i = (if bit_at mask i then 1 else 0) + ladder_claims ladder i

module _ (name : String) (unlisted : mem_name name decoded_names ≡ false) (i : ℕ) where
  no_bit : (mask : ℕ) → mask ≡ 0 → bit_at mask i ≡ false
  no_bit mask e = ground (arith, e, zero-bit_and (2 ^ i))

  rungs_unlisted :
      (tables : Tables)
      → all_listed tables ≡ true
      → (ladder_claims (rungs_of tables name) i ≡ 0) × (first_rung (rungs_of tables name) i ≡ none)
  unfolding first_rung
  rungs_unlisted [] h = (refl, refl)
  rungs_unlisted ((table, d) ∷ tables) h = ground (
    arith,
    no_bit (mask_lookup table name),
    mask_lookup_unlisted name unlisted table,
    rungs_unlisted tables,
  )

  pub entry_ladder_unlisted :
      (ladder_claims (entry_ladder name) i ≡ 0) × (first_rung (entry_ladder name) i ≡ none)
  entry_ladder_unlisted =
      rw (entry_ladder-rungs name) (rungs_unlisted entry_tables entry_tables_listed)

  pub exit_ladder_unlisted :
      (ladder_claims (exit_ladder name) i ≡ 0) × (first_rung (exit_ladder name) i ≡ none)
  exit_ladder_unlisted = rw (exit_ladder-rungs name) (rungs_unlisted exit_tables exit_tables_listed)

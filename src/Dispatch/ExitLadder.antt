-- ===== src/Dispatch/ExitLadder.antt =====
-- src/mini_strace.c, `run_tracer`: the masks that the deferred dispatch of a syscall-exit stop tests,
-- in the order of its if-else chain.
use mini_strace.Base.{String, [], ◌∷◌}
use mini_strace.Dispatch.Decoder.{
  at_flags, child_string, clockid, dirfd, msg_flags, rlimit, rlimit_resource, rusage_who, sigaction,
  signal, statx_mask, timespec, wait4_options,
}
use mini_strace.Dispatch.Ladder.{Ladder}
use mini_strace.Routing.Paths.{string_arg_mask, dirfd_arg_mask, at_flags_arg_mask}
use mini_strace.Routing.Values.{
  msg_flags_arg_mask, wait4_options_arg_mask, rusage_who_arg_mask, rlimit_resource_arg_mask,
  rlimit_in_arg_mask,
}
use mini_strace.Routing.Structs.{
  signal_arg_mask, sigaction_new_arg_mask, timespec_in_arg_mask, clockid_arg_mask,
  statx_mask_arg_mask,
}

unfoldable pub exit_ladder : String → Ladder
unfolding string_arg_mask signal_arg_mask sigaction_new_arg_mask timespec_in_arg_mask
    clockid_arg_mask statx_mask_arg_mask msg_flags_arg_mask dirfd_arg_mask at_flags_arg_mask
    wait4_options_arg_mask rusage_who_arg_mask rlimit_resource_arg_mask rlimit_in_arg_mask
exit_ladder name =
    (string_arg_mask name, child_string)
    ∷ (signal_arg_mask name, signal)
    ∷ (sigaction_new_arg_mask name, sigaction)
    ∷ (timespec_in_arg_mask name, timespec)
    ∷ (clockid_arg_mask name, clockid)
    ∷ (statx_mask_arg_mask name, statx_mask)
    ∷ (msg_flags_arg_mask name, msg_flags)
    ∷ (dirfd_arg_mask name, dirfd)
    ∷ (at_flags_arg_mask name, at_flags)
    ∷ (wait4_options_arg_mask name, wait4_options)
    ∷ (rusage_who_arg_mask name, rusage_who)
    ∷ (rlimit_resource_arg_mask name, rlimit_resource)
    ∷ (rlimit_in_arg_mask name, rlimit)
    ∷ []

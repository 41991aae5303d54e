-- ===== src/Dispatch/EntryLadder.antt =====
-- src/mini_strace.c, `run_tracer`: the masks that the dispatch of a syscall-entry stop tests, in the
-- order of its if-else chain.
use mini_strace.Base.{String, [], ◌∷◌}
use mini_strace.Dispatch.Decoder.{
  access_mode, at_flags, child_argv, child_string, clockid, clone3_args, clone_flags, dirfd,
  epoll_event, epoll_op, eventfd_flags, faccessat_flags, fcntl_cmd, fdset, file_mode, flock_op,
  futex_op, getrandom_flags, ioctl_request, lseek_whence, madvise_advice, map_flags, memfd_flags,
  mount_flags, mremap_flags, msg_flags, msghdr, open_flags, open_mode, pipe2_flags, prctl_name,
  prctl_option, prot_flags, renameat2_flags, rlimit, rlimit_resource, sched_policy, signal,
  sigprocmask_how, socket_domain, socket_type, sockopt_level, sockopt_optname, timespec,
  unlinkat_flags, waitid_idtype, waitid_options,
}
use mini_strace.Dispatch.Ladder.{Ladder}
use mini_strace.Routing.Paths.{
  string_arg_mask, argv_arg_mask, open_flags_arg_mask, dirfd_arg_mask, file_mode_arg_mask,
  open_mode_arg_mask, at_flags_arg_mask, unlinkat_flags_arg_mask, faccessat_flags_arg_mask,
  access_mode_arg_mask,
}
use mini_strace.Routing.Values.{
  prot_flags_arg_mask, map_flags_arg_mask, mount_flags_arg_mask, socket_domain_arg_mask,
  socket_type_arg_mask, sockopt_level_arg_mask, sockopt_optname_arg_mask, fdset_arg_mask,
  msg_flags_arg_mask, rlimit_in_arg_mask, waitid_idtype_arg_mask, waitid_options_arg_mask,
  sched_policy_arg_mask, renameat2_flags_arg_mask, mremap_flags_arg_mask, memfd_flags_arg_mask,
  eventfd_flags_arg_mask, rlimit_resource_arg_mask,
}
use mini_strace.Routing.Structs.{
  epoll_op_arg_mask, epoll_event_arg_mask, prctl_option_arg_mask, prctl_name_arg_mask,
  pipe2_flags_arg_mask, getrandom_flags_arg_mask, flock_op_arg_mask, madvise_advice_arg_mask,
  futex_op_arg_mask, signal_arg_mask, lseek_whence_arg_mask, fcntl_cmd_arg_mask,
  sigprocmask_how_arg_mask, clockid_arg_mask, timespec_in_arg_mask, clone_flags_arg_mask,
  clone3_args_arg_mask, ioctl_request_arg_mask, msghdr_send_arg_mask,
}

unfoldable pub entry_ladder : String → Ladder
unfolding string_arg_mask argv_arg_mask open_flags_arg_mask prot_flags_arg_mask map_flags_arg_mask
    mount_flags_arg_mask epoll_op_arg_mask epoll_event_arg_mask socket_domain_arg_mask
    socket_type_arg_mask sockopt_level_arg_mask sockopt_optname_arg_mask fdset_arg_mask
    msg_flags_arg_mask prctl_option_arg_mask prctl_name_arg_mask dirfd_arg_mask rlimit_in_arg_mask
    waitid_idtype_arg_mask waitid_options_arg_mask sched_policy_arg_mask renameat2_flags_arg_mask
    mremap_flags_arg_mask memfd_flags_arg_mask eventfd_flags_arg_mask rlimit_resource_arg_mask
    file_mode_arg_mask open_mode_arg_mask pipe2_flags_arg_mask getrandom_flags_arg_mask
    flock_op_arg_mask madvise_advice_arg_mask futex_op_arg_mask at_flags_arg_mask
    unlinkat_flags_arg_mask faccessat_flags_arg_mask signal_arg_mask lseek_whence_arg_mask
    fcntl_cmd_arg_mask sigprocmask_how_arg_mask access_mode_arg_mask clockid_arg_mask
    timespec_in_arg_mask clone_flags_arg_mask clone3_args_arg_mask ioctl_request_arg_mask
    msghdr_send_arg_mask
entry_ladder name =
    (string_arg_mask name, child_string)
    ∷ (argv_arg_mask name, child_argv)
    ∷ (open_flags_arg_mask name, open_flags)
    ∷ (prot_flags_arg_mask name, prot_flags)
    ∷ (map_flags_arg_mask name, map_flags)
    ∷ (mount_flags_arg_mask name, mount_flags)
    ∷ (epoll_op_arg_mask name, epoll_op)
    ∷ (epoll_event_arg_mask name, epoll_event)
    ∷ (socket_domain_arg_mask name, socket_domain)
    ∷ (socket_type_arg_mask name, socket_type)
    ∷ (sockopt_level_arg_mask name, sockopt_level)
    ∷ (sockopt_optname_arg_mask name, sockopt_optname)
    ∷ (fdset_arg_mask name, fdset)
    ∷ (msg_flags_arg_mask name, msg_flags)
    ∷ (prctl_option_arg_mask name, prctl_option)
    ∷ (prctl_name_arg_mask name, prctl_name)
    ∷ (dirfd_arg_mask name, dirfd)
    ∷ (rlimit_in_arg_mask name, rlimit)
    ∷ (waitid_idtype_arg_mask name, waitid_idtype)
    ∷ (waitid_options_arg_mask name, waitid_options)
    ∷ (sched_policy_arg_mask name, sched_policy)
    ∷ (renameat2_flags_arg_mask name, renameat2_flags)
    ∷ (mremap_flags_arg_mask name, mremap_flags)
    ∷ (memfd_flags_arg_mask name, memfd_flags)
    ∷ (eventfd_flags_arg_mask name, eventfd_flags)
    ∷ (rlimit_resource_arg_mask name, rlimit_resource)
    ∷ (file_mode_arg_mask name, file_mode)
    ∷ (open_mode_arg_mask name, open_mode)
    ∷ (pipe2_flags_arg_mask name, pipe2_flags)
    ∷ (getrandom_flags_arg_mask name, getrandom_flags)
    ∷ (flock_op_arg_mask name, flock_op)
    ∷ (madvise_advice_arg_mask name, madvise_advice)
    ∷ (futex_op_arg_mask name, futex_op)
    ∷ (at_flags_arg_mask name, at_flags)
    ∷ (unlinkat_flags_arg_mask name, unlinkat_flags)
    ∷ (faccessat_flags_arg_mask name, faccessat_flags)
    ∷ (signal_arg_mask name, signal)
    ∷ (lseek_whence_arg_mask name, lseek_whence)
    ∷ (fcntl_cmd_arg_mask name, fcntl_cmd)
    ∷ (sigprocmask_how_arg_mask name, sigprocmask_how)
    ∷ (access_mode_arg_mask name, access_mode)
    ∷ (clockid_arg_mask name, clockid)
    ∷ (timespec_in_arg_mask name, timespec)
    ∷ (clone_flags_arg_mask name, clone_flags)
    ∷ (clone3_args_arg_mask name, clone3_args)
    ∷ (ioctl_request_arg_mask name, ioctl_request)
    ∷ (msghdr_send_arg_mask name, msghdr)
    ∷ []

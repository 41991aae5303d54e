-- ===== src/Decoders/Calls.antt =====
-- src/mini_strace.c, `run_tracer`: the call of a decoder for an argument, with the text that it writes.
use mini_strace.Base.{ℕ, not, Option, none, some, ◌==◌}
use mini_strace.Base.Bytes.{Bytes}
use mini_strace.ChildMem.{read_child_string, read_child_buffer, read_child_argv}
use mini_strace.Dispatch.Decoder.{Decoding, decode, decode_with, decode_result, decode_array}
use mini_strace.Dispatch.Decoder.{
  access_mode, at_flags, child_argv, child_buffer, child_string, clockid, clone3_args, clone_flags,
  dirfd, epoll_event, epoll_events_buf, epoll_op, eventfd_flags, faccessat_flags, fcntl_cmd, fdset,
  file_mode, flock_op, futex_op, getdents_buf, getrandom_flags, hex_or_fd_arg, ioctl_request,
  iovec_buf, lseek_whence, madvise_advice, map_flags, memfd_flags, mount_flags, mremap_flags,
  msg_flags, msghdr, open_flags, open_mode, pipe2_flags, pollfds_buf, prctl_name, prctl_option,
  prot_flags, renameat2_flags, rlimit, rlimit_resource, rusage, rusage_who, sched_policy, sigaction,
  signal, sigprocmask_how, sockaddr, socket_domain, socket_type, sockopt_level, sockopt_optname,
  stat_buf, statx_buf, statx_mask, timespec, unlinkat_flags, wait4_options, wait_status,
  waitid_idtype, waitid_options, Decoder,
}
use mini_strace.Decoders.Flags.{
  format_prot_flags, format_access_mode, format_msg_flags, format_map_flags, format_mount_flags,
  format_statx_mask, format_pipe2_flags, format_getrandom_flags, format_flock_op,
  format_renameat2_flags, format_mremap_flags, format_memfd_flags, format_eventfd_flags,
  format_wait4_options, format_waitid_options,
}
use mini_strace.Decoders.Choices.{
  format_socket_domain, format_lseek_whence, format_fcntl_cmd, format_sigprocmask_how,
  format_clockid, format_epoll_op, format_sockopt_level, format_prctl_option, format_madvise_advice,
  format_waitid_idtype, format_rlimit_resource,
}
use mini_strace.Decoders.Mixed.{
  format_open_flags, format_socket_type, format_futex_op, format_sched_policy, format_at_flags,
  format_unlinkat_flags, format_faccessat_flags, format_signal_arg, format_clone_flags,
}
use mini_strace.Decoders.Requests.{
  format_ioctl_request, format_rusage_who, format_file_mode, format_sockopt_optname,
  format_open_mode, format_prctl_name_arg,
}
use mini_strace.Decoders.Structs.{
  format_clone3_flags, format_rlimit, format_timespec, format_rusage, format_stat_buf,
  format_statx_buf, format_sigaction,
}
use mini_strace.Decoders.Arrays.{
  format_epoll_event, format_epoll_events_buf, format_pollfds_buf, format_fdset_buf,
  format_iovec_buf,
}
use mini_strace.Decoders.Dirents.{format_getdents_buf}
use mini_strace.Decoders.Messages.{format_sockaddr}
use mini_strace.Decoders.Msghdr.{
  DecodeEnv, format_msghdr, format_wait_status, format_hex_or_fd_arg, format_dirfd,
}

-- The decoders that are given the argument alone, but those of the process's memory.
unfoldable pub value_text : Decoder → Option (ℕ → ℕ → Bytes)
unfolding format_prot_flags format_access_mode format_msg_flags format_map_flags format_mount_flags
    format_statx_mask format_pipe2_flags format_getrandom_flags format_flock_op
    format_renameat2_flags format_mremap_flags format_memfd_flags format_eventfd_flags
    format_wait4_options format_waitid_options format_socket_domain format_lseek_whence
    format_fcntl_cmd format_sigprocmask_how format_clockid format_epoll_op format_sockopt_level
    format_prctl_option format_madvise_advice format_waitid_idtype format_rlimit_resource
    format_open_flags format_socket_type format_futex_op format_sched_policy format_at_flags
    format_unlinkat_flags format_faccessat_flags format_ioctl_request format_rusage_who
    format_file_mode
value_text prot_flags = some format_prot_flags
value_text access_mode = some format_access_mode
value_text msg_flags = some format_msg_flags
value_text map_flags = some format_map_flags
value_text mount_flags = some format_mount_flags
value_text statx_mask = some format_statx_mask
value_text pipe2_flags = some format_pipe2_flags
value_text getrandom_flags = some format_getrandom_flags
value_text flock_op = some format_flock_op
value_text renameat2_flags = some format_renameat2_flags
value_text mremap_flags = some format_mremap_flags
value_text memfd_flags = some format_memfd_flags
value_text eventfd_flags = some format_eventfd_flags
value_text wait4_options = some format_wait4_options
value_text waitid_options = some format_waitid_options
value_text socket_domain = some format_socket_domain
value_text lseek_whence = some format_lseek_whence
value_text fcntl_cmd = some format_fcntl_cmd
value_text sigprocmask_how = some format_sigprocmask_how
value_text clockid = some format_clockid
value_text epoll_op = some format_epoll_op
value_text sockopt_level = some format_sockopt_level
value_text prctl_option = some format_prctl_option
value_text madvise_advice = some format_madvise_advice
value_text waitid_idtype = some format_waitid_idtype
value_text rlimit_resource = some format_rlimit_resource
value_text open_flags = some format_open_flags
value_text socket_type = some format_socket_type
value_text futex_op = some format_futex_op
value_text sched_policy = some format_sched_policy
value_text at_flags = some format_at_flags
value_text unlinkat_flags = some format_unlinkat_flags
value_text faccessat_flags = some format_faccessat_flags
value_text ioctl_request = some format_ioctl_request
value_text rusage_who = some format_rusage_who
value_text file_mode = some format_file_mode
value_text _ = none

-- Those that read the memory or ask the C library for a signal's name; `none` for a decoder that is
-- given more than the argument, and where the decoder writes past its buffer.
unfoldable pub argument_text : DecodeEnv → Decoder → ℕ → ℕ → Option Bytes
unfolding value_text
argument_text env child_string v n = some (read_child_string env.max_str_len env.peek v n)
argument_text env child_argv v n = some (read_child_argv env.max_str_len env.peek v n)
argument_text env epoll_event v n = some (format_epoll_event env.peek v n)
argument_text env rlimit v n = some (format_rlimit env.peek v n)
argument_text env signal v n = some (format_signal_arg env.sigabbrev_np v n)
argument_text env timespec v n = some (format_timespec env.peek v n)
argument_text env clone_flags v n = some (format_clone_flags env.sigabbrev_np v n)
argument_text env clone3_args v n = some (format_clone3_flags env.sigabbrev_np env.peek v n)
argument_text env sigaction v n = format_sigaction env.sigabbrev_np env.peek v n
argument_text env wait_status v n = some (format_wait_status env.sigabbrev_np env.peek v n)
argument_text env stat_buf v n = some (format_stat_buf env.peek v n)
argument_text env rusage v n = some (format_rusage env.peek v n)
argument_text env statx_buf v n = some (format_statx_buf env.peek v n)
argument_text env d v n = elim (value_text d) [ some format ↦ some (format v n) | none ↦ none ]

-- Those that are given another number as well.
unfoldable pub pair_text : DecodeEnv → Decoder → ℕ → ℕ → ℕ → Option Bytes
pair_text env sockopt_optname level v n = some (format_sockopt_optname level v n)
pair_text env open_mode flags v n = some (format_open_mode flags v n)
pair_text env prctl_name option v n =
    some (format_prctl_name_arg env.max_str_len env.peek option v n)
pair_text env fdset v nfds n = some (format_fdset_buf env.peek v nfds n)
pair_text env dirfd v bit n = some (format_dirfd env.readlink env.pid v (not (bit == 0)) n)
pair_text env hex_or_fd_arg v bit n =
    some (format_hex_or_fd_arg env.readlink env.pid v (not (bit == 0)) n)
pair_text env child_buffer v len n = some (read_child_buffer env.max_str_len env.peek v len n)
pair_text env sockaddr v len n = some (format_sockaddr env.inet_ntop env.peek v len n)
pair_text env pollfds_buf v nfds n = some (format_pollfds_buf env.peek v nfds n)
pair_text env d a b n = none

-- The text of a call, in a buffer of `n` bytes; `none` for a call that no function takes,
-- and where the decoder writes past its buffer.
unfoldable pub decoding_text : DecodeEnv → Decoding → ℕ → Option Bytes
unfolding argument_text pair_text
decoding_text env (decode d v) n = argument_text env d v n
decoding_text env (decode_with d a b) n = pair_text env d a b n
decoding_text env (decode_result msghdr v ret) n = format_msghdr env v ret n
decoding_text env (decode_result getdents_buf v ret) n = some (format_getdents_buf env.peek v ret n)
decoding_text env (decode_result epoll_events_buf v ret) n =
    some (format_epoll_events_buf env.peek v ret n)
decoding_text env (decode_result d v ret) n = none
decoding_text env (decode_array iovec_buf v count total) n =
    some (format_iovec_buf env.max_str_len env.peek v count total n)
decoding_text env (decode_array d v count total) n = none

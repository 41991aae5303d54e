-- ===== src/Dispatch/Decoder.antt =====
-- src/decoders.h and src/child_mem.h: the functions that the tracer calls to write one argument, a
-- constructor for each.
use mini_strace.Base.{ℕ}
use mini_strace.Base.Int.{ℤ}

pub data Decoder : Type 0 where
  child_string child_argv open_flags prot_flags map_flags mount_flags epoll_op : Decoder
  epoll_event socket_domain socket_type sockopt_level sockopt_optname fdset msg_flags : Decoder
  prctl_option prctl_name dirfd rlimit waitid_idtype waitid_options sched_policy : Decoder
  renameat2_flags mremap_flags memfd_flags eventfd_flags rlimit_resource file_mode : Decoder
  open_mode pipe2_flags getrandom_flags flock_op madvise_advice futex_op at_flags : Decoder
  unlinkat_flags faccessat_flags signal lseek_whence fcntl_cmd sigprocmask_how : Decoder
  access_mode clockid timespec clone_flags clone3_args ioctl_request msghdr sigaction : Decoder
  statx_mask wait4_options rusage_who child_buffer sockaddr iovec_buf wait_status : Decoder
  stat_buf getdents_buf rusage epoll_events_buf pollfds_buf statx_buf hex_or_fd_arg : Decoder

-- One call of such a function, with the values of its arguments but for `wpid` and the buffer.
pub data Decoding : Type 0 where
  -- of the argument alone
  decode : Decoder → ℕ → Decoding
  -- of the argument with another one: its flags, its level, its length, its count
  decode_with : Decoder → ℕ → ℕ → Decoding
  -- of the argument with the return value, or with -1 in place of it
  decode_result : Decoder → ℕ → ℤ → Decoding
  -- of an array with its count, and the return value or -1
  decode_array : Decoder → ℕ → ℕ → ℤ → Decoding

unfoldable pub Decoder-discrete : Discrete Decoder
Decoder-discrete = hlevel

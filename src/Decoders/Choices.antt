-- ===== src/Decoders/Choices.antt =====
-- src/decoders.c: the decoders of values that are no flag words, by their names.
use mini_strace.Base.{ℕ}
use mini_strace.Base.Bytes.{Bytes}
use mini_strace.ChildMem.{snprintf}
use mini_strace.Decoders.Walk.{enum_text}
use mini_strace.Decoders.Tables.Files.{lseek_whence_table, fcntl_cmd_table}
use mini_strace.Decoders.Tables.Processes.{
  sigprocmask_how_table, clockid_table, prctl_option_table, madvise_advice_table,
  waitid_idtype_table, rlimit_resource_table,
}
use mini_strace.Decoders.Tables.Sockets.{socket_domain_table, epoll_op_table, sockopt_level_table}

unfoldable pub format_socket_domain : ℕ → ℕ → Bytes
format_socket_domain value out_size = snprintf out_size (enum_text socket_domain_table value)

unfoldable pub format_lseek_whence : ℕ → ℕ → Bytes
format_lseek_whence value out_size = snprintf out_size (enum_text lseek_whence_table value)

unfoldable pub format_fcntl_cmd : ℕ → ℕ → Bytes
format_fcntl_cmd value out_size = snprintf out_size (enum_text fcntl_cmd_table value)

unfoldable pub format_sigprocmask_how : ℕ → ℕ → Bytes
format_sigprocmask_how value out_size = snprintf out_size (enum_text sigprocmask_how_table value)

unfoldable pub format_clockid : ℕ → ℕ → Bytes
format_clockid value out_size = snprintf out_size (enum_text clockid_table value)

unfoldable pub format_epoll_op : ℕ → ℕ → Bytes
format_epoll_op value out_size = snprintf out_size (enum_text epoll_op_table value)

unfoldable pub format_sockopt_level : ℕ → ℕ → Bytes
format_sockopt_level value out_size = snprintf out_size (enum_text sockopt_level_table value)

unfoldable pub format_prctl_option : ℕ → ℕ → Bytes
format_prctl_option value out_size = snprintf out_size (enum_text prctl_option_table value)

unfoldable pub format_madvise_advice : ℕ → ℕ → Bytes
format_madvise_advice value out_size = snprintf out_size (enum_text madvise_advice_table value)

unfoldable pub format_waitid_idtype : ℕ → ℕ → Bytes
format_waitid_idtype value out_size = snprintf out_size (enum_text waitid_idtype_table value)

unfoldable pub format_rlimit_resource : ℕ → ℕ → Bytes
format_rlimit_resource value out_size = snprintf out_size (enum_text rlimit_resource_table value)

-- ===== src/Decoders/Decoded.antt =====
-- Which names a reader of a decoder's text has to know, and the reader on these texts.
use mini_strace.Base.{
  ℕ, ◌^◌, ◌<◌, Bool, true, false, ◌∷◌, ◌++◌, ap, ◌∙◌, Option, none, some, ◌≡◌, refl, arith,
}
use mini_strace.Base.Bytes.{Bytes, bytes_eq}
use mini_strace.ChildMem.{str_arg_buf_len}
use mini_strace.Dispatch.Decoder.{Decoder, decode}
use mini_strace.Dispatch.Decoder.{
  prot_flags, access_mode, msg_flags, map_flags, mount_flags, statx_mask, pipe2_flags,
  getrandom_flags, flock_op, renameat2_flags, mremap_flags, memfd_flags, eventfd_flags,
  wait4_options, waitid_options, socket_domain, lseek_whence, fcntl_cmd, sigprocmask_how, clockid,
  epoll_op, sockopt_level, prctl_option, madvise_advice, waitid_idtype, rlimit_resource,
  socket_type, futex_op, sched_policy, at_flags, unlinkat_flags, faccessat_flags,
}
use mini_strace.Decoders.Tables.Files.{
  prot_flag_table, access_mode_table, map_flag_table, mount_flag_table, statx_mask_table,
  pipe2_flag_table, getrandom_flag_table, flock_op_table, renameat2_flag_table, mremap_flag_table,
  memfd_flag_table, eventfd_flag_table, at_flag_table, lseek_whence_table, fcntl_cmd_table,
}
use mini_strace.Decoders.Tables.Processes.{
  wait4_options_table, waitid_options_table, futex_cmd_table, sched_policy_table,
  sigprocmask_how_table, clockid_table, prctl_option_table, madvise_advice_table,
  waitid_idtype_table, rlimit_resource_table,
}
use mini_strace.Decoders.Tables.Sockets.{
  msg_flag_table, socket_type_table, socket_domain_table, epoll_op_table, sockopt_level_table,
}
use mini_strace.Decoders.Walk.{FlagTable, row}
use mini_strace.Decoders.Reading.{read_flags, value_of_name}
use mini_strace.Decoders.Words.{flags_text-read, bare_flags_text-read, enum_text-read}
use mini_strace.Decoders.Mixed.{format_at_flags, format_unlinkat_flags, format_faccessat_flags}
use mini_strace.Decoders.Combined.{
  socket_flags, futex_flags, sched_flags, at_names, at_flags-plain, format_socket_type-read,
  format_futex_op-read, format_sched_policy-read, format_at_flags_walk-read,
}
use mini_strace.Decoders.Flags.{
  format_prot_flags, format_access_mode, format_msg_flags, format_map_flags, format_mount_flags,
  format_statx_mask, format_pipe2_flags, format_getrandom_flags, format_flock_op,
  format_renameat2_flags, format_mremap_flags, format_memfd_flags, format_eventfd_flags,
  format_wait4_options, format_waitid_options, format_flag_table_value,
}
use mini_strace.Decoders.Choices.{
  format_socket_domain, format_lseek_whence, format_fcntl_cmd, format_sigprocmask_how,
  format_clockid, format_epoll_op, format_sockopt_level, format_prctl_option, format_madvise_advice,
  format_waitid_idtype, format_rlimit_resource,
}
use mini_strace.Decoders.Calls.{value_text, argument_text, decoding_text}
use mini_strace.Decoders.Msghdr.{DecodeEnv}

-- The names that a reader has to know, with the one of 0 first where a walk does not write it.
unfoldable pub names_of : Decoder → Option FlagTable
names_of prot_flags = some (row 0 "PROT_NONE" ∷ prot_flag_table)
names_of access_mode = some (row 0 "F_OK" ∷ access_mode_table)
names_of msg_flags = some (row 0 "0" ∷ msg_flag_table)
names_of map_flags = some (map_flag_table)
names_of mount_flags = some (mount_flag_table)
names_of statx_mask = some (statx_mask_table)
names_of pipe2_flags = some (row 0 "0" ∷ pipe2_flag_table)
names_of getrandom_flags = some (row 0 "0" ∷ getrandom_flag_table)
names_of flock_op = some (row 0 "0" ∷ flock_op_table)
names_of renameat2_flags = some (row 0 "0" ∷ renameat2_flag_table)
names_of mremap_flags = some (row 0 "0" ∷ mremap_flag_table)
names_of memfd_flags = some (row 0 "0" ∷ memfd_flag_table)
names_of eventfd_flags = some (row 0 "0" ∷ eventfd_flag_table)
names_of wait4_options = some (row 0 "0" ∷ wait4_options_table)
names_of waitid_options = some (row 0 "0" ∷ waitid_options_table)
names_of socket_domain = some socket_domain_table
names_of lseek_whence = some lseek_whence_table
names_of fcntl_cmd = some fcntl_cmd_table
names_of sigprocmask_how = some sigprocmask_how_table
names_of clockid = some clockid_table
names_of epoll_op = some epoll_op_table
names_of sockopt_level = some sockopt_level_table
names_of prctl_option = some prctl_option_table
names_of madvise_advice = some madvise_advice_table
names_of waitid_idtype = some waitid_idtype_table
names_of rlimit_resource = some rlimit_resource_table
names_of socket_type = some (socket_type_table ++ socket_flags)
names_of futex_op = some (futex_cmd_table ++ futex_flags)
names_of sched_policy = some (sched_policy_table ++ sched_flags)
names_of at_flags = some (at_names none)
names_of unlinkat_flags = some (at_names (some "AT_REMOVEDIR"))
names_of faccessat_flags = some (at_names (some "AT_EACCESS"))
names_of _ = none

abbrev pub has_names : Option FlagTable → Bool
has_names none = false
has_names (some table) = true

abbrev pub read_text : Option FlagTable → Option Bytes → Option ℕ
read_text (some table) (some s) = read_flags table s
read_text _ _ = none

-- The text that the tracer shows for an argument of 64 bits which is a flag word, a named value, or a named
-- value with flags, in the buffer of 1024 bytes, is read back as the argument: names of the decoder's
-- table and hexadecimal numbers, joined by bars, add up to it.
pub read_text-decoding_text :
    (env : DecodeEnv) (d : Decoder) (value : ℕ)
    → has_names (names_of d) ≡ true
    → value < 2 ^ 64
    → read_text (names_of d) (decoding_text env (decode d value) str_arg_buf_len) ≡ some value
unfolding names_of decoding_text argument_text value_text format_flag_table_value value_of_name
    bytes_eq format_at_flags format_unlinkat_flags format_faccessat_flags format_prot_flags
    format_access_mode format_msg_flags format_map_flags format_mount_flags format_statx_mask
    format_pipe2_flags format_getrandom_flags format_flock_op format_renameat2_flags
    format_mremap_flags format_memfd_flags format_eventfd_flags format_wait4_options
    format_waitid_options format_socket_domain format_lseek_whence format_fcntl_cmd
    format_sigprocmask_how format_clockid format_epoll_op format_sockopt_level format_prctl_option
    format_madvise_advice format_waitid_idtype format_rlimit_resource
read_text-decoding_text env prot_flags v h k =
    flags_text-read "PROT_NONE" prot_flag_table v str_arg_buf_len refl (omega arith) k
read_text-decoding_text env access_mode v h k =
    flags_text-read "F_OK" access_mode_table v str_arg_buf_len refl (omega arith) k
read_text-decoding_text env msg_flags v h k =
    flags_text-read "0" msg_flag_table v str_arg_buf_len refl (omega arith) k
read_text-decoding_text env map_flags v h k =
    bare_flags_text-read map_flag_table v str_arg_buf_len refl (omega arith) k
read_text-decoding_text env mount_flags v h k =
    bare_flags_text-read mount_flag_table v str_arg_buf_len refl (omega arith) k
read_text-decoding_text env statx_mask v h k =
    bare_flags_text-read statx_mask_table v str_arg_buf_len refl (omega arith) k
read_text-decoding_text env pipe2_flags v h k =
    flags_text-read "0" pipe2_flag_table v str_arg_buf_len refl (omega arith) k
read_text-decoding_text env getrandom_flags v h k =
    flags_text-read "0" getrandom_flag_table v str_arg_buf_len refl (omega arith) k
read_text-decoding_text env flock_op v h k =
    flags_text-read "0" flock_op_table v str_arg_buf_len refl (omega arith) k
read_text-decoding_text env renameat2_flags v h k =
    flags_text-read "0" renameat2_flag_table v str_arg_buf_len refl (omega arith) k
read_text-decoding_text env mremap_flags v h k =
    flags_text-read "0" mremap_flag_table v str_arg_buf_len refl (omega arith) k
read_text-decoding_text env memfd_flags v h k =
    flags_text-read "0" memfd_flag_table v str_arg_buf_len refl (omega arith) k
read_text-decoding_text env eventfd_flags v h k =
    flags_text-read "0" eventfd_flag_table v str_arg_buf_len refl (omega arith) k
read_text-decoding_text env wait4_options v h k =
    flags_text-read "0" wait4_options_table v str_arg_buf_len refl (omega arith) k
read_text-decoding_text env waitid_options v h k =
    flags_text-read "0" waitid_options_table v str_arg_buf_len refl (omega arith) k
read_text-decoding_text env socket_domain v h k =
    enum_text-read socket_domain_table v str_arg_buf_len refl (omega arith) k
read_text-decoding_text env lseek_whence v h k =
    enum_text-read lseek_whence_table v str_arg_buf_len refl (omega arith) k
read_text-decoding_text env fcntl_cmd v h k =
    enum_text-read fcntl_cmd_table v str_arg_buf_len refl (omega arith) k
read_text-decoding_text env sigprocmask_how v h k =
    enum_text-read sigprocmask_how_table v str_arg_buf_len refl (omega arith) k
read_text-decoding_text env clockid v h k =
    enum_text-read clockid_table v str_arg_buf_len refl (omega arith) k
read_text-decoding_text env epoll_op v h k =
    enum_text-read epoll_op_table v str_arg_buf_len refl (omega arith) k
read_text-decoding_text env sockopt_level v h k =
    enum_text-read sockopt_level_table v str_arg_buf_len refl (omega arith) k
read_text-decoding_text env prctl_option v h k =
    enum_text-read prctl_option_table v str_arg_buf_len refl (omega arith) k
read_text-decoding_text env madvise_advice v h k =
    enum_text-read madvise_advice_table v str_arg_buf_len refl (omega arith) k
read_text-decoding_text env waitid_idtype v h k =
    enum_text-read waitid_idtype_table v str_arg_buf_len refl (omega arith) k
read_text-decoding_text env rlimit_resource v h k =
    enum_text-read rlimit_resource_table v str_arg_buf_len refl (omega arith) k
read_text-decoding_text env socket_type v h k = format_socket_type-read v k
read_text-decoding_text env futex_op v h k = format_futex_op-read v k
read_text-decoding_text env sched_policy v h k = format_sched_policy-read v k
read_text-decoding_text env at_flags v h k =
    ap (λ s. read_flags (at_names none) s) (at_flags-plain v str_arg_buf_len)
    ∙ flags_text-read "0" at_flag_table v str_arg_buf_len refl (omega arith) k
read_text-decoding_text env unlinkat_flags v h k =
    format_at_flags_walk-read v "AT_REMOVEDIR" refl (omega arith) k
read_text-decoding_text env faccessat_flags v h k =
    format_at_flags_walk-read v "AT_EACCESS" refl (omega arith) k
read_text-decoding_text env _ v h k = absurd (ground arith)

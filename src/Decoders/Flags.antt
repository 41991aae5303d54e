-- ===== src/Decoders/Flags.antt =====
-- src/decoders.c: the decoders of flag words. `out_size` is the size of their buffer.
use mini_strace.Base.{ℕ, ◌%◌, ◌^◌}
use mini_strace.Base.Bytes.{Bytes}
use mini_strace.ChildMem.{snprintf}
use mini_strace.Decoders.Walk.{FlagTable, flags_text, bare_flags_text}
use mini_strace.Decoders.Tables.Files.{
  prot_flag_table, access_mode_table, map_flag_table, mount_flag_table, statx_mask_table,
  pipe2_flag_table, getrandom_flag_table, flock_op_table, renameat2_flag_table, mremap_flag_table,
  memfd_flag_table, eventfd_flag_table,
}
use mini_strace.Decoders.Tables.Processes.{
  wait4_options_table, waitid_options_table, sigaction_flag_table,
}
use mini_strace.Decoders.Tables.Sockets.{
  msg_flag_table, epoll_events_flag_table, poll_events_flag_table,
}

unfoldable pub format_prot_flags : ℕ → ℕ → Bytes
format_prot_flags value out_size =
    snprintf out_size (flags_text "PROT_NONE" prot_flag_table value out_size)

unfoldable pub format_access_mode : ℕ → ℕ → Bytes
format_access_mode value out_size =
    snprintf out_size (flags_text "F_OK" access_mode_table value out_size)

unfoldable pub format_msg_flags : ℕ → ℕ → Bytes
format_msg_flags value out_size = snprintf out_size (flags_text "0" msg_flag_table value out_size)

unfoldable pub format_map_flags : ℕ → ℕ → Bytes
format_map_flags value out_size = snprintf out_size (bare_flags_text map_flag_table value out_size)

unfoldable pub format_mount_flags : ℕ → ℕ → Bytes
format_mount_flags value out_size =
    snprintf out_size (bare_flags_text mount_flag_table value out_size)

unfoldable pub format_statx_mask : ℕ → ℕ → Bytes
format_statx_mask value out_size =
    snprintf out_size (bare_flags_text statx_mask_table value out_size)

unfoldable pub format_flag_table_value : FlagTable → ℕ → ℕ → Bytes
format_flag_table_value table value out_size =
    snprintf out_size (flags_text "0" table value out_size)

unfoldable pub format_pipe2_flags : ℕ → ℕ → Bytes
unfolding format_flag_table_value
format_pipe2_flags value out_size = format_flag_table_value pipe2_flag_table value out_size

unfoldable pub format_getrandom_flags : ℕ → ℕ → Bytes
unfolding format_flag_table_value
format_getrandom_flags value out_size = format_flag_table_value getrandom_flag_table value out_size

unfoldable pub format_flock_op : ℕ → ℕ → Bytes
unfolding format_flag_table_value
format_flock_op value out_size = format_flag_table_value flock_op_table value out_size

unfoldable pub format_renameat2_flags : ℕ → ℕ → Bytes
unfolding format_flag_table_value
format_renameat2_flags value out_size = format_flag_table_value renameat2_flag_table value out_size

unfoldable pub format_mremap_flags : ℕ → ℕ → Bytes
unfolding format_flag_table_value
format_mremap_flags value out_size = format_flag_table_value mremap_flag_table value out_size

unfoldable pub format_memfd_flags : ℕ → ℕ → Bytes
unfolding format_flag_table_value
format_memfd_flags value out_size = format_flag_table_value memfd_flag_table value out_size

unfoldable pub format_eventfd_flags : ℕ → ℕ → Bytes
unfolding format_flag_table_value
format_eventfd_flags value out_size = format_flag_table_value eventfd_flag_table value out_size

unfoldable pub format_wait4_options : ℕ → ℕ → Bytes
unfolding format_flag_table_value
format_wait4_options value out_size = format_flag_table_value wait4_options_table value out_size

unfoldable pub format_waitid_options : ℕ → ℕ → Bytes
unfolding format_flag_table_value
format_waitid_options value out_size = format_flag_table_value waitid_options_table value out_size

-- `sa_flags`, an unsigned long.
unfoldable pub format_sigaction_flags_value : ℕ → ℕ → Bytes
format_sigaction_flags_value flags out_size =
    snprintf out_size (flags_text "0" sigaction_flag_table flags out_size)

-- The argument is a `uint32_t`.
unfoldable pub format_epoll_events_value : ℕ → ℕ → Bytes
format_epoll_events_value events out_size =
    snprintf out_size (flags_text "0" epoll_events_flag_table (events % 2 ^ 32) out_size)

-- The argument is a short, which is walked as an unsigned one.
unfoldable pub format_poll_events_value : ℕ → ℕ → Bytes
format_poll_events_value events out_size =
    snprintf out_size (flags_text "0" poll_events_flag_table (events % 2 ^ 16) out_size)

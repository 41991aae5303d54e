-- ===== src/Dispatch/Unlisted.antt =====
-- What the lookups of the entry stop give for a name that no table lists.
use mini_strace.Base.{String, false, none, ◌≡◌, refl}
use mini_strace.Routing.Outputs.{
  wait_status_arg_mask, msghdr_recv_arg_mask, stat_buf_arg_mask, getdents_buf_arg_mask,
  sigaction_old_arg_mask, timespec_out_arg_mask, rusage_arg_mask, epoll_events_arg_mask,
  statx_buf_arg_mask, rlimit_out_arg_mask, wait_status_arg_table, msghdr_recv_arg_table,
  stat_buf_arg_table, getdents_buf_arg_table, sigaction_old_arg_table, timespec_out_arg_table,
  rusage_arg_table, epoll_events_arg_table, statx_buf_arg_table, rlimit_out_arg_table,
}
use mini_strace.Routing.Pairs.{
  read_arg_lookup, accept_arg_lookup, pollfds_arg_lookup, iovec_read_arg_lookup, buffer_arg_lookup,
  sockaddr_arg_lookup, iovec_write_arg_lookup, read_arg_table, accept_arg_table, pollfds_arg_table,
  iovec_read_arg_table, buffer_arg_table, sockaddr_arg_table, iovec_write_arg_table,
}
use mini_strace.Dispatch.Ladder.{first_bit}
use mini_strace.Dispatch.Pending.{no_pending, outputs_of}
use mini_strace.Dispatch.Names.{mem_name, decoded_names, mask_lookup_unlisted, pair_lookup_unlisted}

module _ (name : String) (unlisted : mem_name name decoded_names ≡ false) where
  wait_status_unlisted : wait_status_arg_mask name ≡ 0
  unfolding wait_status_arg_mask mem_name decoded_names
  wait_status_unlisted = mask_lookup_unlisted name unlisted wait_status_arg_table refl

  msghdr_recv_unlisted : msghdr_recv_arg_mask name ≡ 0
  unfolding msghdr_recv_arg_mask mem_name decoded_names
  msghdr_recv_unlisted = mask_lookup_unlisted name unlisted msghdr_recv_arg_table refl

  stat_buf_unlisted : stat_buf_arg_mask name ≡ 0
  unfolding stat_buf_arg_mask mem_name decoded_names
  stat_buf_unlisted = mask_lookup_unlisted name unlisted stat_buf_arg_table refl

  getdents_buf_unlisted : getdents_buf_arg_mask name ≡ 0
  unfolding getdents_buf_arg_mask mem_name decoded_names
  getdents_buf_unlisted = mask_lookup_unlisted name unlisted getdents_buf_arg_table refl

  sigaction_old_unlisted : sigaction_old_arg_mask name ≡ 0
  unfolding sigaction_old_arg_mask mem_name decoded_names
  sigaction_old_unlisted = mask_lookup_unlisted name unlisted sigaction_old_arg_table refl

  timespec_out_unlisted : timespec_out_arg_mask name ≡ 0
  unfolding timespec_out_arg_mask mem_name decoded_names
  timespec_out_unlisted = mask_lookup_unlisted name unlisted timespec_out_arg_table refl

  rusage_unlisted : rusage_arg_mask name ≡ 0
  unfolding rusage_arg_mask mem_name decoded_names
  rusage_unlisted = mask_lookup_unlisted name unlisted rusage_arg_table refl

  epoll_events_unlisted : epoll_events_arg_mask name ≡ 0
  unfolding epoll_events_arg_mask mem_name decoded_names
  epoll_events_unlisted = mask_lookup_unlisted name unlisted epoll_events_arg_table refl

  statx_buf_unlisted : statx_buf_arg_mask name ≡ 0
  unfolding statx_buf_arg_mask mem_name decoded_names
  statx_buf_unlisted = mask_lookup_unlisted name unlisted statx_buf_arg_table refl

  rlimit_out_unlisted : rlimit_out_arg_mask name ≡ 0
  unfolding rlimit_out_arg_mask mem_name decoded_names
  rlimit_out_unlisted = mask_lookup_unlisted name unlisted rlimit_out_arg_table refl

  read_unlisted : read_arg_lookup name ≡ none
  unfolding read_arg_lookup mem_name decoded_names
  read_unlisted = pair_lookup_unlisted name unlisted read_arg_table refl

  accept_unlisted : accept_arg_lookup name ≡ none
  unfolding accept_arg_lookup mem_name decoded_names
  accept_unlisted = pair_lookup_unlisted name unlisted accept_arg_table refl

  pollfds_unlisted : pollfds_arg_lookup name ≡ none
  unfolding pollfds_arg_lookup mem_name decoded_names
  pollfds_unlisted = pair_lookup_unlisted name unlisted pollfds_arg_table refl

  iovec_read_unlisted : iovec_read_arg_lookup name ≡ none
  unfolding iovec_read_arg_lookup mem_name decoded_names
  iovec_read_unlisted = pair_lookup_unlisted name unlisted iovec_read_arg_table refl

  pub buffer_unlisted : buffer_arg_lookup name ≡ none
  unfolding buffer_arg_lookup mem_name decoded_names
  buffer_unlisted = pair_lookup_unlisted name unlisted buffer_arg_table refl

  pub sockaddr_unlisted : sockaddr_arg_lookup name ≡ none
  unfolding sockaddr_arg_lookup mem_name decoded_names
  sockaddr_unlisted = pair_lookup_unlisted name unlisted sockaddr_arg_table refl

  pub iovec_write_unlisted : iovec_write_arg_lookup name ≡ none
  unfolding iovec_write_arg_lookup mem_name decoded_names
  iovec_write_unlisted = pair_lookup_unlisted name unlisted iovec_write_arg_table refl

  pub outputs_of_unlisted : outputs_of name ≡ no_pending
  unfolding outputs_of first_bit
  outputs_of_unlisted =
      rw
        (
          wait_status_unlisted, msghdr_recv_unlisted, stat_buf_unlisted, getdents_buf_unlisted,
          sigaction_old_unlisted, timespec_out_unlisted, rusage_unlisted, epoll_events_unlisted,
          statx_buf_unlisted, rlimit_out_unlisted, read_unlisted, accept_unlisted, pollfds_unlisted,
          iovec_read_unlisted,
        )
        refl

-- ===== src/Routing/Outputs.antt =====
-- src/arg_routing.c: the tables for arguments that the kernel fills in while the call runs,
-- each with its lookup. Bit i of a mask stands for argument i.
use mini_strace.Base.{ℕ, String, [], ◌∷◌}
use mini_strace.Routing.Lookup.{MaskTable, mask_lookup}

unfoldable pub wait_status_arg_table : MaskTable
wait_status_arg_table = ("wait4", 0x02) ∷ []

unfoldable pub wait_status_arg_mask : String → ℕ
unfolding wait_status_arg_table mask_lookup
wait_status_arg_mask syscall = mask_lookup wait_status_arg_table syscall

unfoldable pub msghdr_recv_arg_table : MaskTable
msghdr_recv_arg_table = ("recvmsg", 0x02) ∷ []

unfoldable pub msghdr_recv_arg_mask : String → ℕ
unfolding msghdr_recv_arg_table mask_lookup
msghdr_recv_arg_mask syscall = mask_lookup msghdr_recv_arg_table syscall

unfoldable pub stat_buf_arg_table : MaskTable
stat_buf_arg_table = ("stat", 0x02) ∷ ("lstat", 0x02) ∷ ("fstat", 0x02) ∷ ("newfstatat", 0x04) ∷ []

unfoldable pub stat_buf_arg_mask : String → ℕ
unfolding stat_buf_arg_table mask_lookup
stat_buf_arg_mask syscall = mask_lookup stat_buf_arg_table syscall

unfoldable pub getdents_buf_arg_table : MaskTable
getdents_buf_arg_table = ("getdents64", 0x02) ∷ []

unfoldable pub getdents_buf_arg_mask : String → ℕ
unfolding getdents_buf_arg_table mask_lookup
getdents_buf_arg_mask syscall = mask_lookup getdents_buf_arg_table syscall

unfoldable pub sigaction_old_arg_table : MaskTable
sigaction_old_arg_table = ("rt_sigaction", 0x04) ∷ []

unfoldable pub sigaction_old_arg_mask : String → ℕ
unfolding sigaction_old_arg_table mask_lookup
sigaction_old_arg_mask syscall = mask_lookup sigaction_old_arg_table syscall

unfoldable pub timespec_out_arg_table : MaskTable
timespec_out_arg_table =
    ("clock_gettime", 0x02) ∷ ("nanosleep", 0x02) ∷ ("clock_nanosleep", 0x08) ∷ []

unfoldable pub timespec_out_arg_mask : String → ℕ
unfolding timespec_out_arg_table mask_lookup
timespec_out_arg_mask syscall = mask_lookup timespec_out_arg_table syscall

unfoldable pub rusage_arg_table : MaskTable
rusage_arg_table = ("wait4", 0x08) ∷ ("getrusage", 0x02) ∷ []

unfoldable pub rusage_arg_mask : String → ℕ
unfolding rusage_arg_table mask_lookup
rusage_arg_mask syscall = mask_lookup rusage_arg_table syscall

unfoldable pub epoll_events_arg_table : MaskTable
epoll_events_arg_table = ("epoll_wait", 0x02) ∷ ("epoll_pwait", 0x02) ∷ []

unfoldable pub epoll_events_arg_mask : String → ℕ
unfolding epoll_events_arg_table mask_lookup
epoll_events_arg_mask syscall = mask_lookup epoll_events_arg_table syscall

unfoldable pub statx_buf_arg_table : MaskTable
statx_buf_arg_table = ("statx", 0x10) ∷ []

unfoldable pub statx_buf_arg_mask : String → ℕ
unfolding statx_buf_arg_table mask_lookup
statx_buf_arg_mask syscall = mask_lookup statx_buf_arg_table syscall

unfoldable pub rlimit_out_arg_table : MaskTable
rlimit_out_arg_table = ("getrlimit", 0x02) ∷ ("prlimit64", 0x08) ∷ []

unfoldable pub rlimit_out_arg_mask : String → ℕ
unfolding rlimit_out_arg_table mask_lookup
rlimit_out_arg_mask syscall = mask_lookup rlimit_out_arg_table syscall

-- ===== src/Routing/Structs.antt =====
-- src/arg_routing.c: the tables for plain values and for structures that the caller fills in (second part),
-- each with its lookup. Bit i of a mask stands for argument i.
use mini_strace.Base.{ℕ, String, [], ◌∷◌}
use mini_strace.Routing.Lookup.{MaskTable, mask_lookup}

unfoldable pub pipe2_flags_arg_table : MaskTable
pipe2_flags_arg_table = ("pipe2", 0x02) ∷ []

unfoldable pub pipe2_flags_arg_mask : String → ℕ
unfolding pipe2_flags_arg_table mask_lookup
pipe2_flags_arg_mask syscall = mask_lookup pipe2_flags_arg_table syscall

unfoldable pub getrandom_flags_arg_table : MaskTable
getrandom_flags_arg_table = ("getrandom", 0x04) ∷ []

unfoldable pub getrandom_flags_arg_mask : String → ℕ
unfolding getrandom_flags_arg_table mask_lookup
getrandom_flags_arg_mask syscall = mask_lookup getrandom_flags_arg_table syscall

unfoldable pub flock_op_arg_table : MaskTable
flock_op_arg_table = ("flock", 0x02) ∷ []

unfoldable pub flock_op_arg_mask : String → ℕ
unfolding flock_op_arg_table mask_lookup
flock_op_arg_mask syscall = mask_lookup flock_op_arg_table syscall

unfoldable pub madvise_advice_arg_table : MaskTable
madvise_advice_arg_table = ("madvise", 0x04) ∷ []

unfoldable pub madvise_advice_arg_mask : String → ℕ
unfolding madvise_advice_arg_table mask_lookup
madvise_advice_arg_mask syscall = mask_lookup madvise_advice_arg_table syscall

unfoldable pub futex_op_arg_table : MaskTable
futex_op_arg_table = ("futex", 0x02) ∷ []

unfoldable pub futex_op_arg_mask : String → ℕ
unfolding futex_op_arg_table mask_lookup
futex_op_arg_mask syscall = mask_lookup futex_op_arg_table syscall

unfoldable pub prctl_option_arg_table : MaskTable
prctl_option_arg_table = ("prctl", 0x01) ∷ []

unfoldable pub prctl_option_arg_mask : String → ℕ
unfolding prctl_option_arg_table mask_lookup
prctl_option_arg_mask syscall = mask_lookup prctl_option_arg_table syscall

unfoldable pub prctl_name_arg_table : MaskTable
prctl_name_arg_table = ("prctl", 0x02) ∷ []

unfoldable pub prctl_name_arg_mask : String → ℕ
unfolding prctl_name_arg_table mask_lookup
prctl_name_arg_mask syscall = mask_lookup prctl_name_arg_table syscall

unfoldable pub signal_arg_table : MaskTable
signal_arg_table = ("kill", 0x02) ∷ ("tkill", 0x02) ∷ ("tgkill", 0x04) ∷ ("rt_sigaction", 0x01) ∷ []

unfoldable pub signal_arg_mask : String → ℕ
unfolding signal_arg_table mask_lookup
signal_arg_mask syscall = mask_lookup signal_arg_table syscall

unfoldable pub lseek_whence_arg_table : MaskTable
lseek_whence_arg_table = ("lseek", 0x04) ∷ []

unfoldable pub lseek_whence_arg_mask : String → ℕ
unfolding lseek_whence_arg_table mask_lookup
lseek_whence_arg_mask syscall = mask_lookup lseek_whence_arg_table syscall

unfoldable pub fcntl_cmd_arg_table : MaskTable
fcntl_cmd_arg_table = ("fcntl", 0x02) ∷ []

unfoldable pub fcntl_cmd_arg_mask : String → ℕ
unfolding fcntl_cmd_arg_table mask_lookup
fcntl_cmd_arg_mask syscall = mask_lookup fcntl_cmd_arg_table syscall

unfoldable pub sigprocmask_how_arg_table : MaskTable
sigprocmask_how_arg_table = ("rt_sigprocmask", 0x01) ∷ []

unfoldable pub sigprocmask_how_arg_mask : String → ℕ
unfolding sigprocmask_how_arg_table mask_lookup
sigprocmask_how_arg_mask syscall = mask_lookup sigprocmask_how_arg_table syscall

unfoldable pub clockid_arg_table : MaskTable
clockid_arg_table =
    ("clock_gettime", 0x01)
    ∷ ("clock_settime", 0x01)
    ∷ ("clock_getres", 0x01)
    ∷ ("clock_nanosleep", 0x01)
    ∷ []

unfoldable pub clockid_arg_mask : String → ℕ
unfolding clockid_arg_table mask_lookup
clockid_arg_mask syscall = mask_lookup clockid_arg_table syscall

unfoldable pub epoll_op_arg_table : MaskTable
epoll_op_arg_table = ("epoll_ctl", 0x02) ∷ []

unfoldable pub epoll_op_arg_mask : String → ℕ
unfolding epoll_op_arg_table mask_lookup
epoll_op_arg_mask syscall = mask_lookup epoll_op_arg_table syscall

unfoldable pub epoll_event_arg_table : MaskTable
epoll_event_arg_table = ("epoll_ctl", 0x08) ∷ []

unfoldable pub epoll_event_arg_mask : String → ℕ
unfolding epoll_event_arg_table mask_lookup
epoll_event_arg_mask syscall = mask_lookup epoll_event_arg_table syscall

unfoldable pub statx_mask_arg_table : MaskTable
statx_mask_arg_table = ("statx", 0x08) ∷ []

unfoldable pub statx_mask_arg_mask : String → ℕ
unfolding statx_mask_arg_table mask_lookup
statx_mask_arg_mask syscall = mask_lookup statx_mask_arg_table syscall

unfoldable pub clone_flags_arg_table : MaskTable
clone_flags_arg_table = ("clone", 0x01) ∷ []

unfoldable pub clone_flags_arg_mask : String → ℕ
unfolding clone_flags_arg_table mask_lookup
clone_flags_arg_mask syscall = mask_lookup clone_flags_arg_table syscall

unfoldable pub clone3_args_arg_table : MaskTable
clone3_args_arg_table = ("clone3", 0x01) ∷ []

unfoldable pub clone3_args_arg_mask : String → ℕ
unfolding clone3_args_arg_table mask_lookup
clone3_args_arg_mask syscall = mask_lookup clone3_args_arg_table syscall

unfoldable pub ioctl_request_arg_table : MaskTable
ioctl_request_arg_table = ("ioctl", 0x02) ∷ []

unfoldable pub ioctl_request_arg_mask : String → ℕ
unfolding ioctl_request_arg_table mask_lookup
ioctl_request_arg_mask syscall = mask_lookup ioctl_request_arg_table syscall

unfoldable pub msghdr_send_arg_table : MaskTable
msghdr_send_arg_table = ("sendmsg", 0x02) ∷ []

unfoldable pub msghdr_send_arg_mask : String → ℕ
unfolding msghdr_send_arg_table mask_lookup
msghdr_send_arg_mask syscall = mask_lookup msghdr_send_arg_table syscall

unfoldable pub sigaction_new_arg_table : MaskTable
sigaction_new_arg_table = ("rt_sigaction", 0x02) ∷ []

unfoldable pub sigaction_new_arg_mask : String → ℕ
unfolding sigaction_new_arg_table mask_lookup
sigaction_new_arg_mask syscall = mask_lookup sigaction_new_arg_table syscall

unfoldable pub timespec_in_arg_table : MaskTable
timespec_in_arg_table =
    ("clock_settime", 0x02) ∷ ("nanosleep", 0x01) ∷ ("clock_nanosleep", 0x04) ∷ []

unfoldable pub timespec_in_arg_mask : String → ℕ
unfolding timespec_in_arg_table mask_lookup
timespec_in_arg_mask syscall = mask_lookup timespec_in_arg_table syscall

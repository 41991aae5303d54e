-- ===== src/Decoders/Tables/Processes.antt =====
-- src/decoders.c: the tables of names for signals, clocks, clones, waits, limits. The values of the macros are those of
-- Linux on x86-64 with the GNU C library.
use mini_strace.Base.{[], ◌∷◌}
use mini_strace.Decoders.Walk.{FlagTable, row}

abbrev pub sigprocmask_how_table : FlagTable
sigprocmask_how_table = row 0 "SIG_BLOCK" ∷ row 1 "SIG_UNBLOCK" ∷ row 2 "SIG_SETMASK" ∷ []

abbrev pub clockid_table : FlagTable
clockid_table =
    row 0 "CLOCK_REALTIME"
    ∷ row 1 "CLOCK_MONOTONIC"
    ∷ row 2 "CLOCK_PROCESS_CPUTIME_ID"
    ∷ row 3 "CLOCK_THREAD_CPUTIME_ID"
    ∷ row 4 "CLOCK_MONOTONIC_RAW"
    ∷ row 5 "CLOCK_REALTIME_COARSE"
    ∷ row 6 "CLOCK_MONOTONIC_COARSE"
    ∷ row 7 "CLOCK_BOOTTIME"
    ∷ []

abbrev pub clone_flag_table : FlagTable
clone_flag_table =
    row 0x100 "CLONE_VM"
    ∷ row 0x200 "CLONE_FS"
    ∷ row 0x400 "CLONE_FILES"
    ∷ row 0x800 "CLONE_SIGHAND"
    ∷ row 0x1000 "CLONE_PIDFD"
    ∷ row 0x2000 "CLONE_PTRACE"
    ∷ row 0x4000 "CLONE_VFORK"
    ∷ row 0x8000 "CLONE_PARENT"
    ∷ row 0x10000 "CLONE_THREAD"
    ∷ row 0x20000 "CLONE_NEWNS"
    ∷ row 0x40000 "CLONE_SYSVSEM"
    ∷ row 0x80000 "CLONE_SETTLS"
    ∷ row 0x100000 "CLONE_PARENT_SETTID"
    ∷ row 0x200000 "CLONE_CHILD_CLEARTID"
    ∷ row 0x800000 "CLONE_UNTRACED"
    ∷ row 0x1000000 "CLONE_CHILD_SETTID"
    ∷ row 0x2000000 "CLONE_NEWCGROUP"
    ∷ row 0x4000000 "CLONE_NEWUTS"
    ∷ row 0x8000000 "CLONE_NEWIPC"
    ∷ row 0x10000000 "CLONE_NEWUSER"
    ∷ row 0x20000000 "CLONE_NEWPID"
    ∷ row 0x40000000 "CLONE_NEWNET"
    ∷ row 0x80000000 "CLONE_IO"
    ∷ []

abbrev pub sigaction_flag_table : FlagTable
sigaction_flag_table =
    row 0x1 "SA_NOCLDSTOP"
    ∷ row 0x2 "SA_NOCLDWAIT"
    ∷ row 0x4 "SA_SIGINFO"
    ∷ row 0x8000000 "SA_ONSTACK"
    ∷ row 0x10000000 "SA_RESTART"
    ∷ row 0x40000000 "SA_NODEFER"
    ∷ row 0x80000000 "SA_RESETHAND"
    ∷ []

abbrev pub prctl_option_table : FlagTable
prctl_option_table =
    row 1 "PR_SET_PDEATHSIG"
    ∷ row 2 "PR_GET_PDEATHSIG"
    ∷ row 3 "PR_GET_DUMPABLE"
    ∷ row 4 "PR_SET_DUMPABLE"
    ∷ row 5 "PR_GET_UNALIGN"
    ∷ row 6 "PR_SET_UNALIGN"
    ∷ row 7 "PR_GET_KEEPCAPS"
    ∷ row 8 "PR_SET_KEEPCAPS"
    ∷ row 15 "PR_SET_NAME"
    ∷ row 16 "PR_GET_NAME"
    ∷ row 19 "PR_GET_ENDIAN"
    ∷ row 20 "PR_SET_ENDIAN"
    ∷ row 21 "PR_GET_SECCOMP"
    ∷ row 22 "PR_SET_SECCOMP"
    ∷ row 23 "PR_CAPBSET_READ"
    ∷ row 24 "PR_CAPBSET_DROP"
    ∷ row 25 "PR_GET_TSC"
    ∷ row 26 "PR_SET_TSC"
    ∷ row 27 "PR_GET_SECUREBITS"
    ∷ row 28 "PR_SET_SECUREBITS"
    ∷ row 29 "PR_SET_TIMERSLACK"
    ∷ row 30 "PR_GET_TIMERSLACK"
    ∷ row 31 "PR_TASK_PERF_EVENTS_DISABLE"
    ∷ row 32 "PR_TASK_PERF_EVENTS_ENABLE"
    ∷ row 33 "PR_MCE_KILL"
    ∷ row 34 "PR_MCE_KILL_GET"
    ∷ row 35 "PR_SET_MM"
    ∷ row 1499557217 "PR_SET_PTRACER"
    ∷ row 36 "PR_SET_CHILD_SUBREAPER"
    ∷ row 37 "PR_GET_CHILD_SUBREAPER"
    ∷ row 38 "PR_SET_NO_NEW_PRIVS"
    ∷ row 39 "PR_GET_NO_NEW_PRIVS"
    ∷ row 40 "PR_GET_TID_ADDRESS"
    ∷ row 41 "PR_SET_THP_DISABLE"
    ∷ row 42 "PR_GET_THP_DISABLE"
    ∷ row 47 "PR_CAP_AMBIENT"
    ∷ row 53 "PR_SET_SPECULATION_CTRL"
    ∷ row 52 "PR_GET_SPECULATION_CTRL"
    ∷ row 57 "PR_SET_IO_FLUSHER"
    ∷ row 58 "PR_GET_IO_FLUSHER"
    ∷ row 55 "PR_SET_TAGGED_ADDR_CTRL"
    ∷ row 56 "PR_GET_TAGGED_ADDR_CTRL"
    ∷ row 59 "PR_SET_SYSCALL_USER_DISPATCH"
    ∷ []

abbrev pub madvise_advice_table : FlagTable
madvise_advice_table =
    row 0 "MADV_NORMAL"
    ∷ row 1 "MADV_RANDOM"
    ∷ row 2 "MADV_SEQUENTIAL"
    ∷ row 3 "MADV_WILLNEED"
    ∷ row 4 "MADV_DONTNEED"
    ∷ row 8 "MADV_FREE"
    ∷ row 9 "MADV_REMOVE"
    ∷ row 10 "MADV_DONTFORK"
    ∷ row 11 "MADV_DOFORK"
    ∷ row 12 "MADV_MERGEABLE"
    ∷ row 13 "MADV_UNMERGEABLE"
    ∷ row 14 "MADV_HUGEPAGE"
    ∷ row 15 "MADV_NOHUGEPAGE"
    ∷ row 16 "MADV_DONTDUMP"
    ∷ row 17 "MADV_DODUMP"
    ∷ row 18 "MADV_WIPEONFORK"
    ∷ row 19 "MADV_KEEPONFORK"
    ∷ row 20 "MADV_COLD"
    ∷ row 21 "MADV_PAGEOUT"
    ∷ row 100 "MADV_HWPOISON"
    ∷ []

abbrev pub futex_cmd_table : FlagTable
futex_cmd_table =
    row 0 "FUTEX_WAIT"
    ∷ row 1 "FUTEX_WAKE"
    ∷ row 2 "FUTEX_FD"
    ∷ row 3 "FUTEX_REQUEUE"
    ∷ row 4 "FUTEX_CMP_REQUEUE"
    ∷ row 5 "FUTEX_WAKE_OP"
    ∷ row 6 "FUTEX_LOCK_PI"
    ∷ row 7 "FUTEX_UNLOCK_PI"
    ∷ row 8 "FUTEX_TRYLOCK_PI"
    ∷ row 9 "FUTEX_WAIT_BITSET"
    ∷ row 10 "FUTEX_WAKE_BITSET"
    ∷ row 11 "FUTEX_WAIT_REQUEUE_PI"
    ∷ row 12 "FUTEX_CMP_REQUEUE_PI"
    ∷ row 13 "FUTEX_LOCK_PI2"
    ∷ []

abbrev pub wait4_options_table : FlagTable
wait4_options_table =
    row 0x1 "WNOHANG"
    ∷ row 0x2 "WUNTRACED"
    ∷ row 0x8 "WCONTINUED"
    ∷ row 0x1000000 "WNOWAIT"
    ∷ row 0x20000000 "__WNOTHREAD"
    ∷ row 0x40000000 "__WALL"
    ∷ row 0x80000000 "__WCLONE"
    ∷ []

abbrev pub waitid_options_table : FlagTable
waitid_options_table =
    row 0x1 "WNOHANG"
    ∷ row 0x2 "WSTOPPED"
    ∷ row 0x4 "WEXITED"
    ∷ row 0x8 "WCONTINUED"
    ∷ row 0x1000000 "WNOWAIT"
    ∷ row 0x20000000 "__WNOTHREAD"
    ∷ row 0x40000000 "__WALL"
    ∷ row 0x80000000 "__WCLONE"
    ∷ []

abbrev pub waitid_idtype_table : FlagTable
waitid_idtype_table = row 0 "P_ALL" ∷ row 1 "P_PID" ∷ row 2 "P_PGID" ∷ row 3 "P_PIDFD" ∷ []

abbrev pub sched_policy_table : FlagTable
sched_policy_table =
    row 0 "SCHED_OTHER"
    ∷ row 1 "SCHED_FIFO"
    ∷ row 2 "SCHED_RR"
    ∷ row 3 "SCHED_BATCH"
    ∷ row 5 "SCHED_IDLE"
    ∷ row 6 "SCHED_DEADLINE"
    ∷ []

abbrev pub rlimit_resource_table : FlagTable
rlimit_resource_table =
    row 0 "RLIMIT_CPU"
    ∷ row 1 "RLIMIT_FSIZE"
    ∷ row 2 "RLIMIT_DATA"
    ∷ row 3 "RLIMIT_STACK"
    ∷ row 4 "RLIMIT_CORE"
    ∷ row 5 "RLIMIT_RSS"
    ∷ row 6 "RLIMIT_NPROC"
    ∷ row 7 "RLIMIT_NOFILE"
    ∷ row 8 "RLIMIT_MEMLOCK"
    ∷ row 9 "RLIMIT_AS"
    ∷ row 10 "RLIMIT_LOCKS"
    ∷ row 11 "RLIMIT_SIGPENDING"
    ∷ row 12 "RLIMIT_MSGQUEUE"
    ∷ row 13 "RLIMIT_NICE"
    ∷ row 14 "RLIMIT_RTPRIO"
    ∷ row 15 "RLIMIT_RTTIME"
    ∷ []

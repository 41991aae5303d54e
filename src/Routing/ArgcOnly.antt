-- ===== src/Routing/ArgcOnly.antt =====
-- src/arg_routing.c: `syscall_argc_table`, in the three groups that its comments make.
use mini_strace.Base.{[], ◌∷◌}
use mini_strace.Routing.Lookup.{ArgcTable}

unfoldable pub arity_only_argc_table : ArgcTable
arity_only_argc_table =
    ("io_setup", 2)
    ∷ ("io_destroy", 1)
    ∷ ("io_submit", 3)
    ∷ ("io_cancel", 3)
    ∷ ("io_getevents", 5)
    ∷ ("io_pgetevents", 6)
    ∷ ("setxattr", 5)
    ∷ ("lsetxattr", 5)
    ∷ ("fsetxattr", 5)
    ∷ ("getxattr", 4)
    ∷ ("lgetxattr", 4)
    ∷ ("fgetxattr", 4)
    ∷ ("listxattr", 3)
    ∷ ("llistxattr", 3)
    ∷ ("flistxattr", 3)
    ∷ ("removexattr", 2)
    ∷ ("lremovexattr", 2)
    ∷ ("fremovexattr", 2)
    ∷ ("lookup_dcookie", 3)
    ∷ ("epoll_create", 1)
    ∷ ("epoll_create1", 1)
    ∷ ("inotify_init", 0)
    ∷ ("inotify_init1", 1)
    ∷ ("inotify_add_watch", 3)
    ∷ ("inotify_rm_watch", 2)
    ∷ ("ioprio_set", 3)
    ∷ ("ioprio_get", 2)
    ∷ ("mknod", 3)
    ∷ ("mknodat", 4)
    ∷ ("fallocate", 4)
    ∷ ("fchdir", 1)
    ∷ ("vhangup", 0)
    ∷ ("quotactl", 4)
    ∷ ("preadv", 5)
    ∷ ("pwritev", 5)
    ∷ ("preadv2", 6)
    ∷ ("pwritev2", 6)
    ∷ ("sendfile", 4)
    ∷ ("signalfd", 3)
    ∷ ("signalfd4", 4)
    ∷ ("eventfd", 2)
    ∷ ("vmsplice", 4)
    ∷ ("splice", 6)
    ∷ ("tee", 4)
    ∷ ("sync_file_range", 4)
    ∷ ("timerfd_create", 2)
    ∷ ("timerfd_settime", 4)
    ∷ ("timerfd_gettime", 2)
    ∷ ("utimensat", 4)
    ∷ ("acct", 1)
    ∷ ("capget", 2)
    ∷ ("capset", 2)
    ∷ ("personality", 1)
    ∷ ("waitid", 5)
    ∷ ("unshare", 1)
    ∷ ("futex", 6)
    ∷ ("get_robust_list", 3)
    ∷ ("getitimer", 2)
    ∷ ("setitimer", 3)
    ∷ ("kexec_load", 4)
    ∷ ("init_module", 3)
    ∷ ("finit_module", 3)
    ∷ ("delete_module", 2)
    ∷ ("timer_create", 3)
    ∷ ("timer_gettime", 2)
    ∷ ("timer_getoverrun", 1)
    ∷ ("timer_settime", 4)
    ∷ ("timer_delete", 1)
    ∷ ("syslog", 3)
    ∷ ("ptrace", 4)
    ∷ ("sched_setparam", 2)
    ∷ ("sched_setscheduler", 3)
    ∷ ("sched_getscheduler", 1)
    ∷ ("sched_getparam", 2)
    ∷ ("sched_setaffinity", 3)
    ∷ ("sched_getaffinity", 3)
    ∷ ("sched_get_priority_max", 1)
    ∷ ("sched_get_priority_min", 1)
    ∷ ("sched_rr_get_interval", 2)
    ∷ ("restart_syscall", 0)
    ∷ ("sigaltstack", 2)
    ∷ ("rt_sigsuspend", 2)
    ∷ ("rt_sigpending", 2)
    ∷ ("rt_sigtimedwait", 4)
    ∷ ("rt_sigqueueinfo", 3)
    ∷ ("rt_tgsigqueueinfo", 4)
    ∷ ("setpriority", 3)
    ∷ ("getpriority", 2)
    ∷ ("reboot", 4)
    ∷ ("setregid", 2)
    ∷ ("setgid", 1)
    ∷ ("setreuid", 2)
    ∷ ("setuid", 1)
    ∷ ("setresuid", 3)
    ∷ ("getresuid", 3)
    ∷ ("setresgid", 3)
    ∷ ("getresgid", 3)
    ∷ ("setfsuid", 1)
    ∷ ("setfsgid", 1)
    ∷ ("times", 1)
    ∷ ("setpgid", 2)
    ∷ ("getpgid", 1)
    ∷ ("getpgrp", 0)
    ∷ ("getsid", 1)
    ∷ ("setsid", 0)
    ∷ ("getgroups", 2)
    ∷ ("setgroups", 2)
    ∷ ("uname", 1)
    ∷ ("sethostname", 2)
    ∷ ("setdomainname", 2)
    ∷ ("getrusage", 2)
    ∷ ("getcpu", 3)
    ∷ ("gettimeofday", 2)
    ∷ ("settimeofday", 2)
    ∷ ("time", 1)
    ∷ ("adjtimex", 1)
    ∷ ("clock_adjtime", 2)
    ∷ ("sysinfo", 1)
    ∷ ("mq_open", 4)
    ∷ ("mq_unlink", 1)
    ∷ ("mq_timedsend", 5)
    ∷ ("mq_timedreceive", 5)
    ∷ ("mq_notify", 2)
    ∷ ("mq_getsetattr", 3)
    ∷ ("msgget", 2)
    ∷ ("msgctl", 3)
    ∷ ("msgrcv", 5)
    ∷ ("msgsnd", 4)
    ∷ ("semget", 3)
    ∷ ("semctl", 4)
    ∷ ("semtimedop", 4)
    ∷ ("semop", 3)
    ∷ ("shmget", 3)
    ∷ ("shmctl", 3)
    ∷ ("shmat", 3)
    ∷ ("shmdt", 1)
    ∷ ("readahead", 3)
    ∷ ("add_key", 5)
    ∷ ("request_key", 4)
    ∷ ("keyctl", 5)
    ∷ ("fadvise64", 4)
    ∷ ("swapon", 2)
    ∷ ("swapoff", 1)
    ∷ ("msync", 3)
    ∷ ("mlock", 2)
    ∷ ("munlock", 2)
    ∷ ("mlockall", 1)
    ∷ ("munlockall", 0)
    ∷ ("mlock2", 3)
    ∷ ("mincore", 3)
    ∷ ("remap_file_pages", 5)
    ∷ ("mbind", 6)
    ∷ ("get_mempolicy", 5)
    ∷ ("set_mempolicy", 3)
    ∷ ("set_mempolicy_home_node", 4)
    ∷ ("migrate_pages", 4)
    ∷ ("move_pages", 6)
    ∷ ("perf_event_open", 5)
    ∷ ("recvmmsg", 5)
    ∷ ("sendmmsg", 4)
    ∷ ("fanotify_init", 2)
    ∷ ("fanotify_mark", 5)
    ∷ ("name_to_handle_at", 5)
    ∷ ("open_by_handle_at", 3)
    ∷ ("syncfs", 1)
    ∷ ("setns", 2)
    ∷ ("process_vm_readv", 6)
    ∷ ("process_vm_writev", 6)
    ∷ ("kcmp", 5)
    ∷ ("sched_setattr", 3)
    ∷ ("sched_getattr", 4)
    ∷ ("seccomp", 3)
    ∷ ("bpf", 3)
    ∷ ("userfaultfd", 1)
    ∷ ("membarrier", 3)
    ∷ ("copy_file_range", 6)
    ∷ ("pkey_mprotect", 4)
    ∷ ("pkey_alloc", 2)
    ∷ ("pkey_free", 1)
    ∷ ("kexec_file_load", 5)
    ∷ ("pidfd_send_signal", 4)
    ∷ ("io_uring_setup", 2)
    ∷ ("io_uring_enter", 6)
    ∷ ("io_uring_register", 4)
    ∷ ("open_tree", 3)
    ∷ ("move_mount", 5)
    ∷ ("fsopen", 2)
    ∷ ("fsconfig", 5)
    ∷ ("fsmount", 3)
    ∷ ("fspick", 3)
    ∷ ("pidfd_open", 2)
    ∷ ("close_range", 3)
    ∷ ("openat2", 4)
    ∷ ("pidfd_getfd", 3)
    ∷ ("process_madvise", 5)
    ∷ ("epoll_pwait2", 6)
    ∷ ("mount_setattr", 5)
    ∷ ("quotactl_fd", 4)
    ∷ ("landlock_create_ruleset", 3)
    ∷ ("landlock_add_rule", 4)
    ∷ ("landlock_restrict_self", 2)
    ∷ ("memfd_secret", 1)
    ∷ ("process_mrelease", 2)
    ∷ ("futex_waitv", 5)
    ∷ ("cachestat", 4)
    ∷ ("fchmodat2", 4)
    ∷ ("getdents", 3)
    ∷ ("ustat", 2)
    ∷ ("uselib", 1)
    ∷ ("sysfs", 3)
    ∷ ("modify_ldt", 3)
    ∷ ("iopl", 1)
    ∷ ("ioperm", 3)
    ∷ []

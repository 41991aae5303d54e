-- ===== src/Routing/ArgcDecoded.antt =====
-- src/arg_routing.c: `syscall_argc_table`, in the three groups that its comments make.
use mini_strace.Base.{[], ◌∷◌}
use mini_strace.Routing.Lookup.{ArgcTable}

unfoldable pub decoded_argc_table : ArgcTable
decoded_argc_table =
    ("access", 2)
    ∷ ("faccessat", 3)
    ∷ ("faccessat2", 4)
    ∷ ("chdir", 1)
    ∷ ("chmod", 2)
    ∷ ("fchmod", 2)
    ∷ ("fchmodat", 3)
    ∷ ("chown", 3)
    ∷ ("fchown", 3)
    ∷ ("fchownat", 5)
    ∷ ("lchown", 3)
    ∷ ("chroot", 1)
    ∷ ("creat", 2)
    ∷ ("open", 3)
    ∷ ("openat", 4)
    ∷ ("close", 1)
    ∷ ("read", 3)
    ∷ ("write", 3)
    ∷ ("pread64", 4)
    ∷ ("pwrite64", 4)
    ∷ ("umask", 1)
    ∷ ("mremap", 5)
    ∷ ("memfd_create", 2)
    ∷ ("eventfd2", 2)
    ∷ ("getrlimit", 2)
    ∷ ("setrlimit", 2)
    ∷ ("readv", 3)
    ∷ ("writev", 3)
    ∷ ("lseek", 3)
    ∷ ("fcntl", 3)
    ∷ ("flock", 2)
    ∷ ("fsync", 1)
    ∷ ("fdatasync", 1)
    ∷ ("ftruncate", 2)
    ∷ ("truncate", 2)
    ∷ ("stat", 2)
    ∷ ("lstat", 2)
    ∷ ("fstat", 2)
    ∷ ("newfstatat", 4)
    ∷ ("statx", 5)
    ∷ ("statfs", 2)
    ∷ ("fstatfs", 2)
    ∷ ("readlink", 3)
    ∷ ("readlinkat", 4)
    ∷ ("symlink", 2)
    ∷ ("symlinkat", 3)
    ∷ ("link", 2)
    ∷ ("linkat", 5)
    ∷ ("rename", 2)
    ∷ ("renameat", 4)
    ∷ ("renameat2", 5)
    ∷ ("unlink", 1)
    ∷ ("unlinkat", 3)
    ∷ ("mkdir", 2)
    ∷ ("mkdirat", 3)
    ∷ ("rmdir", 1)
    ∷ ("utime", 2)
    ∷ ("utimes", 2)
    ∷ ("futimesat", 3)
    ∷ ("mount", 5)
    ∷ ("umount2", 2)
    ∷ ("pivot_root", 2)
    ∷ ("execve", 3)
    ∷ ("execveat", 5)
    ∷ ("dup", 1)
    ∷ ("dup2", 2)
    ∷ ("dup3", 3)
    ∷ ("mmap", 6)
    ∷ ("mprotect", 3)
    ∷ ("kill", 2)
    ∷ ("tkill", 2)
    ∷ ("tgkill", 3)
    ∷ ("wait4", 4)
    ∷ ("clock_gettime", 2)
    ∷ ("clock_settime", 2)
    ∷ ("clock_getres", 2)
    ∷ ("clock_nanosleep", 4)
    ∷ ("rt_sigprocmask", 4)
    ∷ ("clone", 5)
    ∷ ("clone3", 2)
    ∷ ("ioctl", 3)
    ∷ ("socket", 3)
    ∷ ("socketpair", 4)
    ∷ ("bind", 3)
    ∷ ("listen", 2)
    ∷ ("accept", 3)
    ∷ ("accept4", 4)
    ∷ ("connect", 3)
    ∷ ("getsockname", 3)
    ∷ ("getpeername", 3)
    ∷ ("setsockopt", 5)
    ∷ ("getsockopt", 5)
    ∷ ("shutdown", 2)
    ∷ ("sendto", 6)
    ∷ ("recvfrom", 6)
    ∷ ("sendmsg", 3)
    ∷ ("recvmsg", 3)
    ∷ []

unfoldable pub common_argc_table : ArgcTable
common_argc_table =
    ("brk", 1)
    ∷ ("munmap", 2)
    ∷ ("arch_prctl", 2)
    ∷ ("set_tid_address", 1)
    ∷ ("set_robust_list", 2)
    ∷ ("rseq", 4)
    ∷ ("prlimit64", 4)
    ∷ ("getrandom", 3)
    ∷ ("rt_sigaction", 4)
    ∷ ("rt_sigreturn", 0)
    ∷ ("sched_yield", 0)
    ∷ ("madvise", 3)
    ∷ ("poll", 3)
    ∷ ("ppoll", 5)
    ∷ ("select", 5)
    ∷ ("pselect6", 6)
    ∷ ("epoll_ctl", 4)
    ∷ ("epoll_wait", 4)
    ∷ ("epoll_pwait", 6)
    ∷ ("pipe", 1)
    ∷ ("pipe2", 2)
    ∷ ("getcwd", 2)
    ∷ ("getdents64", 3)
    ∷ ("prctl", 5)
    ∷ ("alarm", 1)
    ∷ ("pause", 0)
    ∷ ("nanosleep", 2)
    ∷ ("sync", 0)
    ∷ ("exit", 1)
    ∷ ("exit_group", 1)
    ∷ ("fork", 0)
    ∷ ("vfork", 0)
    ∷ ("getuid", 0)
    ∷ ("getgid", 0)
    ∷ ("geteuid", 0)
    ∷ ("getegid", 0)
    ∷ ("getpid", 0)
    ∷ ("getppid", 0)
    ∷ ("gettid", 0)
    ∷ []

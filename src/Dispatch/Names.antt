-- ===== src/Dispatch/Names.antt =====
-- The names of the system calls that the routing tables list, for proofs about every name: a name is
-- one of these, or no table has it.
use mini_strace.Base.{
  String, Bool, true, false, ◌&&◌, ◌||◌, List, [], ◌∷◌, none, ◌≡◌, refl, sym, subst, arith, str_eq,
  str_eq_iff, all_of, Bool-cases, inl, inr,
}
use mini_strace.Routing.Lookup.{MaskTable, PairTable, mask_lookup, pair_lookup}

unfoldable pub mem_name : String → List String → Bool
mem_name s [] = false
mem_name s (n ∷ names) = str_eq s n || mem_name s names

unfoldable pub decoded_names : List String
decoded_names =
    "open" ∷ "openat" ∷ "creat" ∷ "access" ∷ "faccessat" ∷ "faccessat2" ∷ "stat" ∷ "lstat"
    ∷ "newfstatat" ∷ "statx" ∷ "execve" ∷ "execveat" ∷ "unlink" ∷ "unlinkat" ∷ "mkdir" ∷ "mkdirat"
    ∷ "rmdir" ∷ "chdir" ∷ "rename" ∷ "renameat" ∷ "renameat2" ∷ "memfd_create" ∷ "readlink"
    ∷ "readlinkat" ∷ "chmod" ∷ "fchmodat" ∷ "chown" ∷ "lchown" ∷ "fchownat" ∷ "truncate" ∷ "statfs"
    ∷ "symlink" ∷ "symlinkat" ∷ "link" ∷ "linkat" ∷ "mount" ∷ "umount2" ∷ "chroot" ∷ "pivot_root"
    ∷ "utime" ∷ "utimes" ∷ "futimesat" ∷ "openat2" ∷ "mknodat" ∷ "fchmodat2" ∷ "utimensat"
    ∷ "name_to_handle_at" ∷ "mmap" ∷ "mprotect" ∷ "socket" ∷ "socketpair" ∷ "setsockopt"
    ∷ "getsockopt" ∷ "select" ∷ "pselect6" ∷ "sendto" ∷ "recvfrom" ∷ "sendmsg" ∷ "recvmsg"
    ∷ "fchmod" ∷ "mknod" ∷ "umask" ∷ "mremap" ∷ "eventfd2" ∷ "wait4" ∷ "waitid"
    ∷ "sched_setscheduler" ∷ "getrusage" ∷ "setrlimit" ∷ "prlimit64" ∷ "getrlimit" ∷ "pipe2"
    ∷ "getrandom" ∷ "flock" ∷ "madvise" ∷ "futex" ∷ "prctl" ∷ "kill" ∷ "tkill" ∷ "tgkill"
    ∷ "rt_sigaction" ∷ "lseek" ∷ "fcntl" ∷ "rt_sigprocmask" ∷ "clock_gettime" ∷ "clock_settime"
    ∷ "clock_getres" ∷ "clock_nanosleep" ∷ "write" ∷ "pwrite64" ∷ "writev" ∷ "connect" ∷ "bind"
    ∷ "accept" ∷ "accept4" ∷ "getsockname" ∷ "getpeername" ∷ "epoll_ctl" ∷ "epoll_wait"
    ∷ "epoll_pwait" ∷ "poll" ∷ "ppoll" ∷ "fstat" ∷ "getdents64" ∷ "clone" ∷ "clone3" ∷ "ioctl"
    ∷ "nanosleep" ∷ "read" ∷ "pread64" ∷ "readv" ∷ []

-- A test that passes on every listed name passes on the one at hand.
pub listed :
    (p : String → Bool) (name : String) (names : List String)
    → all_of p names ≡ true
    → mem_name name names ≡ true
    → p name ≡ true
unfolding mem_name
listed p name [] h m = cc
listed p name (n ∷ names) h m = elim (Bool-cases (str_eq name n)) [
  | inl same ↦ subst (λ s. p s ≡ true) (sym ((str_eq_iff name n).0 same)) (ground arith)
  | inr other ↦ listed p name names (ground arith) (ground arith)
]

-- The names of a table are among the listed ones.
abbrev pub masks_listed : MaskTable → Bool
masks_listed [] = true
masks_listed ((n, m) ∷ table) = mem_name n decoded_names && masks_listed table

abbrev pub pairs_listed : PairTable → Bool
pairs_listed [] = true
pairs_listed (e ∷ table) = mem_name e.name decoded_names && pairs_listed table

module _ (name : String) (unlisted : mem_name name decoded_names ≡ false) where
  not_same : (n : String) → mem_name n decoded_names ≡ true → str_eq n name ≡ false
  not_same n h = elim (Bool-cases (str_eq n name)) [
    | inl same ↦
        ground (arith, subst (λ s. mem_name s decoded_names ≡ true) ((str_eq_iff n name).0 same) h)
    | inr other ↦ other
  ]

  pub mask_lookup_unlisted :
      (table : MaskTable) → masks_listed table ≡ true → mask_lookup table name ≡ 0
  unfolding mask_lookup
  mask_lookup_unlisted [] h = refl
  mask_lookup_unlisted ((n, m) ∷ table) h = ground (arith, not_same n, mask_lookup_unlisted table)

  pub pair_lookup_unlisted :
      (table : PairTable) → pairs_listed table ≡ true → pair_lookup table name ≡ none
  unfolding pair_lookup
  pair_lookup_unlisted [] h = refl
  pair_lookup_unlisted (e ∷ table) h = ground (arith, not_same e.name, pair_lookup_unlisted table)

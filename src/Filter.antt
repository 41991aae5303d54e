-- ===== src/Filter.antt =====
-- src/trace_filter.c: the `-e trace=SET` filter. The static `filter_tokens` and its count are the list
-- of tokens, oldest first.
use mini_strace.Base.{
  ℕ, zero, suc, ◌-◌, String, Bool, true, false, ◌&&◌, ◌||◌, List, [], ◌∷◌, ◌++◌, Option, none, some,
  if◌then◌else◌, ◌==◌, ltb, str_eq, codes, length, take,
}
use mini_strace.Base.Bytes.{Bytes, bytes_eq}
pub mod Tokens
pub mod Parse
pub mod Allowed

unfoldable pub file_syscalls : List String
file_syscalls =
    "open" ∷ "openat" ∷ "close" ∷ "read" ∷ "write" ∷ "pread64" ∷ "pwrite64" ∷ "stat" ∷ "lstat"
    ∷ "fstat" ∷ "newfstatat" ∷ "statx" ∷ "access" ∷ "faccessat" ∷ "faccessat2" ∷ "unlink"
    ∷ "unlinkat" ∷ "rename" ∷ "renameat" ∷ "renameat2" ∷ "mkdir" ∷ "mkdirat" ∷ "rmdir" ∷ "chdir"
    ∷ "chmod" ∷ "fchmodat" ∷ "chown" ∷ "lchown" ∷ "fchownat" ∷ "truncate" ∷ "readlink"
    ∷ "readlinkat" ∷ "statfs" ∷ "lseek" ∷ "getcwd" ∷ "creat" ∷ "symlink" ∷ "symlinkat" ∷ "link"
    ∷ "linkat" ∷ "mount" ∷ "umount2" ∷ "chroot" ∷ "pivot_root" ∷ "utime" ∷ "utimes" ∷ "futimesat"
    ∷ "getdents64" ∷ []

unfoldable pub network_syscalls : List String
network_syscalls =
    "socket" ∷ "connect" ∷ "accept" ∷ "accept4" ∷ "bind" ∷ "listen" ∷ "send" ∷ "recv" ∷ "sendto"
    ∷ "recvfrom" ∷ "sendmsg" ∷ "recvmsg" ∷ "setsockopt" ∷ "getsockopt" ∷ "shutdown" ∷ "socketpair"
    ∷ "getsockname" ∷ "getpeername" ∷ []

unfoldable pub process_syscalls : List String
process_syscalls =
    "fork" ∷ "vfork" ∷ "clone" ∷ "clone3" ∷ "execve" ∷ "execveat" ∷ "exit" ∷ "exit_group" ∷ "wait4"
    ∷ "waitid" ∷ "kill" ∷ "tgkill" ∷ "tkill" ∷ "ptrace" ∷ "prctl" ∷ []

unfoldable pub name_in_list : List String → String → Bool
name_in_list [] name = false
name_in_list (entry ∷ list) name = str_eq entry name || name_in_list list name

abbrev pub max_filter_tokens : ℕ
max_filter_tokens = 16

-- `sizeof(filter_tokens[0])`, with the byte for the final NUL
abbrev pub filter_token_size : ℕ
filter_token_size = 64

-- libc's `strtok` over ",": the commas in front are skipped, then the token runs up to the next comma,
-- which is overwritten; the rest is where the next call goes on.
unfoldable pub skip_commas : Bytes → Bytes
skip_commas [] = []
skip_commas (c ∷ s) = if c == b',' then skip_commas s else c ∷ s

unfoldable pub cut_token : Bytes → Bytes × Bytes
cut_token [] = ([], [])
cut_token (c ∷ s) = let cut = cut_token s in if c == b',' then ([], s) else (c ∷ cut.0, cut.1)

unfoldable pub strtok : Bytes → Option (Bytes × Bytes)
unfolding skip_commas cut_token
strtok s = elim (skip_commas s) [ [] ↦ none | c ∷ r ↦ some (cut_token (c ∷ r)) ]

-- The loop of `parse_trace_filter`; each round takes a byte of the set at least.
unfoldable pub parse_loop : ℕ → Bytes → List Bytes → List Bytes
parse_loop zero s tokens = tokens
parse_loop (suc fuel) s tokens = elim (strtok s) [
  | none ↦ tokens
  | some (tok, s') ↦ elim (ltb (length tokens) max_filter_tokens) [
    | true ↦ parse_loop fuel s' (tokens ++ take (filter_token_size - 1) tok ∷ [])
    | false ↦ tokens
  ]
]

unfoldable pub parse_trace_filter : Bytes → List Bytes → List Bytes
unfolding parse_loop
parse_trace_filter set tokens = parse_loop (suc (length set)) set tokens

-- The tests of one token.
unfoldable pub token_allows : Bytes → String → Bool
token_allows tok name =
    (bytes_eq tok (codes "file") && name_in_list file_syscalls name)
    || ((bytes_eq tok (codes "network") && name_in_list network_syscalls name)
        || ((bytes_eq tok (codes "process") && name_in_list process_syscalls name)
            || bytes_eq tok (codes name)))

unfoldable pub any_token_allows : List Bytes → String → Bool
any_token_allows [] name = false
any_token_allows (tok ∷ tokens) name = token_allows tok name || any_token_allows tokens name

unfoldable pub syscall_allowed : List Bytes → String → Bool
unfolding any_token_allows token_allows name_in_list
syscall_allowed [] name = true
syscall_allowed tokens name = any_token_allows tokens name

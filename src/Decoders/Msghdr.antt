-- ===== src/Decoders/Msghdr.antt =====
-- src/decoders.c, `format_msghdr`, and the status of a child and the descriptors, whose texts come from
-- the C library and the kernel.
use mathlib.Core.Option
use mini_strace.Base.{
  length, ℕ, ◌-◌, ◌/◌, ◌%◌, ◌^◌, String, Bool, not, ◌&&◌, ◌++◌, Option, none, some, if◌then◌else◌,
  ◌==◌, ltb, codes,
}
use mini_strace.Base.Bytes.{Bytes}
use mini_strace.Base.Int.{ℤ, pos, negsuc}
use mini_strace.ChildMem.{hex_address, snprintf, str_arg_buf_len}
use mini_strace.Decoders.Text.{append_text, decimal, as_long}
use mini_strace.Decoders.Flags.{format_msg_flags}
use mini_strace.Decoders.Structs.{field, of_struct_unguarded}
use mini_strace.Decoders.Arrays.{format_iovec_array}
use mini_strace.Decoders.Messages.{format_sockaddr, format_cmsg}

-- What the decoders take from elsewhere: `max_str_len`, the reads of the process's memory, and the C
-- library's functions. `beyond` is the content of the control buffer where nothing was read into it.
pub record DecodeEnv : Type 0 where
  pub max_str_len : ℕ
  pub peek : ℕ → Option ℕ
  pub sigabbrev_np : ℤ → Option String
  pub inet_ntop : Bytes → Option Bytes
  pub cmsg_nxthdr : Bytes → ℕ → Option ℕ
  pub beyond : ℕ → ℕ
  -- on the path of a link and the size of the buffer
  pub readlink : Bytes → ℕ → Option Bytes
  pub pid : ℕ

-- Each part of the text is written if there is room; `none` where the control messages are written past
-- their buffer; the names are cut at 1023 bytes, the flags at 127.
unfoldable pub msghdr_text : DecodeEnv → ℤ → ℕ → Bytes → Option Bytes
unfolding field append_text format_sockaddr format_iovec_array format_cmsg format_msg_flags
msghdr_text env total_bytes out_size raw =
    let name =
      if not (field 0 8 raw == 0)
      then format_sockaddr env.inet_ntop env.peek (field 0 8 raw) (field 8 4 raw) str_arg_buf_len
      else codes "NULL" in
    let iov =
      format_iovec_array env.max_str_len env.peek (field 16 8 raw) (field 24 8 raw) total_bytes
        str_arg_buf_len in
    let out = append_text out_size (codes ", msg_control=") (
      append_text out_size iov (
        append_text out_size (codes ", msg_iov=")
          (append_text out_size name (codes "{msg_name=")))) in
    let control =
      if not (field 32 8 raw == 0) && ltb 0 (field 40 8 raw) && ltb (length out) out_size
      then format_cmsg env.cmsg_nxthdr env.beyond env.peek (field 32 8 raw) (field 40 8 raw)
          str_arg_buf_len
      else some (codes "NULL") in
    Option.map
      (λ (shown : Bytes).
        append_text out_size
          (codes ", msg_flags=" ++ format_msg_flags (field 48 4 raw) 128 ++ codes "}")
          (append_text out_size shown out))
      control

unfoldable pub format_msghdr : DecodeEnv → ℕ → ℤ → ℕ → Option Bytes
unfolding of_struct_unguarded msghdr_text
format_msghdr env addr total_bytes out_size =
    of_struct_unguarded env.peek addr 56 out_size (msghdr_text env total_bytes out_size)

-- `SIG%s`: the C library prints "(null)" for a signal that has no name.
unfoldable pub signal_name_text : (ℤ → Option String) → ℕ → Bytes
signal_name_text sigabbrev_np sig =
    codes "SIG" ++ elim (sigabbrev_np (pos sig)) [ some name ↦ codes name | none ↦ codes "(null)" ]

-- WIFEXITED, WIFSIGNALED, WIFSTOPPED and the values they go with, of <sys/wait.h>.
unfoldable pub wait_text : (ℤ → Option String) → ℕ → Bytes
unfolding signal_name_text decimal hex_address
wait_text sigabbrev_np wstatus =
    let low = wstatus % 2 ^ 7 in
    let high = wstatus / 2 ^ 8 % 2 ^ 8 in
    if low == 0
    then codes "[{WIFEXITED(s) && WEXITSTATUS(s) == " ++ decimal high ++ codes "}]"
    else if ltb low 0x7f
    then codes "[{WIFSIGNALED(s) && WTERMSIG(s) == "
      ++ signal_name_text sigabbrev_np low
      ++ codes "}]"
    else if wstatus % 2 ^ 8 == 0x7f
    then codes "[{WIFSTOPPED(s) && WSTOPSIG(s) == "
      ++ signal_name_text sigabbrev_np high
      ++ codes "}]"
    else codes "[" ++ hex_address wstatus ++ codes "]"

unfoldable pub format_wait_status : (ℤ → Option String) → (ℕ → Option ℕ) → ℕ → ℕ → Bytes
unfolding wait_text hex_address
format_wait_status sigabbrev_np peek addr out_size =
    if addr == 0 then snprintf out_size (codes "NULL") else elim (peek addr) [
      | none ↦ snprintf out_size (hex_address addr)
      | some word ↦ snprintf out_size (wait_text sigabbrev_np (word % 2 ^ 32))
    ]

-- The path of a descriptor, if it has one.
unfoldable pub resolve_fd_path : (Bytes → ℕ → Option Bytes) → ℕ → ℤ → ℕ → Option Bytes
unfolding decimal
resolve_fd_path readlink pid (negsuc n) out_size = none
resolve_fd_path readlink pid (pos fd) out_size =
    let linkpath = snprintf 64 (codes "/proc/" ++ decimal pid ++ codes "/fd/" ++ decimal fd) in
    readlink linkpath (out_size - 1)

unfoldable pub format_hex_or_fd_arg : (Bytes → ℕ → Option Bytes) → ℕ → ℕ → Bool → ℕ → Bytes
unfolding resolve_fd_path as_long hex_address
format_hex_or_fd_arg readlink pid raw is_fd_arg out_size =
    let path = if is_fd_arg then resolve_fd_path readlink pid (as_long raw) 192 else none in
    snprintf out_size (elim path [
      | some s ↦ hex_address raw ++ codes "<" ++ s ++ codes ">"
      | none ↦ hex_address raw
    ])

-- `AT_FDCWD`, -100 as a 32-bit number.
abbrev pub at_fdcwd : ℕ
at_fdcwd = 2 ^ 32 - 100

unfoldable pub format_dirfd : (Bytes → ℕ → Option Bytes) → ℕ → ℕ → Bool → ℕ → Bytes
unfolding format_hex_or_fd_arg
format_dirfd readlink pid raw is_fd_arg out_size =
    if raw % 2 ^ 32 == at_fdcwd
    then snprintf out_size (codes "AT_FDCWD")
    else format_hex_or_fd_arg readlink pid raw is_fd_arg out_size

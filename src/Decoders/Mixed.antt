-- ===== src/Decoders/Mixed.antt =====
-- src/decoders.c: the decoders of a value that is in parts a number, a name and flags. `sigabbrev_np` is
-- the C library's, which has a name for some signals.
use mini_strace.Base.{
  ℕ, ◌%◌, ◌^◌, String, true, false, not, [], ◌∷◌, ◌++◌, Option, none, some, if◌then◌else◌, ◌==◌,
  length, codes, bit_and,
}
use mini_strace.Base.Bytes.{Bytes}
use mini_strace.Base.Int.{ℤ}
use mini_strace.ChildMem.{hex_address, snprintf}
use mini_strace.Decoders.Text.{append_text, unless_first, decimal, signed_decimal, as_int}
use mini_strace.Decoders.Walk.{clear_bits, enum_text, walk, append_rest}
use mini_strace.Decoders.Tables.Files.{open_flag_table, at_flag_table}
use mini_strace.Decoders.Tables.Processes.{clone_flag_table, futex_cmd_table, sched_policy_table}
use mini_strace.Decoders.Tables.Sockets.{socket_type_table}

-- `O_ACCMODE`, the bits of the access mode.
abbrev pub o_accmode : ℕ
o_accmode = 3

unfoldable pub accmode_name : ℕ → String
accmode_name flags =
    if bit_and flags o_accmode == 1
    then "O_WRONLY"
    else if bit_and flags o_accmode == 2
    then "O_RDWR"
    else "O_RDONLY"

-- The text is never empty here, so that the walk writes a bar before each name.
unfoldable pub format_open_flags : ℕ → ℕ → Bytes
unfolding accmode_name walk
format_open_flags flags out_size =
    let remaining = clear_bits flags o_accmode in
    let walked = walk true out_size open_flag_table remaining (codes (accmode_name flags)) in
    snprintf out_size (append_rest out_size walked)

-- `if ((value & flag) && oi < out_size)`, then the flag's name behind a bar.
unfoldable pub append_flag : ℕ → ℕ → ℕ → String → Bytes → Bytes
unfolding append_text
append_flag out_size value flag name out =
    if not (bit_and value flag == 0) then append_text out_size (b'|' ∷ codes name) out else out

abbrev pub sock_cloexec : ℕ
sock_cloexec = 0x80000

abbrev pub sock_nonblock : ℕ
sock_nonblock = 0x800

unfoldable pub format_socket_type : ℕ → ℕ → Bytes
unfolding enum_text append_flag
format_socket_type value out_size =
    let base = clear_bits value 0x80800 in
    let out = enum_text socket_type_table base in
    snprintf out_size (
      append_flag out_size value sock_nonblock "SOCK_NONBLOCK"
        (append_flag out_size value sock_cloexec "SOCK_CLOEXEC" out))

abbrev pub futex_private_flag : ℕ
futex_private_flag = 0x80

abbrev pub futex_clock_realtime : ℕ
futex_clock_realtime = 0x100

unfoldable pub format_futex_op : ℕ → ℕ → Bytes
unfolding enum_text append_flag
format_futex_op value out_size =
    let flags = bit_and value 0x180 in
    let cmd = clear_bits value 0x180 in
    let out = enum_text futex_cmd_table cmd in
    snprintf out_size (
      append_flag out_size flags futex_clock_realtime "FUTEX_CLOCK_REALTIME"
        (append_flag out_size flags futex_private_flag "FUTEX_PRIVATE_FLAG" out))

abbrev pub sched_reset_on_fork : ℕ
sched_reset_on_fork = 0x40000000

unfoldable pub format_sched_policy : ℕ → ℕ → Bytes
unfolding enum_text append_flag
format_sched_policy value out_size =
    let out = enum_text sched_policy_table (clear_bits value sched_reset_on_fork) in
    snprintf out_size (append_flag out_size value sched_reset_on_fork "SCHED_RESET_ON_FORK" out)

-- The name of bit 0x200, where the call has one, goes first.
unfoldable pub format_at_flags_walk : ℕ → Option String → ℕ → Bytes
unfolding walk append_text
format_at_flags_walk value bit200_name out_size =
    if value == 0
    then snprintf out_size (codes "0")
    else snprintf out_size (
        append_rest out_size (elim bit200_name [
          | none ↦ walk false out_size at_flag_table value []
          | some name ↦
              if not (bit_and value 0x200 == 0)
              then walk false out_size at_flag_table (clear_bits value 0x200)
                  (append_text out_size (codes name) [])
              else walk false out_size at_flag_table value []
        ]))

unfoldable pub format_at_flags : ℕ → ℕ → Bytes
unfolding format_at_flags_walk
format_at_flags value out_size = format_at_flags_walk value none out_size

unfoldable pub format_unlinkat_flags : ℕ → ℕ → Bytes
unfolding format_at_flags_walk
format_unlinkat_flags value out_size = format_at_flags_walk value (some "AT_REMOVEDIR") out_size

unfoldable pub format_faccessat_flags : ℕ → ℕ → Bytes
unfolding format_at_flags_walk
format_faccessat_flags value out_size = format_at_flags_walk value (some "AT_EACCESS") out_size

unfoldable pub format_signal_arg : (ℤ → Option String) → ℕ → ℕ → Bytes
unfolding signed_decimal
format_signal_arg sigabbrev_np value out_size =
    let sig = as_int value in
    if value % 2 ^ 32 == 0
    then snprintf out_size (codes "0")
    else snprintf out_size (elim (sigabbrev_np sig) [
      | some name ↦ codes "SIG" ++ codes name
      | none ↦ signed_decimal sig
    ])

-- The signal of a clone, as it is named.
unfoldable pub exit_signal_text : (ℤ → Option String) → ℕ → Bytes
unfolding decimal
exit_signal_text sigabbrev_np exit_signal = elim (sigabbrev_np (as_int exit_signal)) [
  | some name ↦ codes "SIG" ++ codes name
  | none ↦ decimal exit_signal
]

unfoldable pub format_clone_flags_value : (ℤ → Option String) → ℕ → ℕ → ℕ → Bytes
unfolding walk append_text exit_signal_text
format_clone_flags_value sigabbrev_np flags exit_signal out_size =
    let (remaining, out) = walk false out_size clone_flag_table flags [] in
    let signal = exit_signal_text sigabbrev_np exit_signal in
    let out' =
      if not (exit_signal == 0)
      then append_text out_size (unless_first (b'|' ∷ []) out ++ signal) out
      else out in
    if length out' == 0
    then snprintf out_size (codes "0")
    else snprintf out_size (
        if not (remaining == 0)
        then append_text out_size (b'|' ∷ hex_address remaining) out'
        else out')

-- The low byte of the flags is the signal (`CLONE_CSIGNAL_MASK`).
unfoldable pub format_clone_flags : (ℤ → Option String) → ℕ → ℕ → Bytes
unfolding format_clone_flags_value
format_clone_flags sigabbrev_np value out_size =
    format_clone_flags_value sigabbrev_np (clear_bits value 0xff) (bit_and value 0xff) out_size

-- ===== src/Decoders/Structs.antt =====
-- src/decoders.c: the decoders that read a structure in the memory of the process. The offsets and sizes
-- are those of Linux on x86-64. `peek` reads a word, as in the module of the memory.
use mathlib.Core.Option
use mini_strace.Base.{
  ℕ, zero, suc, ◌+◌, ◌-◌, ◌*◌, ◌^◌, String, Bool, true, false, [], ◌∷◌, ◌++◌, Option, none, some,
  if◌then◌else◌, ◌==◌, ltb, leb, length, codes, bit_and, take, drop,
}
use mini_strace.Base.Bytes.{Bytes}
use mini_strace.Base.Int.{ℤ, pos}
use mini_strace.ChildMem.{hex_address, snprintf, read_child_raw}
use mini_strace.Decoders.Text.{append_text, write_text, decimal, octal, signed_decimal, as_long}
use mini_strace.Decoders.Walk.{clear_bits}
use mini_strace.Decoders.Mixed.{format_clone_flags_value}
use mini_strace.Decoders.Flags.{format_sigaction_flags_value}

-- A number in memory, lowest byte first.
unfoldable pub le_value : Bytes → ℕ
le_value [] = 0
le_value (c ∷ s) = c + 256 * le_value s

-- The field of `width` bytes at an offset.
unfoldable pub field : ℕ → ℕ → Bytes → ℕ
unfolding le_value
field offset width raw = le_value (take width (drop offset raw))

-- A pointer to a structure: NULL and one that cannot be read are shown as such.
unfoldable pub of_struct : (ℕ → Option ℕ) → ℕ → ℕ → ℕ → (Bytes → Bytes) → Bytes
unfolding read_child_raw hex_address
of_struct peek addr size out_size show =
    let raw = read_child_raw peek addr size in
    if addr == 0
    then snprintf out_size (codes "NULL")
    else if ltb (length raw) size
    then snprintf out_size (hex_address addr)
    else snprintf out_size (show raw)

-- The same with a text that may be written past its buffer.
unfoldable pub of_struct_unguarded :
    (ℕ → Option ℕ) → ℕ → ℕ → ℕ → (Bytes → Option Bytes) → Option Bytes
unfolding read_child_raw hex_address
of_struct_unguarded peek addr size out_size show =
    let raw = read_child_raw peek addr size in
    if addr == 0
    then some (snprintf out_size (codes "NULL"))
    else if ltb (length raw) size
    then some (snprintf out_size (hex_address addr))
    else Option.map (snprintf out_size) (show raw)

-- `clone3`: the flags are shown also where only they can be read.
unfoldable pub format_clone3_flags : (ℤ → Option String) → (ℕ → Option ℕ) → ℕ → ℕ → Bytes
unfolding read_child_raw field hex_address format_clone_flags_value
format_clone3_flags sigabbrev_np peek addr out_size =
    let raw = read_child_raw peek addr 40 in
    let exit_signal = if leb 40 (length raw) then field 32 8 raw else 0 in
    if addr == 0
    then snprintf out_size (codes "NULL")
    else if ltb (length raw) 8
    then snprintf out_size (hex_address addr)
    else format_clone_flags_value sigabbrev_np (field 0 8 raw) exit_signal out_size

unfoldable pub format_rlim_value : ℕ → ℕ → Bytes
unfolding decimal
format_rlim_value v out_size =
    if v == 2 ^ 64 - 1
    then snprintf out_size (codes "RLIM_INFINITY")
    else snprintf out_size (decimal v)

unfoldable pub rlimit_text : Bytes → Bytes
unfolding field format_rlim_value
rlimit_text raw =
    codes "{rlim_cur="
    ++ format_rlim_value (field 0 8 raw) 32
    ++ codes ", rlim_max="
    ++ format_rlim_value (field 8 8 raw) 32
    ++ codes "}"

unfoldable pub format_rlimit : (ℕ → Option ℕ) → ℕ → ℕ → Bytes
unfolding of_struct rlimit_text
format_rlimit peek addr out_size = of_struct peek addr 16 out_size rlimit_text

-- A field of type long.
unfoldable pub long_text : ℕ → Bytes → Bytes
unfolding field as_long signed_decimal
long_text offset raw = signed_decimal (as_long (field offset 8 raw))

unfoldable pub timespec_text : Bytes → Bytes
unfolding long_text
timespec_text raw =
    codes "{tv_sec=" ++ long_text 0 raw ++ codes ", tv_nsec=" ++ long_text 8 raw ++ codes "}"

unfoldable pub format_timespec : (ℕ → Option ℕ) → ℕ → ℕ → Bytes
unfolding of_struct timespec_text
format_timespec peek addr out_size = of_struct peek addr 16 out_size timespec_text

unfoldable pub rusage_text : Bytes → Bytes
unfolding long_text
rusage_text raw =
    codes "{ru_utime={tv_sec="
    ++ long_text 0 raw
    ++ codes ", tv_usec="
    ++ long_text 8 raw
    ++ codes "}, ru_stime={tv_sec="
    ++ long_text 16 raw
    ++ codes ", tv_usec="
    ++ long_text 24 raw
    ++ codes "}, ru_maxrss="
    ++ long_text 32 raw
    ++ codes "}"

unfoldable pub format_rusage : (ℕ → Option ℕ) → ℕ → ℕ → Bytes
unfolding of_struct rusage_text
format_rusage peek addr out_size = of_struct peek addr 144 out_size rusage_text

-- `S_IFMT`, the file type in a mode.
abbrev pub s_ifmt : ℕ
s_ifmt = 0xf000

unfoldable pub stat_file_type_name : ℕ → Option String
stat_file_type_name mode =
    let kind = bit_and mode s_ifmt in
    if kind == 0x8000
    then some "S_IFREG"
    else if kind == 0x4000
    then some "S_IFDIR"
    else if kind == 0x2000
    then some "S_IFCHR"
    else if kind == 0x6000
    then some "S_IFBLK"
    else if kind == 0x1000
    then some "S_IFIFO"
    else if kind == 0xa000
    then some "S_IFLNK"
    else if kind == 0xc000
    then some "S_IFSOCK"
    else none

-- The mode of both kinds of stat structure, behind the name of its field.
unfoldable pub mode_text : String → ℕ → Bytes
unfolding stat_file_type_name octal
mode_text label mode = elim (stat_file_type_name mode) [
  | some name ↦ codes label ++ codes name ++ codes "|0" ++ octal (clear_bits mode s_ifmt)
  | none ↦ codes label ++ b'0' ∷ octal mode
]

unfoldable pub stat_text : ℕ → Bytes → Bytes
unfolding field mode_text append_text decimal long_text
stat_text out_size raw =
    append_text out_size (codes ", st_gid=" ++ decimal (field 32 4 raw) ++ codes "}") (
      append_text out_size (codes ", st_uid=" ++ decimal (field 28 4 raw)) (
        append_text out_size (codes ", st_nlink=" ++ decimal (field 16 8 raw)) (
          append_text out_size (codes ", st_size=" ++ long_text 48 raw)
            (mode_text "{st_mode=" (field 24 4 raw)))))

unfoldable pub format_stat_buf : (ℕ → Option ℕ) → ℕ → ℕ → Bytes
unfolding of_struct stat_text
format_stat_buf peek addr out_size = of_struct peek addr 144 out_size (stat_text out_size)

unfoldable pub statx_text : ℕ → Bytes → Bytes
unfolding field mode_text append_text decimal
statx_text out_size raw =
    append_text out_size (codes ", stx_gid=" ++ decimal (field 24 4 raw) ++ codes "}") (
      append_text out_size (codes ", stx_uid=" ++ decimal (field 20 4 raw)) (
        append_text out_size (codes ", stx_nlink=" ++ decimal (field 16 4 raw)) (
          append_text out_size (codes ", stx_size=" ++ decimal (field 40 8 raw))
            (mode_text "{stx_mode=" (field 28 2 raw)))))

unfoldable pub format_statx_buf : (ℕ → Option ℕ) → ℕ → ℕ → Bytes
unfolding of_struct statx_text
format_statx_buf peek addr out_size = of_struct peek addr 256 out_size (statx_text out_size)

-- The name of one signal of a set, or its number.
unfoldable pub set_signal_text : (ℤ → Option String) → ℕ → Bytes
unfolding decimal
set_signal_text sigabbrev_np sig = elim (sigabbrev_np (pos sig)) [
  | some name ↦ codes "SIG" ++ codes name
  | none ↦ decimal sig
]

-- The loop over the signals from `sig`, of which `rounds` are left; a space stands before all texts
-- but the first.
unfoldable pub sigset_loop : (ℤ → Option String) → ℕ → ℕ → ℕ → ℕ → Bool → Bytes → Bytes
unfolding set_signal_text append_text
sigset_loop sigabbrev_np zero sig mask out_size first out = out
sigset_loop sigabbrev_np (suc rounds) sig mask out_size first out =
    elim (ltb (length out) out_size) [
      | false ↦ out
      | true ↦ elim (bit_and mask (2 ^ (sig - 1)) == 0) [
        | true ↦ sigset_loop sigabbrev_np rounds (sig + 1) mask out_size first out
        | false ↦ sigset_loop sigabbrev_np rounds (sig + 1) mask out_size false (
            append_text out_size
              ((if first then [] else b' ' ∷ []) ++ set_signal_text sigabbrev_np sig) out)
      ]
    ]

unfoldable pub format_sigset_value : (ℤ → Option String) → ℕ → ℕ → Bytes
unfolding sigset_loop append_text
format_sigset_value sigabbrev_np mask out_size = snprintf out_size (
    append_text out_size (codes "]") (sigset_loop sigabbrev_np 64 1 mask out_size true (codes "[")))

unfoldable pub handler_text : ℕ → Bytes
unfolding hex_address
handler_text handler =
    if handler == 0
    then codes "SIG_DFL"
    else if handler == 1
    then codes "SIG_IGN"
    else hex_address handler

-- The kernel's structure: the handler, the flags, the restorer and the mask. The handler is written
-- without a test of the room.
unfoldable pub sigaction_text : (ℤ → Option String) → ℕ → Bytes → Option Bytes
unfolding field handler_text write_text append_text format_sigaction_flags_value format_sigset_value
sigaction_text sigabbrev_np out_size raw =
    Option.map
      (λ (out : Bytes).
        append_text out_size
          (codes ", sa_mask=" ++ format_sigset_value sigabbrev_np (field 24 8 raw) 512 ++ codes "}")
          (append_text out_size
            (codes ", sa_flags=" ++ format_sigaction_flags_value (field 8 8 raw) 256) out))
      (write_text out_size (handler_text (field 0 8 raw)) (codes "{sa_handler="))

unfoldable pub format_sigaction : (ℤ → Option String) → (ℕ → Option ℕ) → ℕ → ℕ → Option Bytes
unfolding of_struct_unguarded sigaction_text
format_sigaction sigabbrev_np peek addr out_size =
    of_struct_unguarded peek addr 32 out_size (sigaction_text sigabbrev_np out_size)

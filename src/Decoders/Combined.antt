-- ===== src/Decoders/Combined.antt =====
-- The decoders of a value that is in parts a name and flags, and the reader.
use mini_strace.Base.{
  ℕ, ◌+◌, ◌-◌, ◌^◌, ◌≤◌, ◌<◌, String, true, false, [], ◌∷◌, ◌++◌, Option, none, some, ◌≡◌, refl, ap,
  ◌∙◌, arith, ◌==◌, ltb, bit_and, Bool-cases, inl, inr, codes,
}
use mini_strace.Base.Bytes.{bytes_eq}
use mini_strace.Base.Bits.{bit_and-le_left, bit_and-split, bit_and-mask, bit_and-power}
use mini_strace.ChildMem.{snprintf, str_arg_buf_len}
use mini_strace.Decoders.Tables.Files.{at_flag_table}
use mini_strace.Decoders.Tables.Processes.{futex_cmd_table, sched_policy_table}
use mini_strace.Decoders.Tables.Sockets.{socket_type_table}
use mini_strace.Decoders.Text.{append_text}
use mini_strace.Decoders.Walk.{FlagTable, row, clear_bits, walk, append_rest, flags_text}
use mini_strace.Decoders.Mixed.{
  format_socket_type, format_futex_op, format_sched_policy, format_at_flags_walk,
}
use mini_strace.Decoders.Parts.{total}
use mini_strace.Decoders.Joined.{budget}
use mini_strace.Decoders.Reading.{read_flags, value_of_name, good_table}
use mini_strace.Decoders.Words.{flags_text-read_known}
use mini_strace.Decoders.Headed.{headed-read}
use mini_strace.Decoders.Suffixes.{suffixes, set_rows, suffixes-read, total-set_row}

abbrev pub socket_flags : FlagTable
socket_flags = row 0x80000 "SOCK_CLOEXEC" ∷ row 0x800 "SOCK_NONBLOCK" ∷ []

abbrev pub futex_flags : FlagTable
futex_flags = row 0x80 "FUTEX_PRIVATE_FLAG" ∷ row 0x100 "FUTEX_CLOCK_REALTIME" ∷ []

abbrev pub sched_flags : FlagTable
sched_flags = row 0x40000000 "SCHED_RESET_ON_FORK" ∷ []

two_flags :
    (value f g : ℕ) (m n : String)
    → bit_and f g ≡ 0
    → total (set_rows value (row f m ∷ row g n ∷ [])) ≡ bit_and value f + bit_and value g
    → (value - bit_and value (f + g)) + total (set_rows value (row f m ∷ row g n ∷ [])) ≡ value
two_flags value f g m n apart t =
    omega (arith, t, bit_and-split value f g apart, bit_and-le_left value (f + g))

pub format_socket_type-read :
    (value : ℕ)
    → value < 2 ^ 64
    → read_flags (socket_type_table ++ socket_flags) (format_socket_type value str_arg_buf_len)
      ≡ some value
unfolding format_socket_type suffixes value_of_name bytes_eq
format_socket_type-read value k =
    let first =
      total-set_row value (row 0x80000 "SOCK_CLOEXEC") (row 0x800 "SOCK_NONBLOCK" ∷ [])
        (bit_and-power 19) in
    let second = total-set_row value (row 0x800 "SOCK_NONBLOCK") [] (bit_and-power 11) in
    suffixes-read (socket_type_table ++ socket_flags) socket_type_table socket_flags
      (clear_bits value 0x80800) value str_arg_buf_len refl refl refl (omega arith) (omega arith)
    ∙ ap some (
        two_flags value 0x80000 0x800 "SOCK_CLOEXEC" "SOCK_NONBLOCK" refl
          (omega (arith, first, second)))

pub format_futex_op-read :
    (value : ℕ)
    → value < 2 ^ 64
    → read_flags (futex_cmd_table ++ futex_flags) (format_futex_op value str_arg_buf_len)
      ≡ some value
unfolding format_futex_op suffixes value_of_name bytes_eq
format_futex_op-read value k =
    let flags = bit_and value 0x180 in
    let first =
      total-set_row flags (row 0x80 "FUTEX_PRIVATE_FLAG") (row 0x100 "FUTEX_CLOCK_REALTIME" ∷ [])
        (bit_and-power 7) in
    let second = total-set_row flags (row 0x100 "FUTEX_CLOCK_REALTIME") [] (bit_and-power 8) in
    suffixes-read (futex_cmd_table ++ futex_flags) futex_cmd_table futex_flags
      (clear_bits value 0x180) flags str_arg_buf_len refl refl refl (omega arith) (omega arith)
    ∙ ap some (
        omega (
          arith,
          first,
          second,
          bit_and-mask value 0x180 0x80 refl,
          bit_and-mask value 0x180 0x100 refl,
          bit_and-split value 0x80 0x100 refl,
          bit_and-le_left value 0x180,
        ))

pub format_sched_policy-read :
    (value : ℕ)
    → value < 2 ^ 64
    → read_flags (sched_policy_table ++ sched_flags) (format_sched_policy value str_arg_buf_len)
      ≡ some value
unfolding format_sched_policy suffixes value_of_name bytes_eq
format_sched_policy-read value k =
    let flag = total-set_row value (row 0x40000000 "SCHED_RESET_ON_FORK") [] (bit_and-power 30) in
    suffixes-read (sched_policy_table ++ sched_flags) sched_policy_table sched_flags
      (clear_bits value 0x40000000) value str_arg_buf_len refl refl refl (omega arith) (omega arith)
    ∙ ap some (omega (arith, flag, bit_and-le_left value 0x40000000))

abbrev pub at_names : Option String → FlagTable
at_names none = row 0 "0" ∷ at_flag_table
at_names (some name) = row 0 "0" ∷ row 0x200 name ∷ at_flag_table

-- Without a name for the bit, or without the bit, it is the plain walk.
pub at_flags-plain :
    (value out_size : ℕ)
    → format_at_flags_walk value none out_size
      ≡ snprintf out_size (flags_text "0" at_flag_table value out_size)
unfolding format_at_flags_walk flags_text
at_flags-plain value out_size = elim (Bool-cases (value == 0)) [
  | inl z ↦ rw z refl
  | inr nz ↦ rw nz refl
]

at_flags-unset :
    (value out_size : ℕ) (name : String)
    → bit_and value 0x200 ≡ 0
    → format_at_flags_walk value (some name) out_size ≡ format_at_flags_walk value none out_size
unfolding format_at_flags_walk
at_flags-unset value out_size name h = rw h refl

at_flags-set :
    (value out_size : ℕ) (name : String)
    → 0 < out_size
    → bit_and value 0x200 ≡ 0x200
    → format_at_flags_walk value (some name) out_size
      ≡ snprintf out_size (
          append_rest out_size
            (walk false out_size at_flag_table (clear_bits value 0x200) (codes name)))
unfolding format_at_flags_walk append_text
at_flags-set value out_size name z h =
    let not_zero : (value == 0) ≡ false = ground (arith, bit_and-le_left value 0x200) in
    let room : ltb 0 out_size ≡ true = ground arith in rw (not_zero, h, room) refl

pub format_at_flags_walk-read :
    (value : ℕ) (name : String)
    → good_table (at_names (some name)) ≡ true
    → budget (at_names (some name)) + 20 ≤ str_arg_buf_len
    → value < 2 ^ 64
    → read_flags (at_names (some name)) (format_at_flags_walk value (some name) str_arg_buf_len)
      ≡ some value
format_at_flags_walk-read value name g room k = elim (bit_and-power 9 value) [
  | inl off ↦
      let same =
        at_flags-unset value str_arg_buf_len name off ∙ at_flags-plain value str_arg_buf_len in
      ap (read_flags (at_names (some name))) same
      ∙ flags_text-read_known (at_names (some name)) "0" at_flag_table value str_arg_buf_len g
          (ground arith) (omega arith) k
  | inr on ↦
      ap (read_flags (at_names (some name)))
        (at_flags-set value str_arg_buf_len name (omega arith) on)
      ∙ headed-read (at_names (some name)) (row 0x200 name) at_flag_table false
          (clear_bits value 0x200) str_arg_buf_len g (ground arith) (omega arith) (omega arith)
      ∙ ap some (omega (arith, on, bit_and-le_left value 0x200))
]

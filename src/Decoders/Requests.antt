-- ===== src/Decoders/Requests.antt =====
-- src/decoders.c: the decoders of device requests, of options that depend on another argument, and of modes.
use mini_strace.Base.{
  ℕ, ◌-◌, ◌/◌, ◌%◌, ◌^◌, String, not, ◌||◌, [], ◌∷◌, ◌++◌, Option, none, some, if◌then◌else◌, ◌==◌,
  codes, bit_and,
}
use mini_strace.Base.Bytes.{Bytes}
use mini_strace.ChildMem.{hex_address, snprintf, read_child_string}
use mini_strace.Decoders.Text.{decimal, octal}
use mini_strace.Decoders.Walk.{FlagTable, has_bits, enum_text, name_of_value}
use mini_strace.Decoders.Tables.Sockets.{
  ioctl_request_table, sockopt_optname_socket_table, sockopt_optname_tcp_table,
}

-- `_IOC_DIR`, `_IOC_TYPE`, `_IOC_NR` and `_IOC_SIZE` of <linux/ioctl.h>.
abbrev pub ioc_dir : ℕ → ℕ
ioc_dir req = req / 2 ^ 30 % 4

abbrev pub ioc_type : ℕ → ℕ
ioc_type req = req / 2 ^ 8 % 2 ^ 8

abbrev pub ioc_nr : ℕ → ℕ
ioc_nr req = req % 2 ^ 8

abbrev pub ioc_size : ℕ → ℕ
ioc_size req = req / 2 ^ 16 % 2 ^ 14

unfoldable pub ioc_dir_name : ℕ → String
ioc_dir_name dir =
    if dir == 0
    then "_IOC_NONE"
    else if dir == 2
    then "_IOC_READ"
    else if dir == 1
    then "_IOC_WRITE"
    else if dir == 3
    then "_IOC_READ|_IOC_WRITE"
    else "0"

unfoldable pub format_ioctl_request : ℕ → ℕ → Bytes
unfolding enum_text name_of_value ioc_dir_name decimal
format_ioctl_request value out_size =
    let req = value % 2 ^ 32 in
    snprintf out_size (elim (name_of_value ioctl_request_table value) [
      | some name ↦ codes name
      | none ↦
          codes "_IOC("
          ++ codes (ioc_dir_name (ioc_dir req))
          ++ codes ", "
          ++ hex_address (ioc_type req)
          ++ codes ", "
          ++ hex_address (ioc_nr req)
          ++ codes ", "
          ++ decimal (ioc_size req)
          ++ codes ")"
    ])

-- The table of the options of a level: `SOL_SOCKET` or `IPPROTO_TCP`.
unfoldable pub optname_table : ℕ → FlagTable
optname_table level =
    if level == 1
    then sockopt_optname_socket_table
    else if level == 6
    then sockopt_optname_tcp_table
    else []

unfoldable pub format_sockopt_optname : ℕ → ℕ → ℕ → Bytes
unfolding enum_text optname_table
format_sockopt_optname level optname out_size =
    snprintf out_size (enum_text (optname_table level) optname)

unfoldable pub format_rusage_who : ℕ → ℕ → Bytes
unfolding hex_address
format_rusage_who value out_size =
    let who = value % 2 ^ 32 in
    snprintf out_size (
      if who == 0
      then codes "RUSAGE_SELF"
      else if who == 2 ^ 32 - 1
      then codes "RUSAGE_CHILDREN"
      else if who == 1
      then codes "RUSAGE_THREAD"
      else hex_address value)

unfoldable pub format_file_mode : ℕ → ℕ → Bytes
unfolding octal
format_file_mode value out_size =
    if value == 0 then snprintf out_size (codes "0") else snprintf out_size (b'0' ∷ octal value)

abbrev pub o_creat : ℕ
o_creat = 0x40

abbrev pub o_tmpfile : ℕ
o_tmpfile = 0x410000

unfoldable pub format_open_mode : ℕ → ℕ → ℕ → Bytes
unfolding format_file_mode hex_address
format_open_mode flags mode out_size =
    if not (bit_and flags o_creat == 0) || has_bits flags o_tmpfile
    then format_file_mode mode out_size
    else snprintf out_size (hex_address mode)

-- The name is read from the process for `PR_SET_NAME`.
unfoldable pub format_prctl_name_arg : ℕ → (ℕ → Option ℕ) → ℕ → ℕ → ℕ → Bytes
unfolding read_child_string hex_address
format_prctl_name_arg max_str_len peek option addr out_size =
    if option == 15
    then read_child_string max_str_len peek addr out_size
    else snprintf out_size (hex_address addr)

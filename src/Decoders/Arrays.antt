-- ===== src/Decoders/Arrays.antt =====
-- src/decoders.c: the decoders of arrays and of packed sequences in the memory of the process.
use mini_strace.Base.{
  ℕ, zero, suc, ◌+◌, ◌-◌, ◌*◌, ◌/◌, ◌%◌, ◌^◌, Bool, true, false, not, ◌&&◌, [], ◌++◌, Option,
  if◌then◌else◌, ◌==◌, ltb, leb, length, codes, bit_and, get_or, min,
}
use mini_strace.Base.Bytes.{Bytes}
use mini_strace.Base.Int.{ℤ, is_positive, is_nonneg, to_ℕ}
use mini_strace.ChildMem.{hex_address, snprintf, read_child_raw, read_child_buffer, str_arg_buf_len}
use mini_strace.Decoders.Text.{append_text, decimal, signed_decimal, as_int}
use mini_strace.Decoders.Flags.{format_epoll_events_value, format_poll_events_value}
use mini_strace.Decoders.Structs.{field, of_struct}

-- `i ? ", " : ""`
abbrev pub comma_after : ℕ → Bytes
comma_after zero = []
comma_after (suc i) = codes ", "

-- The loop over structures of a size that lie one after another, from number `i`, of which `rounds` are
-- left; it ends at one that cannot be read.
unfoldable pub array_loop : (ℕ → Option ℕ) → ℕ → (Bytes → Bytes) → ℕ → ℕ → ℕ → ℕ → Bytes → Bytes
unfolding read_child_raw append_text
array_loop peek size entry addr out_size zero i out = out
array_loop peek size entry addr out_size (suc rounds) i out =
    let raw = read_child_raw peek ((addr + i * size) % 2 ^ 64) size in
    elim (ltb (length out) out_size && leb size (length raw)) [
      | false ↦ out
      | true ↦
          array_loop peek size entry addr out_size rounds (i + 1)
            (append_text out_size (comma_after i ++ entry raw) out)
    ]

-- The end of an array, of which a part may have been left out.
unfoldable pub close_array : ℕ → Bool → Bytes → Bytes
unfolding append_text
close_array out_size truncated out =
    append_text out_size (codes "]")
      (if truncated then append_text out_size (codes ", ...") out else out)

-- `EPOLL_EVENTS_MAX_ENTRIES`, `POLLFDS_MAX_ENTRIES`, `IOVEC_ARRAY_MAX`, `FDSET_MAX_ENTRIES` and
-- `GETDENTS_MAX_ENTRIES`
abbrev pub max_entries : ℕ
max_entries = 8

-- A packed structure: the events, then the data.
unfoldable pub format_one_epoll_event : Bytes → ℕ → Bytes
unfolding field format_epoll_events_value decimal
format_one_epoll_event raw out_size = snprintf out_size (
    codes "{events="
    ++ format_epoll_events_value (field 0 4 raw) 256
    ++ codes ", data={u32="
    ++ decimal (field 4 4 raw)
    ++ codes ", u64="
    ++ decimal (field 4 8 raw)
    ++ codes "}}")

unfoldable pub epoll_event_text : ℕ → Bytes → Bytes
unfolding format_one_epoll_event
epoll_event_text out_size raw = format_one_epoll_event raw out_size

unfoldable pub format_epoll_event : (ℕ → Option ℕ) → ℕ → ℕ → Bytes
unfolding of_struct epoll_event_text
format_epoll_event peek addr out_size = of_struct peek addr 12 out_size (epoll_event_text out_size)

unfoldable pub format_epoll_events_buf : (ℕ → Option ℕ) → ℕ → ℤ → ℕ → Bytes
unfolding array_loop close_array format_one_epoll_event hex_address
format_epoll_events_buf peek addr ret out_size =
    let count = min (to_ℕ ret) max_entries in
    let entry = λ (raw : Bytes). format_one_epoll_event raw 256 in
    if is_positive ret
    then snprintf out_size (
        close_array out_size (ltb max_entries (to_ℕ ret))
          (array_loop peek 12 entry addr out_size count 0 (codes "[")))
    else snprintf out_size (hex_address addr)

-- `struct pollfd`: an int and two shorts.
unfoldable pub pollfd_text : Bytes → Bytes
unfolding field as_int signed_decimal format_poll_events_value
pollfd_text raw =
    codes "{fd="
    ++ signed_decimal (as_int (field 0 4 raw))
    ++ codes ", events="
    ++ format_poll_events_value (field 4 2 raw) 128
    ++ codes ", revents="
    ++ format_poll_events_value (field 6 2 raw) 128
    ++ codes "}"

unfoldable pub format_pollfds_buf : (ℕ → Option ℕ) → ℕ → ℕ → ℕ → Bytes
unfolding array_loop close_array pollfd_text
format_pollfds_buf peek addr nfds out_size =
    if addr == 0
    then snprintf out_size (codes "NULL")
    else snprintf out_size (
        close_array out_size (ltb max_entries nfds)
          (array_loop peek 8 pollfd_text addr out_size (min nfds max_entries) 0 (codes "[")))

-- `bits[fd / 8] & (1 << (fd % 8))`
abbrev pub fd_bit : Bytes → ℕ → Bool
fd_bit bits fd = not (bit_and (get_or bits (fd / 8) 0) (2 ^ (fd % 8)) == 0)

-- The loop over the bits from number `fd`, of which `rounds` are left; `count` were shown.
unfoldable pub fdset_loop : Bytes → ℕ → ℕ → ℕ → ℕ → Bytes → Bytes
unfolding append_text decimal
fdset_loop bits out_size zero fd count out = out
fdset_loop bits out_size (suc rounds) fd count out = elim (fd_bit bits fd) [
  | false ↦ fdset_loop bits out_size rounds (fd + 1) count out
  | true ↦ elim (leb max_entries count) [
    | true ↦ append_text out_size (codes ", ...") out
    | false ↦
        fdset_loop bits out_size rounds (fd + 1) (count + 1)
          (append_text out_size (comma_after count ++ decimal fd) out)
  ]
]

-- `FDSET_MAX_BITS`
abbrev pub fdset_max_bits : ℕ
fdset_max_bits = 1024

unfoldable pub format_fdset_buf : (ℕ → Option ℕ) → ℕ → ℕ → ℕ → Bytes
unfolding read_child_raw fdset_loop append_text hex_address
format_fdset_buf peek addr nfds out_size =
    let nbits = min nfds fdset_max_bits in
    let nbytes = (nbits + 7) / 8 in
    let bits = read_child_raw peek addr nbytes in
    if addr == 0
    then snprintf out_size (codes "NULL")
    else if ltb (length bits) nbytes
    then snprintf out_size (hex_address addr)
    else snprintf out_size
        (append_text out_size (codes "]") (fdset_loop bits out_size nbits 0 0 (codes "[")))

-- How many bytes of one `struct iovec` are shown: all that it declares, or what is left of the total.
unfoldable pub show_len : ℤ → ℕ → ℕ → ℕ
show_len total_bytes remaining_bytes iov_len =
    if is_nonneg total_bytes then min iov_len remaining_bytes else iov_len

unfoldable pub iovec_text : ℕ → (ℕ → Option ℕ) → ℕ → Bytes → Bytes
unfolding field read_child_buffer decimal
iovec_text max_str_len peek shown raw =
    codes "{iov_base="
    ++ read_child_buffer max_str_len peek (field 0 8 raw) shown str_arg_buf_len
    ++ codes ", iov_len="
    ++ decimal (field 8 8 raw)
    ++ codes "}"

-- `remaining_bytes` is what is left of a total that is not negative.
unfoldable pub iovec_loop : ℕ → (ℕ → Option ℕ) → ℤ → ℕ → ℕ → ℕ → ℕ → ℕ → Bytes → Bytes
unfolding read_child_raw field show_len iovec_text append_text
iovec_loop max_str_len peek total_bytes addr out_size zero i remaining_bytes out = out
iovec_loop max_str_len peek total_bytes addr out_size (suc rounds) i remaining_bytes out =
    let raw = read_child_raw peek ((addr + i * 16) % 2 ^ 64) 16 in
    let shown = show_len total_bytes remaining_bytes (field 8 8 raw) in
    elim (ltb (length out) out_size && leb 16 (length raw)) [
      | false ↦ out
      | true ↦
          iovec_loop max_str_len peek total_bytes addr out_size rounds (i + 1)
            (remaining_bytes - shown)
            (append_text out_size (comma_after i ++ iovec_text max_str_len peek shown raw) out)
    ]

unfoldable pub format_iovec_array : ℕ → (ℕ → Option ℕ) → ℕ → ℕ → ℤ → ℕ → Bytes
unfolding iovec_loop close_array
format_iovec_array max_str_len peek addr iovcnt total_bytes out_size =
    let count = min iovcnt max_entries in
    let remaining = to_ℕ total_bytes in
    if addr == 0
    then snprintf out_size (codes "NULL")
    else snprintf out_size (
        close_array out_size (ltb max_entries iovcnt)
          (iovec_loop max_str_len peek total_bytes addr out_size count 0 remaining (codes "[")))

unfoldable pub format_iovec_buf : ℕ → (ℕ → Option ℕ) → ℕ → ℕ → ℤ → ℕ → Bytes
unfolding format_iovec_array
format_iovec_buf max_str_len peek addr iovcnt total_bytes out_size =
    format_iovec_array max_str_len peek addr iovcnt total_bytes out_size

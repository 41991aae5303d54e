-- ===== src/Decoders/Messages.antt =====
-- src/decoders.c: socket addresses, control messages and `struct msghdr`. `inet_ntop` is the C library's,
-- on the sixteen bytes of an address. Reads of control data past what was read from the process give
-- the bytes of `beyond`, by their index in the buffer of 512 bytes or behind it.
use mathlib.Core.Option
use mini_strace.Base.{
  ℕ, zero, suc, ◌+◌, ◌-◌, ◌*◌, ◌/◌, Bool, true, false, ◌&&◌, [], ◌∷◌, ◌++◌, Option, none, some,
  if◌then◌else◌, ◌==◌, ltb, leb, length, codes, take, drop, get_or, min,
}
use mini_strace.Base.Bytes.{Bytes}
use mini_strace.ChildMem.{hex_address, snprintf, read_child_raw, text_length}
use mini_strace.Decoders.Text.{append_text, write_text, decimal, signed_decimal, as_int}
use mini_strace.Decoders.Structs.{le_value, field}
use mini_strace.Decoders.Arrays.{comma_after}

abbrev pub byte : Bytes → ℕ → ℕ
byte raw i = get_or raw i 0

-- Two bytes, highest first.
abbrev pub port_text : Bytes → Bytes
port_text raw = decimal (byte raw 2 * 256 + byte raw 3)

-- `%.*s`: at most `n` bytes, up to a NUL.
unfoldable pub bounded_text : ℕ → Bytes → Bytes
unfolding text_length
bounded_text n s = let part = take n s in take (text_length part) part

unfoldable pub inet_text : Bytes → Bytes
unfolding decimal
inet_text raw =
    codes "{sa_family=AF_INET, sin_port=htons("
    ++ port_text raw
    ++ codes "), sin_addr=inet_addr(\""
    ++ decimal (byte raw 4)
    ++ codes "."
    ++ decimal (byte raw 5)
    ++ codes "."
    ++ decimal (byte raw 6)
    ++ codes "."
    ++ decimal (byte raw 7)
    ++ codes "\")}"

unfoldable pub inet6_text : (Bytes → Option Bytes) → Bytes → Bytes
unfolding decimal
inet6_text inet_ntop raw = elim (inet_ntop (take 16 (drop 8 raw))) [
  | some ipstr ↦
      codes "{sa_family=AF_INET6, sin6_port=htons("
      ++ port_text raw
      ++ codes "), sin6_addr=inet_pton(AF_INET6, \""
      ++ ipstr
      ++ codes "\")}"
  | none ↦ codes "{sa_family=AF_INET6, ...}"
]

-- A path that begins with a NUL is shown with an @ in its place.
unfoldable pub unix_text : Bytes → Bytes
unfolding bounded_text
unix_text raw =
    let path_len = length raw - 2 in
    if ltb 0 path_len && byte raw 2 == 0
    then codes "{sa_family=AF_UNIX, sun_path=\"@"
      ++ bounded_text (path_len - 1) (drop 3 raw)
      ++ codes "\"}"
    else codes "{sa_family=AF_UNIX, sun_path=\""
      ++ bounded_text path_len (drop 2 raw)
      ++ codes "\"}"

-- `want`: two bytes at least, 128 at most.
abbrev pub sockaddr_want : ℕ → ℕ
sockaddr_want addrlen = let want = min addrlen 128 in if ltb want 2 then 2 else want

unfoldable pub sockaddr_text : (Bytes → Option Bytes) → Bytes → Bytes
unfolding field inet_text inet6_text unix_text decimal
sockaddr_text inet_ntop raw =
    let family = field 0 2 raw in
    if family == 2 && leb 8 (length raw)
    then inet_text raw
    else if family == 10 && leb 24 (length raw)
    then inet6_text inet_ntop raw
    else if family == 1
    then unix_text raw
    else codes "{sa_family=" ++ decimal family ++ codes ", ...}"

unfoldable pub format_sockaddr : (Bytes → Option Bytes) → (ℕ → Option ℕ) → ℕ → ℕ → ℕ → Bytes
unfolding read_child_raw sockaddr_text hex_address
format_sockaddr inet_ntop peek addr addrlen out_size =
    let raw = read_child_raw peek addr (sockaddr_want addrlen) in
    if addr == 0
    then snprintf out_size (codes "NULL")
    else if ltb (length raw) 2
    then snprintf out_size (hex_address addr)
    else snprintf out_size (sockaddr_text inet_ntop raw)

-- `n` bytes of the control buffer from an index on.
unfoldable pub control_bytes : (ℕ → ℕ) → Bytes → ℕ → ℕ → Bytes
control_bytes beyond cbuf at zero = []
control_bytes beyond cbuf at (suc n) =
    get_or cbuf at (beyond at) ∷ control_bytes beyond cbuf (at + 1) n

-- The passed descriptors from number `i`, of which `rounds` are left.
unfoldable pub fds_loop : (ℕ → ℕ) → Bytes → ℕ → ℕ → ℕ → ℕ → Bytes → Bytes
unfolding control_bytes le_value as_int signed_decimal append_text
fds_loop beyond cbuf payload out_size zero i out = out
fds_loop beyond cbuf payload out_size (suc rounds) i out =
    let fd = le_value (control_bytes beyond cbuf (payload + i * 4) 4) in
    elim (ltb (length out) out_size) [
      | false ↦ out
      | true ↦
          fds_loop beyond cbuf payload out_size rounds (i + 1)
            (append_text out_size (comma_after i ++ signed_decimal (as_int fd)) out)
    ]

-- A number of the header at `at`, or of its data.
abbrev pub control_field : (ℕ → ℕ) → Bytes → ℕ → ℕ → ℕ
control_field beyond cbuf at width = le_value (control_bytes beyond cbuf at width)

-- `struct ucred`
unfoldable pub cred_text : (ℕ → ℕ) → Bytes → ℕ → Bytes
unfolding control_bytes le_value as_int signed_decimal decimal
cred_text beyond cbuf payload =
    codes ", cmsg_type=SCM_CREDENTIALS, cmsg_data={pid="
    ++ signed_decimal (as_int (control_field beyond cbuf payload 4))
    ++ codes ", uid="
    ++ decimal (control_field beyond cbuf (payload + 4) 4)
    ++ codes ", gid="
    ++ decimal (control_field beyond cbuf (payload + 8) 4)
    ++ codes "}}"

-- What stands behind the level of the message at `at`: its first writing comes right after a test of
-- the room. Each descriptor takes a byte of the text at least, so that
-- `out_size` rounds are enough for them.
unfoldable pub cmsg_rest : (ℕ → ℕ) → Bytes → ℕ → ℕ → Bytes → Bytes
unfolding control_bytes le_value fds_loop cred_text append_text decimal hex_address
cmsg_rest beyond cbuf at out_size out =
    let cmsg_len = control_field beyond cbuf at 8 in
    let level = control_field beyond cbuf (at + 8) 4 in
    let kind = control_field beyond cbuf (at + 12) 4 in
    let num_fds = (cmsg_len - 16) / 4 in
    if level == 1 && kind == 1
    then append_text out_size (codes "]}") (
        fds_loop beyond cbuf (at + 16) out_size (min num_fds out_size) 0
          (out ++ codes ", cmsg_type=SCM_RIGHTS, cmsg_data=["))
    else if (level == 1 && kind == 2) && leb 28 cmsg_len
    then out ++ cred_text beyond cbuf (at + 16)
    else out
      ++ codes ", cmsg_type="
      ++ hex_address kind
      ++ codes ", cmsg_len="
      ++ decimal cmsg_len
      ++ codes "}"

-- The loop over the messages; `none` where it writes past the buffer. The room is tested before the
-- name of the level and behind the level, not between the two. `cmsg_nxthdr` is the C library's
-- CMSG_NXTHDR on the control bytes and the index of a message, `none` behind the last one; it goes on by
-- a header of 16 bytes at least.
unfoldable pub cmsg_loop :
    (Bytes → ℕ → Option ℕ) → (ℕ → ℕ) → Bytes → ℕ → ℕ → Option ℕ → Bool → Bytes → Option Bytes
unfolding cmsg_rest append_text write_text control_bytes le_value hex_address
cmsg_loop cmsg_nxthdr beyond cbuf out_size zero at first out = some out
cmsg_loop cmsg_nxthdr beyond cbuf out_size (suc fuel) none first out = some out
cmsg_loop cmsg_nxthdr beyond cbuf out_size (suc fuel) (some at) first out =
    let level = control_field beyond cbuf (at + 8) 4 in
    let level_text = if level == 1 then codes "SOL_SOCKET" else hex_address level in
    let named = out ++ (if first then [] else codes ", ") ++ codes "{cmsg_level=" in
    elim (ltb (length out) out_size) [
      | false ↦ some out
      | true ↦ elim (write_text out_size level_text named) [
        | none ↦ none
        | some out' ↦ elim (ltb (length out') out_size) [
          | false ↦ some out'
          | true ↦
              cmsg_loop cmsg_nxthdr beyond cbuf out_size fuel (cmsg_nxthdr cbuf at) false
                (cmsg_rest beyond cbuf at out_size out')
        ]
      ]
    ]

-- `MSGHDR_MAX_CONTROL`
abbrev pub msghdr_max_control : ℕ
msghdr_max_control = 512

-- 512 bytes hold 32 headers of 16 bytes. CMSG_FIRSTHDR is the first one if it fits. `none` where the
-- loop writes past the buffer.
unfoldable pub format_cmsg :
    (Bytes → ℕ → Option ℕ) → (ℕ → ℕ) → (ℕ → Option ℕ) → ℕ → ℕ → ℕ → Option Bytes
unfolding read_child_raw cmsg_loop append_text
format_cmsg cmsg_nxthdr beyond peek addr controllen out_size =
    let cbuf = read_child_raw peek addr (min controllen msghdr_max_control) in
    let first = if leb 16 (length cbuf) then some 0 else none in
    if length cbuf == 0
    then some (snprintf out_size (codes "[]"))
    else Option.map (λ (out : Bytes). snprintf out_size (append_text out_size (codes "]") out))
        (cmsg_loop cmsg_nxthdr beyond cbuf out_size 33 first true (codes "["))

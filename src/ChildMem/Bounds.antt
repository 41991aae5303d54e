-- ===== src/ChildMem/Bounds.antt =====
-- Whatever a traced process has in its memory, what is shown of it fits its buffer, and is printable.
use mini_strace.Base.{
  if_keeps, ℕ, zero, suc, ◌+◌, ◌-◌, ◌*◌, ◌/◌, ◌%◌, ◌≤◌, ◌<◌, ◌^◌, Bool, true, ◌||◌, [], ◌∷◌, ◌++◌,
  Option, ◌≡◌, refl, arith, ◌==◌, ltb, min, length, take, codes, length-append, length-take,
  Bool-cases, Option-cases, inl, inr,
}
use mini_strace.Base.Bytes.{Bytes}
use mini_strace.ChildMem.{
  hex_digit, escape_byte, escape_loop, show_quoted, put, put_all, close_text, snprintf, hex_digits,
  hex_address, read_child_string, read_child_buffer, read_child_argv, argv_loop, string_words,
  raw_words, max_argv_items, str_arg_buf_len, read_cap, text_length,
}
use mini_strace.ChildMem.Escape.{are_bytes}
use mini_strace.ChildMem.Printable.{
  printable, is_printable, all_of-append, all_of-take, string_words-are_bytes, raw_words-are_bytes,
  Fits, escape_byte-Fits,
}

-- The same before the final NUL is written.
abbrev pub Held : ℕ → Bytes → Type 0
Held out_size text = (length text ≤ out_size) × (is_printable text ≡ true)

escape_loop-Held :
    (out_size : ℕ) (s out : Bytes)
    → are_bytes s ≡ true
    → Held out_size out
    → Held out_size (escape_loop out_size s out)
unfolding escape_loop
escape_loop-Held out_size [] out b f = f
escape_loop-Held out_size (c ∷ s) out b f = elim (Bool-cases (ltb (length out + 5) out_size)) [
  | inr full ↦ rw (full, escape_loop) f
  | inl room ↦
      let (few, good) = escape_byte-Fits c (ground arith) in
      let size = length-append out (escape_byte c) in
      rw (room, escape_loop)
        (escape_loop-Held out_size s (out ++ escape_byte c) (ground arith)
          (ground arith, all_of-append printable out (escape_byte c) f.1 good))
]

put-Held :
    (out_size c : ℕ) (out : Bytes)
    → printable c ≡ true
    → Held out_size out
    → Held out_size (put out_size c out)
put-Held out_size c out p h =
    ground (arith, length-append out (c ∷ []), all_of-append printable out (c ∷ []) h.1)

put_all-Held :
    (out_size : ℕ) (s out : Bytes)
    → is_printable s ≡ true
    → Held out_size out
    → Held out_size (put_all out_size s out)
put_all-Held out_size s out p h =
    ground (arith, length-append out s, all_of-append printable out s h.1)

close_text-Fits :
    (out_size : ℕ) (out : Bytes)
    → 0 < out_size
    → Held out_size out
    → Fits out_size (close_text out_size out)
close_text-Fits out_size out z (few, good) =
    ground
      (arith, length-take (length out - 1) out, all_of-take printable (length out - 1) out good)

snprintf-Fits :
    (out_size : ℕ) (text : Bytes)
    → 0 < out_size
    → is_printable text ≡ true
    → Fits out_size (snprintf out_size text)
snprintf-Fits out_size text z q =
    (omega (arith, length-take (out_size - 1) text), all_of-take printable (out_size - 1) text q)

show_quoted-Fits :
    (out_size : ℕ) (s : Bytes) (truncated : Bool)
    → 0 < out_size
    → are_bytes s ≡ true
    → Fits out_size (show_quoted out_size s truncated)
unfolding show_quoted
show_quoted-Fits out_size s truncated z b =
    let opened = put-Held out_size b'"' [] refl (omega arith, refl) in
    let body = escape_loop-Held out_size s (put out_size b'"' []) b opened in
    let closed = put-Held out_size b'"' _ refl body in
    let dotted = put_all-Held out_size (codes "...") _ refl closed in
    close_text-Fits out_size _ z (if_keeps (Held out_size) truncated _ _ dotted closed)

hex_digits-is_printable : (fuel n : ℕ) → is_printable (hex_digits fuel n) ≡ true
unfolding hex_digits hex_digit
hex_digits-is_printable zero n = refl
hex_digits-is_printable (suc fuel) n =
    let ih = hex_digits-is_printable fuel (n / 16) in
    elim (Bool-cases (n / 16 == 0)) [
      | inl low ↦ rw (low, hex_digits) (ground arith)
      | inr high ↦
          rw (high, hex_digits)
            (all_of-append printable (hex_digits fuel (n / 16)) (hex_digit (n % 16) ∷ []) ih
              (ground arith))
    ]

hex_address-is_printable : (addr : ℕ) → is_printable (hex_address addr) ≡ true
unfolding hex_address
hex_address-is_printable addr = ground (arith, hex_digits-is_printable 16 addr)

read_child_string-Fits :
    (max_str_len : ℕ) (peek : ℕ → Option ℕ) (addr out_size : ℕ)
    → 0 < out_size
    → Fits out_size (read_child_string max_str_len peek addr out_size)
unfolding read_child_string
read_child_string-Fits max_str_len peek addr out_size z =
    let raw = string_words str_arg_buf_len peek addr (read_cap max_str_len) [] in
    let shown =
      show_quoted-Fits out_size (take (min (text_length raw) max_str_len) raw)
        (text_length raw == length raw || ltb max_str_len (text_length raw)) z
        (all_of-take _ _ raw
          (string_words-are_bytes str_arg_buf_len peek addr (read_cap max_str_len))) in
    let null = snprintf-Fits out_size (codes "NULL") z refl in
    let address = snprintf-Fits out_size (hex_address addr) z (hex_address-is_printable addr) in
    if_keeps (Fits out_size) (addr == 0) _ _ null
      (if_keeps (Fits out_size) (length raw == 0) _ _ address shown)

read_child_buffer-Fits :
    (max_str_len : ℕ) (peek : ℕ → Option ℕ) (addr len out_size : ℕ)
    → 0 < out_size
    → Fits out_size (read_child_buffer max_str_len peek addr len out_size)
unfolding read_child_buffer
read_child_buffer-Fits max_str_len peek addr len out_size z =
    let want = min len (min max_str_len str_arg_buf_len) in
    let raw = raw_words want peek addr want [] in
    let shown =
      show_quoted-Fits out_size raw (ltb (length raw) len) z
        (raw_words-are_bytes want peek addr want) in
    let null = snprintf-Fits out_size (codes "NULL") z refl in
    let address = snprintf-Fits out_size (hex_address addr) z (hex_address-is_printable addr) in
    if_keeps (Fits out_size) (addr == 0) _ _ null
      (if_keeps (Fits out_size) (length raw == 0) _ _ address shown)

argv_loop-Held :
    (rounds max_str_len : ℕ) (peek : ℕ → Option ℕ) (addr out_size count : ℕ) (out : Bytes)
    → Held out_size out
    → Held out_size (argv_loop rounds max_str_len peek addr out_size count out).0
unfolding argv_loop
argv_loop-Held zero max_str_len peek addr out_size count out h = h
argv_loop-Held (suc rounds) max_str_len peek addr out_size count out h =
    elim (Option-cases (peek ((addr + count * 8) % 2 ^ 64))) [
      | inl e ↦ rw (e, argv_loop) h
      | inr (ptr, e) ↦ elim (Bool-cases (ptr == 0)) [
        | inl nul ↦ rw (e, nul, argv_loop) h
        | inr more ↦
            let item = read_child_string-Fits max_str_len peek ptr str_arg_buf_len (omega arith) in
            let sep =
              if_keeps (Held out_size) (ltb 0 count) _ _
                (put_all-Held out_size (codes ", ") out refl h) h in
            rw (e, more, argv_loop)
              (argv_loop-Held rounds max_str_len peek addr out_size (suc count) _
                (put_all-Held out_size _ _ item.1 sep))
      ]
    ]

read_child_argv-Fits :
    (max_str_len : ℕ) (peek : ℕ → Option ℕ) (addr out_size : ℕ)
    → 0 < out_size
    → Fits out_size (read_child_argv max_str_len peek addr out_size)
unfolding read_child_argv
read_child_argv-Fits max_str_len peek addr out_size z =
    let items =
      argv_loop-Held max_argv_items max_str_len peek addr out_size 0 _
        (put-Held out_size b'[' [] refl (omega arith, refl)) in
    let listed =
      if_keeps (Held out_size) _ _ _ (put_all-Held out_size (codes ", ...") _ refl items) items in
    if_keeps (Fits out_size) (addr == 0) _ _ (snprintf-Fits out_size (codes "NULL") z refl)
      (close_text-Fits out_size _ z (put-Held out_size b']' _ refl listed))

-- Whatever the traced process has at an address, and wherever it becomes unreadable, each of the three
-- readers writes a text that fits a buffer of any positive size with its final NUL, and that has
-- printable characters alone.
pub shown-Fits :
    (max_str_len : ℕ) (peek : ℕ → Option ℕ) (addr len out_size : ℕ)
    → 0 < out_size
    → Fits out_size (read_child_string max_str_len peek addr out_size)
      × Fits out_size (read_child_buffer max_str_len peek addr len out_size)
      × Fits out_size (read_child_argv max_str_len peek addr out_size)
shown-Fits max_str_len peek addr len out_size z = (
  read_child_string-Fits max_str_len peek addr out_size z,
  read_child_buffer-Fits max_str_len peek addr len out_size z,
  read_child_argv-Fits max_str_len peek addr out_size z,
)

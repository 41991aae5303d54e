-- ===== src/ChildMem/Buffers.antt =====
-- What `read_child_buffer` shows of a buffer in the memory of the traced process.
use mini_strace.Base.{
  ℕ, ◌+◌, ◌≤◌, ◌<◌, ◌^◌, ◌∷◌, ◌++◌, Option, ◌≡◌, ap, ◌∙◌, arith, ltb, min, length, inl, inr,
}
use mini_strace.ChildMem.{read_child_raw, read_child_buffer, str_arg_buf_len}
use mini_strace.ChildMem.Escape.{escape_all}
use mini_strace.ChildMem.Quoted.{show_quoted_fits, dots}
use mini_strace.ChildMem.Memory.{Shows, window, read_child_raw-window}
use mini_strace.ChildMem.Strings.{Readable, positive_not_zero}

read_child_raw-Readable :
    (peek : ℕ → Option ℕ) (mem : ℕ → ℕ) (addr want : ℕ)
    → Shows peek mem
    → addr + want ≤ 2 ^ 64
    → Readable peek addr want
    → (read_child_raw peek addr want ≡ window mem addr want)
      × (length (read_child_raw peek addr want) ≡ want)
read_child_raw-Readable peek mem addr want m room can =
    let (same, size, ended) = read_child_raw-window peek mem addr want m room in
    let all : length (read_child_raw peek addr want) ≡ want = elim ended [
      | inl e ↦ e
      | inr e ↦ absurd (can (length (read_child_raw peek addr want)) size e)
    ] in
    (same ∙ ap (window mem addr) all, all)

-- A buffer of a positive length in the memory that the words show, at an address other than NULL
-- that is 1024 below 2^64 at least, with a readable word at each byte that is shown and at the
-- next one, is shown up to its length, the `-s` size and 1024 bytes, whichever is least; it is
-- quoted, byte by byte in the escaped form, zero bytes included, and is followed by "..." exactly
-- if it is longer than what is shown. That needs a positive size, and an output buffer with room
-- for the escaped form and six bytes more.
pub read_child_buffer-window :
    (max_str_len : ℕ) (peek : ℕ → Option ℕ) (mem : ℕ → ℕ) (addr len out_size : ℕ)
    → 0 < max_str_len
    → 0 < len
    → 0 < addr
    → addr + str_arg_buf_len ≤ 2 ^ 64
    → Shows peek mem
    → Readable peek addr (min len (min max_str_len str_arg_buf_len))
    → length (escape_all (window mem addr (min len (min max_str_len str_arg_buf_len)))) + 6
      ≤ out_size
    → read_child_buffer max_str_len peek addr len out_size
      ≡ (b'"' ∷ escape_all (window mem addr (min len (min max_str_len str_arg_buf_len))))
        ++ b'"' ∷ dots (ltb (min len (min max_str_len str_arg_buf_len)) len)
unfolding read_child_buffer read_child_raw
read_child_buffer-window max_str_len peek mem addr len out_size z some there high m can fits =
    let want = min len (min max_str_len str_arg_buf_len) in
    let (same, size) = read_child_raw-Readable peek mem addr want m (omega arith) can in
    rw (positive_not_zero addr there, size, positive_not_zero want (omega arith), same)
      (show_quoted_fits out_size (window mem addr want) (ltb want len) fits)

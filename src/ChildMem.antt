-- ===== src/ChildMem.antt =====
-- src/child_mem.c: how the memory of a traced process is read and shown. `peek` is PTRACE_PEEKDATA on
-- the process: the word at an address, `none` where errno is set. An output buffer is the list of the
-- bytes before its final NUL, and `out_size` its size.
use mini_strace.Base.{
  ℕ, zero, suc, ◌+◌, ◌-◌, ◌*◌, ◌/◌, ◌%◌, ◌^◌, Bool, true, false, not, ◌&&◌, ◌||◌, List, [], ◌∷◌,
  ◌++◌, Option, none, some, if◌then◌else◌, ◌==◌, ltb, leb, min, length, take, codes, get_or,
}
use mini_strace.Base.Bytes.{Bytes}
pub mod Escape
pub mod Quoted
pub mod Loops
pub mod Printable
pub mod Bounds
pub mod Memory
mod Texts
pub mod Strings
pub mod Buffers

-- `STR_ARG_BUF_LEN`
abbrev pub str_arg_buf_len : ℕ
str_arg_buf_len = 1024

-- The first bytes of a word in memory, lowest first; a word has eight.
unfoldable pub le_bytes : ℕ → ℕ → Bytes
le_bytes zero w = []
le_bytes (suc n) w = w % 256 ∷ le_bytes n (w / 256)

unfoldable pub word_bytes : ℕ → Bytes
unfolding le_bytes
word_bytes w = le_bytes 8 w

unfoldable pub has_nul : Bytes → Bool
has_nul [] = false
has_nul (c ∷ s) = c == 0 || has_nul s

-- `read_cap`: `max_str_len` rounded up to whole words, no more than the buffer.
abbrev pub read_cap : ℕ → ℕ
read_cap max_str_len = min ((max_str_len + 7) / 8 * 8) str_arg_buf_len

-- The loop of `read_child_string` over the words, on what it has read; each round takes a word.
unfoldable pub string_words : ℕ → (ℕ → Option ℕ) → ℕ → ℕ → Bytes → Bytes
string_words zero peek addr cap raw = raw
string_words (suc fuel) peek addr cap raw = elim (leb (length raw + 8) cap) [
  | false ↦ raw
  | true ↦ elim (peek ((addr + length raw) % 2 ^ 64)) [
    | none ↦ raw
    | some word ↦ elim (has_nul (word_bytes word)) [
      | true ↦ raw ++ word_bytes word
      | false ↦ string_words fuel peek addr cap (raw ++ word_bytes word)
    ]
  ]
]

-- `while (len < got && raw[len] != '\0') len++;`
unfoldable pub text_length : Bytes → ℕ
text_length [] = 0
text_length (c ∷ s) = let rest = text_length s in if c == 0 then 0 else suc rest

-- A digit of `%x`.
unfoldable pub hex_digit : ℕ → ℕ
hex_digit d = if ltb d 10 then b'0' + d else b'a' + (d - 10)

-- How one byte is shown.
unfoldable pub escape_byte : ℕ → Bytes
unfolding hex_digit
escape_byte c =
    if c == b'"' || c == b'\\'
    then b'\\' ∷ c ∷ []
    else if c == b'\n'
    then b'\\' ∷ b'n' ∷ []
    else if leb 0x20 c && ltb c 0x7f
    then c ∷ []
    else b'\\' ∷ b'x' ∷ hex_digit (c / 16) ∷ hex_digit (c % 16) ∷ []

-- The loop that shows the bytes, after those in `out`: it ends where fewer than six bytes are left.
unfoldable pub escape_loop : ℕ → Bytes → Bytes → Bytes
unfolding escape_byte
escape_loop out_size [] out = out
escape_loop out_size (c ∷ s) out = elim (ltb (length out + 5) out_size) [
  | true ↦ escape_loop out_size s (out ++ escape_byte c)
  | false ↦ out
]

-- `if (oi < out_size) out[oi++] = c;`
abbrev pub put : ℕ → ℕ → Bytes → Bytes
put out_size c out = if ltb (length out) out_size then out ++ c ∷ [] else out

-- `if (oi + n < out_size)`, then the n bytes.
abbrev pub put_all : ℕ → Bytes → Bytes → Bytes
put_all out_size s out = if ltb (length out + length s) out_size then out ++ s else out

-- The final NUL: behind the bytes, or over the last of them where they fill the buffer. Bytes past the
-- end of the buffer, if any had been written, stay in the text.
abbrev pub close_text : ℕ → Bytes → Bytes
close_text out_size out = if ltb (length out) out_size then out else take (length out - 1) out

-- What one `snprintf` keeps of a text. Of writings behind each other, each of which begins in the
-- buffer, it is what they keep together.
abbrev pub snprintf : ℕ → Bytes → Bytes
snprintf out_size text = take (out_size - 1) text

-- The quoted text of both readers.
unfoldable pub show_quoted : ℕ → Bytes → Bool → Bytes
unfolding escape_loop
show_quoted out_size s truncated =
    let out = put out_size b'"' (escape_loop out_size s (put out_size b'"' [])) in
    close_text out_size (if truncated then put_all out_size (codes "...") out else out)

-- `%llx`, on the digits left.
unfoldable pub hex_digits : ℕ → ℕ → Bytes
hex_digits zero n = []
hex_digits (suc fuel) n =
    let rest = hex_digits fuel (n / 16) in
    (if n / 16 == 0 then [] else rest) ++ hex_digit (n % 16) ∷ []

-- `0x%llx` of a 64-bit address.
unfoldable pub hex_address : ℕ → Bytes
unfolding hex_digits
hex_address addr = codes "0x" ++ hex_digits 16 addr

-- `read_child_string`, with the global `max_str_len` as an argument.
unfoldable pub read_child_string : ℕ → (ℕ → Option ℕ) → ℕ → ℕ → Bytes
unfolding string_words text_length show_quoted hex_address
read_child_string max_str_len peek addr out_size =
    let raw = string_words str_arg_buf_len peek addr (read_cap max_str_len) [] in
    let len = text_length raw in
    if addr == 0
    then snprintf out_size (codes "NULL")
    else if length raw == 0
    then snprintf out_size (hex_address addr)
    else show_quoted out_size (take (min len max_str_len) raw)
        (len == length raw || ltb max_str_len len)

-- The loop of `read_child_buffer` and of `read_child_raw`, on what it has read; each round takes a byte
-- at least, and the last one may take a part of its word.
unfoldable pub raw_words : ℕ → (ℕ → Option ℕ) → ℕ → ℕ → Bytes → Bytes
unfolding word_bytes
raw_words zero peek addr want raw = raw
raw_words (suc fuel) peek addr want raw = elim (ltb (length raw) want) [
  | false ↦ raw
  | true ↦ elim (peek ((addr + length raw) % 2 ^ 64)) [
    | none ↦ raw
    | some word ↦
        raw_words fuel peek addr want (raw ++ take (min (want - length raw) 8) (word_bytes word))
  ]
]

unfoldable pub read_child_raw : (ℕ → Option ℕ) → ℕ → ℕ → Bytes
unfolding raw_words
read_child_raw peek addr want = raw_words want peek addr want []

unfoldable pub read_child_buffer : ℕ → (ℕ → Option ℕ) → ℕ → ℕ → ℕ → Bytes
unfolding raw_words show_quoted hex_address
read_child_buffer max_str_len peek addr len out_size =
    let want = min len (min max_str_len str_arg_buf_len) in
    let raw = raw_words want peek addr want [] in
    if addr == 0
    then snprintf out_size (codes "NULL")
    else if length raw == 0
    then snprintf out_size (hex_address addr)
    else show_quoted out_size raw (ltb (length raw) len)

-- `MAX_ARGV_ITEMS`
abbrev pub max_argv_items : ℕ
max_argv_items = 32

-- The loop of `read_child_argv`, on the rounds left, with `truncated`.
unfoldable pub argv_loop : ℕ → ℕ → (ℕ → Option ℕ) → ℕ → ℕ → ℕ → Bytes → Bytes × Bool
unfolding read_child_string
argv_loop zero max_str_len peek addr out_size count out = (out, false)
argv_loop (suc rounds) max_str_len peek addr out_size count out =
    elim (peek ((addr + count * 8) % 2 ^ 64)) [
      | none ↦ (out, false)
      | some ptr ↦ elim (ptr == 0) [
        | true ↦ (out, false)
        | false ↦
            let item = read_child_string max_str_len peek ptr str_arg_buf_len in
            let sep = if ltb 0 count then put_all out_size (codes ", ") out else out in
            let rest =
              argv_loop rounds max_str_len peek addr out_size (suc count)
                (put_all out_size item sep) in
            (rest.0, rest.1 || count == max_argv_items - 1)
      ]
    ]

unfoldable pub read_child_argv : ℕ → (ℕ → Option ℕ) → ℕ → ℕ → Bytes
unfolding argv_loop
read_child_argv max_str_len peek addr out_size =
    let (out, truncated) =
      argv_loop max_argv_items max_str_len peek addr out_size 0 (put out_size b'[' []) in
    let listed = if truncated then put_all out_size (codes ", ...") out else out in
    if addr == 0
    then snprintf out_size (codes "NULL")
    else close_text out_size (put out_size b']' listed)

-- ===== src/ChildMem/Strings.antt =====
-- What `read_child_string` shows of a string in the memory of the traced process.

use mini_strace.Base.{
  ℕ, zero, suc, ◌+◌, ◌-◌, ◌*◌, ◌%◌, ◌≤◌, ◌<◌, ◌^◌, true, false, ◌||◌, [], ◌∷◌, ◌++◌, Option, none,
  ◌≡◌, ◌≢◌, ◌⊎◌, refl, sym, ap, ◌∙◌, arith, ltb, leb, min, length, take, length-append, Bool-cases,
  Option-cases, inl, inr, ◌==◌, take-eq_of_le,
}
use mini_strace.Base.Bytes.{Bytes}
use mini_strace.ChildMem.{
  word_bytes, has_nul, string_words, read_child_string, text_length, read_cap, str_arg_buf_len,
}
use mini_strace.ChildMem.Escape.{escape_all}
use mini_strace.ChildMem.Quoted.{show_quoted_fits, dots}
use mini_strace.ChildMem.Loops.{string_words_ind}
use mini_strace.ChildMem.Memory.{
  Shows, window, length-word_bytes, take-window, word-window, window-append,
}
use mini_strace.ChildMem.Texts.{
  text_length-append, text_length-no_nul, has_nul-append, has_nul-take, take-take, take_short,
  take-min-length,
}

-- A string without a zero byte stands at an address, with its final NUL.
abbrev pub StringAt : (ℕ → ℕ) → ℕ → Bytes → Type 0
StringAt mem a s = (window mem a (length s) ≡ s) × (has_nul s ≡ false) × (mem (a + length s) ≡ 0)

-- The words up to a string's end can be read.
abbrev pub Readable : (ℕ → Option ℕ) → ℕ → ℕ → Type 0
Readable peek a n = (i : ℕ) → i ≤ n → peek (a + i) ≢ none

-- Why the loop ended.
abbrev Ended : (ℕ → Option ℕ) → ℕ → ℕ → Bytes → Type 0
Ended peek addr cap raw =
    (has_nul raw ≡ true) ⊎ ((cap < length raw + 8) ⊎ (peek ((addr + length raw) % 2 ^ 64) ≡ none))

string_words-Ended :
    (fuel : ℕ) (peek : ℕ → Option ℕ) (addr cap : ℕ) (raw : Bytes)
    → cap < length raw + fuel * 8 + 8
    → Ended peek addr cap (string_words fuel peek addr cap raw)
unfolding string_words
string_words-Ended zero peek addr cap raw h = inr (inl (omega arith))
string_words-Ended (suc fuel) peek addr cap raw h = elim (Bool-cases (leb (length raw + 8) cap)) [
  | inr full ↦ inr (inl (rw (full, string_words) (ground arith)))
  | inl room ↦ elim (Option-cases (peek ((addr + length raw) % 2 ^ 64))) [
    | inl e ↦ inr (inr (rw (room, e, string_words) e))
    | inr (word, e) ↦ elim (Bool-cases (has_nul (word_bytes word))) [
      | inl nul ↦
          inl
            (rw (room, e, nul, string_words) (ground (arith, has_nul-append raw (word_bytes word))))
      | inr more ↦
          rw (room, e, more, string_words)
            (string_words-Ended fuel peek addr cap (raw ++ word_bytes word)
              (omega (arith, length-append raw (word_bytes word), length-word_bytes word)))
    ]
  ]
]

-- The loop reads whole words of the memory.
abbrev WordsOf : (ℕ → ℕ) → ℕ → ℕ → Bytes → Type 0
WordsOf mem addr cap raw =
    (raw ≡ window mem addr (length raw)) × (length raw ≤ cap) × (length raw % 8 ≡ 0)

string_words-WordsOf :
    (fuel : ℕ) (peek : ℕ → Option ℕ) (mem : ℕ → ℕ) (addr cap : ℕ)
    → Shows peek mem
    → addr + cap ≤ 2 ^ 64
    → WordsOf mem addr cap (string_words fuel peek addr cap [])
string_words-WordsOf fuel peek mem addr cap m room =
    string_words_ind (WordsOf mem addr cap) fuel peek addr cap []
      (λ raw word less e (same, size, whole).
        let full = take-eq_of_le 8 (word_bytes word) (omega (arith, length-word_bytes word)) in
        let one_more : raw ++ word_bytes word ≡ window mem addr (length raw + 8) =
          ap (λ w. raw ++ w) (sym full)
          ∙ word-window peek mem addr raw word 8 m (omega arith) e (omega arith) same in
        let longer = length-append raw (word_bytes word) in
        let eight = length-word_bytes word in
        (
          one_more ∙ ap (window mem addr) (omega (arith, longer, eight)),
          omega (arith, longer, eight),
          omega (arith, longer, eight),
        ))
      (refl, omega arith, refl)

-- What was read of a string: its start, as far as the window goes, or all of it and its NUL.
data ReadPart (s raw : Bytes) (cap : ℕ) : Type 0 where
  start : raw ≡ take cap s → length raw ≡ cap → cap ≤ length s → ReadPart s raw cap
  whole :
      (t : Bytes) → raw ≡ s ++ 0 ∷ t → length s < length raw → length raw ≤ cap → ReadPart s raw cap

string_words-ReadPart :
    (fuel : ℕ) (peek : ℕ → Option ℕ) (mem : ℕ → ℕ) (addr cap : ℕ) (s : Bytes)
    → cap < fuel * 8 + 8
    → cap % 8 ≡ 0
    → addr + cap ≤ 2 ^ 64
    → Shows peek mem
    → StringAt mem addr s
    → Readable peek addr (length s)
    → ReadPart s (string_words fuel peek addr cap []) cap
string_words-ReadPart fuel peek mem addr cap s enough aligned room m (there, plain, nul) can =
    let raw = string_words fuel peek addr cap [] in
    let (same, size, words) = string_words-WordsOf fuel peek mem addr cap m room in
    elim (Bool-cases (ltb (length s) (length raw))) [
      | inl past ↦
          let rest = length raw - length s - 1 in
          let split : length raw ≡ length s + suc rest = ground arith in
          whole (window mem (addr + length s + 1) rest)
            (same
              ∙ ap (window mem addr) split
              ∙ sym (window-append mem addr (length s) (suc rest))
              ∙ rw (there, nul) refl)
            (ground arith) size
      | inr short ↦
          let part : raw ≡ take (length raw) s =
            same
            ∙ ap (window mem addr) (ground arith)
            ∙ sym (take-window mem (length raw) addr (length s))
            ∙ ap (take (length raw)) there in
          let all : length raw ≡ cap =
            elim (string_words-Ended fuel peek addr cap [] (omega arith)) [
              | inl ends ↦
                  let none_there : has_nul raw ≡ false =
                    rw part (has_nul-take (length raw) s plain) in
                  cc
              | inr (inl over) ↦ omega arith
              | inr (inr e) ↦ elim (Bool-cases (ltb (length raw) cap)) [
                | inr far ↦ ground arith
                | inl near ↦
                    let low : (addr + length raw) % 2 ^ 64 ≡ addr + length raw = ground arith in
                    absurd (can (length raw) (ground arith) (sym (ap peek low) ∙ e))
              ]
            ] in
          start (part ∙ ap (λ n. take n s) all) all (ground arith)
    ]

-- What is shown of what was read, and whether as cut off.
shown_part :
    (max_str_len cap : ℕ) (s raw : Bytes)
    → ReadPart s raw cap
    → has_nul s ≡ false
    → max_str_len ≤ cap
    → (take (min (text_length raw) max_str_len) raw ≡ take max_str_len s)
      × ((text_length raw == length raw || ltb max_str_len (text_length raw))
          ≡ (ltb max_str_len (length s) || leb cap (length s)))
shown_part max_str_len cap s raw (start e size far) plain h =
    let no_nul : has_nul raw ≡ false = rw e (has_nul-take cap s plain) in
    let len : text_length raw ≡ cap = text_length-no_nul raw no_nul ∙ size in
    (
      rw len (
          ap (take (min cap max_str_len)) e
          ∙ take-take (min cap max_str_len) cap s
          ∙ ap (λ n. take n s) (omega arith)),
      ground arith,
    )
shown_part max_str_len cap s raw (whole t e past size) plain h =
    let len : text_length raw ≡ length s = rw e (text_length-append s t plain) in
    (
      rw len (
          ap (take (min (length s) max_str_len)) e
          ∙ take_short (min (length s) max_str_len) s (0 ∷ t) (omega arith)
          ∙ take-min-length max_str_len s),
      ground arith,
    )

-- What is read of a string is not empty.
read_some : (cap : ℕ) (s raw : Bytes) → ReadPart s raw cap → 0 < cap → (length raw == 0) ≡ false
read_some cap s raw (start e size far) h = ground arith
read_some cap s raw (whole t e past size) h = ground arith

pub positive_not_zero : (a : ℕ) → 0 < a → (a == 0) ≡ false
positive_not_zero a h = ground arith

-- A string that stands in the memory that the words show, at an address other than NULL that is
-- 1024 below 2^64 at least, with a readable word at each of its bytes and at its NUL, is shown
-- whole if it is no longer than the `-s` size, and else up to that size; it is quoted, byte by
-- byte in the escaped form, and is followed by "..." exactly if it is longer than the size, or
-- fills the words that were read. That needs a size of 1 to 1024, as `main` gives, and an output
-- buffer with room for the escaped form and six bytes more.
pub read_child_string-StringAt :
    (max_str_len : ℕ) (peek : ℕ → Option ℕ) (mem : ℕ → ℕ) (addr out_size : ℕ) (s : Bytes)
    → 0 < max_str_len
    → max_str_len ≤ str_arg_buf_len
    → 0 < addr
    → addr + str_arg_buf_len ≤ 2 ^ 64
    → Shows peek mem
    → StringAt mem addr s
    → Readable peek addr (length s)
    → length (escape_all (take max_str_len s)) + 6 ≤ out_size
    → read_child_string max_str_len peek addr out_size
      ≡ (b'"' ∷ escape_all (take max_str_len s))
        ++ b'"' ∷ dots (ltb max_str_len (length s) || leb (read_cap max_str_len) (length s))
unfolding read_child_string
read_child_string-StringAt max_str_len peek mem addr out_size s z few there high m at can fits =
    let raw = string_words str_arg_buf_len peek addr (read_cap max_str_len) [] in
    let part : ReadPart s raw (read_cap max_str_len) =
      string_words-ReadPart str_arg_buf_len peek mem addr (read_cap max_str_len) s (omega arith)
        (omega arith) (omega arith) m at can in
    let (text, cut) = shown_part max_str_len (read_cap max_str_len) s raw part at.1 (omega arith) in
    let some_read = read_some (read_cap max_str_len) s raw part (omega arith) in
    rw (positive_not_zero addr there, some_read, text, cut)
      (show_quoted_fits out_size (take max_str_len s)
        (ltb max_str_len (length s) || leb (read_cap max_str_len) (length s)) fits)

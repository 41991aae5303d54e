-- ===== src/Tests/Memory.antt =====
-- src/child_mem.c: a small memory, with a string at the address 0x1000.
use mini_strace.Base.{
  ℕ, ◌+◌, ◌≤◌, [], ◌∷◌, Option, none, some, ◌≡◌, ◌⊎◌, refl, arith, if◌then◌else◌, ◌==◌, length,
  codes,
}
use mini_strace.ChildMem.{
  read_child_string, read_child_buffer, read_child_raw, read_child_argv, string_words, raw_words,
  read_cap, has_nul, escape_byte, hex_digit,
}
use mini_strace.ChildMem.Escape.{escape_all, unescape, plain, unescape-escape_all}
use mini_strace.ChildMem.Bounds.{shown-Fits}
use mini_strace.ChildMem.Printable.{words_in_buffer, Fits}
use mini_strace.ChildMem.Memory.{Shows, window, word_of, read_child_raw-window}
use mini_strace.ChildMem.Strings.{StringAt, Readable, read_child_string-StringAt}
use mini_strace.ChildMem.Buffers.{read_child_buffer-window}

-- "hi", a line feed, a zero byte.
abbrev greeting : ℕ → ℕ
greeting a =
    if a == 0x1000 then b'h' else if a == 0x1001 then b'i' else if a == 0x1002 then b'\n' else 0

abbrev words : ℕ → Option ℕ
words a = some (word_of (window greeting a 8))

some_eq : {a b : ℕ} → some a ≡ some b → b ≡ a
some_eq e = cc

words-Shows : Shows words greeting
words-Shows = (λ a. ground arith, λ a w e. some_eq e)

words-Readable : (a n : ℕ) → Readable words a n
words-Readable a n = λ i h e. cc

greeting-StringAt : StringAt greeting 0x1000 (codes "hi\n")
unfolding has_nul
greeting-StringAt = (refl, refl, refl)

abbrev no_words : ℕ → Option ℕ
no_words a = none

unreadable_string : read_child_string 200 no_words 0x1f 1024 ≡ codes "0x1f"
unfolding read_child_string string_words mini_strace.ChildMem.hex_address
unreadable_string = refl

unescape-escape_all_example :
    unescape plain (escape_all (b'a' ∷ b'"' ∷ 0xfe ∷ [])) ≡ some (b'a' ∷ b'"' ∷ 0xfe ∷ [])
unescape-escape_all_example = unescape-escape_all (b'a' ∷ b'"' ∷ 0xfe ∷ []) refl

words_in_buffer_example :
    (length (string_words 1024 words 0x1000 (read_cap 200) []) ≤ 1024)
    × (length (raw_words 1024 words 0x1000 200 []) ≤ 200)
words_in_buffer_example = words_in_buffer 1024 words 0x1000 200

shown-Fits_example :
    Fits 16 (read_child_string 200 words 0x1000 16)
    × Fits 16 (read_child_buffer 200 words 0x1000 5 16)
    × Fits 16 (read_child_argv 200 words 0x1000 16)
shown-Fits_example = shown-Fits 200 words 0x1000 5 16 (omega arith)

read_child_raw-window_example :
    (read_child_raw words 0x1000 3
      ≡ window greeting 0x1000 (length (read_child_raw words 0x1000 3)))
    × (length (read_child_raw words 0x1000 3) ≤ 3)
    × ((length (read_child_raw words 0x1000 3) ≡ 3)
        ⊎ (words (0x1000 + length (read_child_raw words 0x1000 3)) ≡ none))
read_child_raw-window_example =
    read_child_raw-window words greeting 0x1000 3 words-Shows (omega arith)

read_child_string-StringAt_example : read_child_string 200 words 0x1000 1024 ≡ codes "\"hi\\n\""
unfolding escape_byte
read_child_string-StringAt_example =
    read_child_string-StringAt 200 words greeting 0x1000 1024 (codes "hi\n") (omega arith)
      (omega arith) (omega arith) (omega arith) words-Shows greeting-StringAt
      (words-Readable 0x1000 3) (omega arith)

read_child_buffer-window_example : read_child_buffer 3 words 0x1000 5 1024 ≡ codes "\"hi\\n\"..."
unfolding escape_byte
read_child_buffer-window_example =
    read_child_buffer-window 3 words greeting 0x1000 5 1024 (omega arith) (omega arith)
      (omega arith) (omega arith) words-Shows (words-Readable 0x1000 3) (omega arith)

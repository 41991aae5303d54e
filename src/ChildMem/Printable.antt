-- ===== src/ChildMem/Printable.antt =====
-- What the loops read are bytes within their buffer, and what a byte is shown as is printable.
use mini_strace.Base.{
  ℕ, zero, suc, ◌-◌, ◌≤◌, ◌<◌, Bool, true, ◌&&◌, [], ◌∷◌, ◌++◌, Option, ◌≡◌, refl, arith, ltb, leb,
  min, length, take, length-append, length-take, all_of,
}
use mini_strace.Base.Bytes.{Bytes}
use mini_strace.ChildMem.{
  hex_digit, escape_byte, word_bytes, string_words, raw_words, str_arg_buf_len, le_bytes, read_cap,
}
use mini_strace.ChildMem.Escape.{are_bytes}
use mini_strace.ChildMem.Loops.{string_words_ind, raw_words_ind}

-- A byte that a terminal shows as it is.
abbrev pub printable : ℕ → Bool
printable c = leb 0x20 c && ltb c 0x7f

abbrev pub is_printable : Bytes → Bool
is_printable s = all_of printable s

pub all_of-append :
    (p : ℕ → Bool) (s t : Bytes) → all_of p s ≡ true → all_of p t ≡ true → all_of p (s ++ t) ≡ true
all_of-append p [] t h k = k
all_of-append p (c ∷ s) t h k = ground (arith, all_of-append p s t)

pub all_of-take :
    (p : ℕ → Bool) (n : ℕ) (s : Bytes) → all_of p s ≡ true → all_of p (take n s) ≡ true
all_of-take p zero s h = refl
all_of-take p (suc n) [] h = refl
all_of-take p (suc n) (c ∷ s) h = ground (arith, all_of-take p n s)

pub word_bytes-are_bytes : (w : ℕ) → are_bytes (word_bytes w) ≡ true
unfolding word_bytes le_bytes
word_bytes-are_bytes w = ground arith

pub string_words-are_bytes :
    (fuel : ℕ) (peek : ℕ → Option ℕ) (addr cap : ℕ)
    → are_bytes (string_words fuel peek addr cap []) ≡ true
string_words-are_bytes fuel peek addr cap =
    string_words_ind (λ raw. are_bytes raw ≡ true) fuel peek addr cap []
      (λ raw word room e h.
        all_of-append (λ c. ltb c 256) raw (word_bytes word) h (word_bytes-are_bytes word))
      refl

pub raw_words-are_bytes :
    (fuel : ℕ) (peek : ℕ → Option ℕ) (addr want : ℕ)
    → are_bytes (raw_words fuel peek addr want []) ≡ true
raw_words-are_bytes fuel peek addr want =
    raw_words_ind (λ raw. are_bytes raw ≡ true) fuel peek addr want []
      (λ raw word room e h.
        all_of-append (λ c. ltb c 256) raw _ h
          (all_of-take (λ c. ltb c 256) (min (want - length raw) 8) (word_bytes word)
            (word_bytes-are_bytes word)))
      refl

pub length-word_bytes : (w : ℕ) → length (word_bytes w) ≡ 8
unfolding word_bytes le_bytes
length-word_bytes w = refl

-- Neither loop writes outside `raw`: what the string loop reads, under any `-s` size, is no longer
-- than the 1024 bytes of `raw`, and what the other loop reads no longer than what was wanted.
pub words_in_buffer :
    (fuel : ℕ) (peek : ℕ → Option ℕ) (addr n : ℕ)
    → (length (string_words fuel peek addr (read_cap n) []) ≤ str_arg_buf_len)
      × (length (raw_words fuel peek addr n []) ≤ n)
words_in_buffer fuel peek addr n = (
  string_words_ind (λ raw. length raw ≤ str_arg_buf_len) fuel peek addr (read_cap n) []
      (λ raw word room e h.
        omega (arith, length-append raw (word_bytes word), length-word_bytes word))
      (omega arith),
  raw_words_ind (λ raw. length raw ≤ n) fuel peek addr n []
      (λ raw word room e h. omega (
        arith,
        length-append raw (take (min (n - length raw) 8) (word_bytes word)),
        length-take (min (n - length raw) 8) (word_bytes word),
      ))
      (omega arith),
)

-- A text that fits its buffer, with its final NUL, and is printable.
abbrev pub Fits : ℕ → Bytes → Type 0
Fits out_size text = (length text < out_size) × (is_printable text ≡ true)

pub escape_byte-Fits :
    (c : ℕ) → c < 256 → (length (escape_byte c) ≤ 4) × (is_printable (escape_byte c) ≡ true)
unfolding escape_byte hex_digit
escape_byte-Fits c h = ground arith

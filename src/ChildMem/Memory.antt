-- ===== src/ChildMem/Memory.antt =====
-- The readers against a memory: a map from addresses to bytes that the words of PTRACE_PEEKDATA show.

use mini_strace.Base.{
  ℕ, zero, suc, ◌+◌, ◌-◌, ◌*◌, ◌/◌, ◌%◌, ◌≤◌, ◌<◌, ◌^◌, [], ◌∷◌, ◌++◌, Option, none, some, ◌≡◌, ◌⊎◌,
  refl, sym, ap, ◌∙◌, arith, ltb, min, length, take, length-append, length-take, Bool-cases,
  Option-cases, inl, inr,
}
use mini_strace.Base.Bytes.{Bytes}
use mini_strace.ChildMem.{le_bytes, word_bytes, raw_words, read_child_raw}
use mini_strace.ChildMem.Loops.{raw_words_ind}

-- The bytes from an address on.
abbrev pub window : (ℕ → ℕ) → ℕ → ℕ → Bytes
window mem a zero = []
window mem a (suc n) = mem a ∷ window mem (a + 1) n

-- The number that some bytes are, lowest first.
abbrev pub word_of : Bytes → ℕ
word_of [] = 0
word_of (c ∷ s) = c + word_of s * 256

-- Every word that can be read shows the memory.
abbrev pub Shows : (ℕ → Option ℕ) → (ℕ → ℕ) → Type 0
Shows peek mem =
    ((a : ℕ) → mem a < 256) × ((a w : ℕ) → peek a ≡ some w → w ≡ word_of (window mem a 8))

pub length-window : (mem : ℕ → ℕ) (a n : ℕ) → length (window mem a n) ≡ n
length-window mem a zero = refl
length-window mem a (suc n) = ap suc (length-window mem (a + 1) n)

pub window-append :
    (mem : ℕ → ℕ) (a n m : ℕ) → window mem a n ++ window mem (a + n) m ≡ window mem a (n + m)
window-append mem a zero m = ground arith
window-append mem a (suc n) m =
    let there : a + suc n ≡ a + 1 + n = omega arith in
    let size : suc n + m ≡ suc (n + m) = omega arith in
    rw (there, size) (ap (◌∷◌ (mem a)) (window-append mem (a + 1) n m))

pub take-window : (mem : ℕ → ℕ) (n a m : ℕ) → take n (window mem a m) ≡ window mem a (min n m)
take-window mem zero a m = ground arith
take-window mem (suc n) a zero = ground arith
take-window mem (suc n) a (suc m) = ground (arith, take-window mem n (a + 1) m)

le_bytes-window :
    (mem : ℕ → ℕ) (n a : ℕ)
    → ((a : ℕ) → mem a < 256)
    → le_bytes n (word_of (window mem a n)) ≡ window mem a n
unfolding le_bytes
le_bytes-window mem zero a h = refl
le_bytes-window mem (suc n) a h =
    let w = word_of (window mem (a + 1) n) in
    let low : (mem a + w * 256) % 256 ≡ mem a = omega (arith, h a) in
    let high : (mem a + w * 256) / 256 ≡ w = omega (arith, h a) in
    rw (low, high) (ap (◌∷◌ (mem a)) (le_bytes-window mem n (a + 1) h))

pub length-word_bytes : (w : ℕ) → length (word_bytes w) ≡ 8
unfolding word_bytes le_bytes
length-word_bytes w = refl

-- A word of the memory is appended to what was read before it.
pub word-window :
    (peek : ℕ → Option ℕ) (mem : ℕ → ℕ) (addr : ℕ) (raw : Bytes) (word n : ℕ)
    → Shows peek mem
    → (addr + length raw) % 2 ^ 64 ≡ addr + length raw
    → peek ((addr + length raw) % 2 ^ 64) ≡ some word
    → n ≤ 8
    → raw ≡ window mem addr (length raw)
    → raw ++ take n (word_bytes word) ≡ window mem addr (length raw + n)
unfolding word_bytes
word-window peek mem addr raw word n (bytes, shows) low e h eq =
    let w = shows (addr + length raw) word (rw low at e) in
    let b : le_bytes 8 word ≡ window mem (addr + length raw) 8 =
      rw w (le_bytes-window mem 8 (addr + length raw) bytes) in
    let t : take n (le_bytes 8 word) ≡ window mem (addr + length raw) n = rw b (
      take-window mem n (addr + length raw) 8
      ∙ ap (window mem (addr + length raw)) (omega arith)) in
    rw t
      (ap (λ r. r ++ window mem (addr + length raw) n) eq ∙ window-append mem addr (length raw) n)

raw_words_stops :
    (fuel : ℕ) (peek : ℕ → Option ℕ) (addr want : ℕ) (raw : Bytes)
    → want ≤ length raw + fuel
    → (want ≤ length (raw_words fuel peek addr want raw))
      ⊎ (peek ((addr + length (raw_words fuel peek addr want raw)) % 2 ^ 64) ≡ none)
unfolding raw_words
raw_words_stops zero peek addr want raw h = inl (omega arith)
raw_words_stops (suc fuel) peek addr want raw h = elim (Bool-cases (ltb (length raw) want)) [
  | inr full ↦ inl (rw (full, raw_words) (ground arith))
  | inl room ↦ elim (Option-cases (peek ((addr + length raw) % 2 ^ 64))) [
    | inl e ↦ inr (rw (room, e, raw_words) e)
    | inr (word, e) ↦
        let n = min (want - length raw) 8 in
        let size = length-append raw (take n (word_bytes word)) in
        let part = length-take n (word_bytes word) in
        rw (room, e, raw_words)
          (raw_words_stops fuel peek addr want (raw ++ take n (word_bytes word))
            (ground (arith, length-word_bytes word)))
  ]
]

-- What the loop has read is the memory, and no more than was wanted.
abbrev ReadOf : (ℕ → ℕ) → ℕ → ℕ → Bytes → Type 0
ReadOf mem addr want raw = (raw ≡ window mem addr (length raw)) × (length raw ≤ want)

raw_words-ReadOf :
    (fuel : ℕ) (peek : ℕ → Option ℕ) (mem : ℕ → ℕ) (addr want : ℕ)
    → Shows peek mem
    → addr + want ≤ 2 ^ 64
    → ReadOf mem addr want (raw_words fuel peek addr want [])
raw_words-ReadOf fuel peek mem addr want m room =
    raw_words_ind (ReadOf mem addr want) fuel peek addr want []
      (λ raw word less e (same, size).
        let n = min (want - length raw) 8 in
        let one_more = word-window peek mem addr raw word n m (omega arith) e (omega arith) same in
        let longer : length (raw ++ take n (word_bytes word)) ≡ length raw + n =
          rw one_more (length-window mem addr (length raw + n)) in
        (one_more ∙ ap (window mem addr) (sym longer), omega (arith, longer)))
      (refl, omega arith)

-- Where the words that can be read show a memory, and the bytes wanted lie below 2^64,
-- `read_child_raw` returns the memory from the address on, no more than was wanted, and it ends
-- only where that much is read or the next word cannot be read.
pub read_child_raw-window :
    (peek : ℕ → Option ℕ) (mem : ℕ → ℕ) (addr want : ℕ)
    → Shows peek mem
    → addr + want ≤ 2 ^ 64
    → (read_child_raw peek addr want ≡ window mem addr (length (read_child_raw peek addr want)))
      × (length (read_child_raw peek addr want) ≤ want)
      × ((length (read_child_raw peek addr want) ≡ want)
          ⊎ (peek (addr + length (read_child_raw peek addr want)) ≡ none))
unfolding read_child_raw
read_child_raw-window peek mem addr want m room =
    let (same, size) = raw_words-ReadOf want peek mem addr want m room in
    (
      same,
      size,
      elim (raw_words_stops want peek addr want [] (omega arith)) [
        | inl all ↦ inl (omega arith)
        | inr e ↦ elim (Bool-cases (ltb (length (raw_words want peek addr want [])) want)) [
          | inr all ↦ inl (ground arith)
          | inl less ↦ inr (ground arith)
        ]
      ],
    )

-- ===== src/ChildMem/Loops.antt =====
-- The loops that read words: what every round keeps holds of what they read.
use mini_strace.Base.{
  ℕ, zero, suc, ◌+◌, ◌-◌, ◌≤◌, ◌<◌, ◌%◌, ◌^◌, ◌++◌, Option, some, ◌≡◌, arith, ltb, leb, min, length,
  take, Bool-cases, Option-cases, inl, inr,
}
use mini_strace.Base.Bytes.{Bytes}
use mini_strace.ChildMem.{word_bytes, has_nul, string_words, raw_words}

pub string_words_ind :
    (P : Bytes → Type 0) (fuel : ℕ) (peek : ℕ → Option ℕ) (addr cap : ℕ) (raw : Bytes)
    → ((raw : Bytes) (word : ℕ)
        → length raw + 8 ≤ cap
        → peek ((addr + length raw) % 2 ^ 64) ≡ some word
        → P raw
        → P (raw ++ word_bytes word))
    → P raw
    → P (string_words fuel peek addr cap raw)
unfolding string_words
string_words_ind P zero peek addr cap raw keep h = h
string_words_ind P (suc fuel) peek addr cap raw keep h =
    elim (Bool-cases (leb (length raw + 8) cap)) [
      | inr full ↦ rw (full, string_words) h
      | inl room ↦ elim (Option-cases (peek ((addr + length raw) % 2 ^ 64))) [
        | inl e ↦ rw (room, e, string_words) h
        | inr (word, e) ↦
            let k = keep raw word (ground arith) e h in
            elim (Bool-cases (has_nul (word_bytes word))) [
              | inl nul ↦ rw (room, e, nul, string_words) k
              | inr more ↦
                  rw (room, e, more, string_words)
                    (string_words_ind P fuel peek addr cap (raw ++ word_bytes word) keep k)
            ]
      ]
    ]

pub raw_words_ind :
    (P : Bytes → Type 0) (fuel : ℕ) (peek : ℕ → Option ℕ) (addr want : ℕ) (raw : Bytes)
    → ((raw : Bytes) (word : ℕ)
        → length raw < want
        → peek ((addr + length raw) % 2 ^ 64) ≡ some word
        → P raw
        → P (raw ++ take (min (want - length raw) 8) (word_bytes word)))
    → P raw
    → P (raw_words fuel peek addr want raw)
unfolding raw_words
raw_words_ind P zero peek addr want raw keep h = h
raw_words_ind P (suc fuel) peek addr want raw keep h = elim (Bool-cases (ltb (length raw) want)) [
  | inr full ↦ rw (full, raw_words) h
  | inl room ↦ elim (Option-cases (peek ((addr + length raw) % 2 ^ 64))) [
    | inl e ↦ rw (room, e, raw_words) h
    | inr (word, e) ↦
        rw (room, e, raw_words)
          (raw_words_ind P fuel peek addr want _ keep (keep raw word (ground arith) e h))
  ]
]

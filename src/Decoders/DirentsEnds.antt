-- ===== src/Decoders/DirentsEnds.antt =====
-- How the loop over directory entries in `format_getdents_buf` of src/decoders.c ends.
use mini_strace.Base.{
  ℕ, zero, suc, ◌+◌, ◌-◌, ◌*◌, ◌≤◌, ◌<◌, true, ◌≡◌, ◌⊎◌, inl, inr, refl, arith, length, drop, leb,
  ltb, get_or, [], ◌∷◌, Bool-cases,
}
use mini_strace.Base.Bytes.{Bytes}
use mini_strace.Decoders.Structs.{field, le_value}
use mini_strace.Decoders.Arrays.{max_entries}
use mini_strace.Decoders.Dirents.{DirentsEnd, header_size, d_reclen, bad_entry, dirents_loop}

length-drop : (n : ℕ) (s : Bytes) → length (drop n s) ≡ length s - n
length-drop zero s = omega arith
length-drop (suc n) [] = omega arith
length-drop (suc n) (c ∷ s) = omega (arith, length-drop n s)

-- The 16-bit number in the bytes 16 and 17, where the length of an entry stands.
abbrev pub entry_length : Bytes → ℕ
entry_length buf = get_or buf 16 0 + 256 * get_or buf 17 0

field-two :
    (n : ℕ) (buf : Bytes)
    → n + 2 ≤ length buf
    → field n 2 buf ≡ get_or buf n 0 + 256 * get_or buf (suc n) 0
unfolding field le_value
field-two n [] h = absurd (omega arith)
field-two zero (c ∷ []) h = absurd (omega arith)
field-two zero (c ∷ d ∷ buf) h = omega arith
field-two (suc n) (c ∷ buf) h = field-two n buf (omega arith)

-- The loop has ended since too few bytes are left for the header of an entry; or else, with `more` set,
-- since the entry that the rest begins with gives a length below that of a header, or reaches past the
-- end, or would be the ninth.
abbrev pub HasEnded : DirentsEnd → Type 0
HasEnded e =
    ((length e.rest < 19)
      ⊎ ((19 ≤ length e.rest)
          × (e.more ≡ true)
          × ((entry_length e.rest < 19) ⊎ (length e.rest < entry_length e.rest) ⊎ (e.count ≡ 8))))
    × (e.count ≤ 8)

bad_entry-cases :
    (buf : Bytes) (count : ℕ)
    → 19 ≤ length buf
    → count ≤ max_entries
    → bad_entry buf count ≡ true
    → (entry_length buf < 19) ⊎ (length buf < entry_length buf) ⊎ (count ≡ 8)
bad_entry-cases buf count long k h =
    let len = field-two 16 buf (omega arith) in
    elim (Bool-cases (ltb (d_reclen buf) header_size)) [
      | inl small ↦ inl (ground (arith, len))
      | inr large ↦ elim (Bool-cases (ltb (length buf) (d_reclen buf))) [
        | inl past ↦ inr (inl (ground (arith, len)))
        | inr inside ↦ inr (inr (ground arith))
      ]
    ]

-- With as many rounds as there are bytes, the loop over the entries of a directory never ends for want of
-- a round, whatever the bytes are. Either fewer than 19 bytes are left, which is too short for the header
-- of an entry; or the loop says that there is more, and what is left begins with an entry whose length,
-- in its bytes 16 and 17, is below 19 or above the number of bytes left, or eight entries have been
-- shown. At most eight entries were shown, if not more were before.
pub dirents_loop-HasEnded :
    (out_size fuel : ℕ) (buf : Bytes) (count : ℕ) (out : Bytes)
    → length buf ≤ fuel
    → count ≤ max_entries
    → HasEnded (dirents_loop out_size fuel buf count out)
unfolding dirents_loop
dirents_loop-HasEnded out_size zero buf count out h k = (inl (omega arith), k)
dirents_loop-HasEnded out_size (suc fuel) buf count out h k =
    elim (Bool-cases (leb header_size (length buf))) [
      | inr short ↦ rw (short, dirents_loop) (inl (ground arith), k)
      | inl long ↦
          let long_enough : 19 ≤ length buf = ground arith in
          elim (Bool-cases (bad_entry buf count)) [
            | inl bad ↦
                rw (long, bad, dirents_loop)
                  (inr (long_enough, refl, bad_entry-cases buf count long_enough k bad), k)
            | inr good ↦
                let reclen : header_size ≤ d_reclen buf = ground arith in
                let few : count + 1 ≤ max_entries = ground arith in
                let size = length-drop (d_reclen buf) buf in
                rw (long, good, dirents_loop)
                  (dirents_loop-HasEnded out_size fuel (drop (d_reclen buf) buf) (count + 1) _
                    (omega (arith, size, reclen)) few)
          ]
    ]

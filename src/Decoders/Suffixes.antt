-- ===== src/Decoders/Suffixes.antt =====
-- A named value with flags behind it, as for the type of a socket, and the reader.
use mathlib.Core.List.{append_assoc, append-nil}
use mini_strace.Base.{
  ℕ, ◌+◌, ◌^◌, ◌≤◌, ◌<◌, String, Bool, true, not, [], ◌∷◌, ◌++◌, some, ◌≡◌, refl, sym, ap, ◌∙◌,
  arith, if◌then◌else◌, ◌==◌, ltb, length, codes, all_of, length-append, Bool-cases, inl, inr,
  subst, bit_and, Option-cases, ◌⊎◌,
}
use mini_strace.Base.Bytes.{Bytes}
use mini_strace.ChildMem.{snprintf}
use mini_strace.Decoders.Walk.{FlagEntry, FlagTable, enum_text, name_of_value}
use mini_strace.Decoders.Text.{append_text}
use mini_strace.Decoders.Mixed.{append_flag}
use mini_strace.Decoders.Parts.{total}
use mini_strace.Decoders.Joined.{more, texts, budget}
use mini_strace.Decoders.Reading.{
  no_bar, split_bars-more, read_part, read_parts, read_flags, good_row, good_table, read_part-row,
  read_part-number,
}
use mini_strace.Decoders.ReadBack.{
  names_no_bar, read_parts-texts, no_bar-hex_address, length-hex_address, snprintf-fits,
}

-- The flags of a list that a value has, and their texts behind a first one.
abbrev pub set_rows : ℕ → FlagTable → FlagTable
set_rows value [] = []
set_rows value (e ∷ rows) =
    if not (bit_and value e.value == 0) then e ∷ set_rows value rows else set_rows value rows

unfoldable pub suffixes : ℕ → ℕ → FlagTable → Bytes → Bytes
suffixes out_size value [] out = out
suffixes out_size value (e ∷ rows) out =
    suffixes out_size value rows (append_flag out_size value e.value e.name out)

suffixes-more :
    (out_size value : ℕ) (rows : FlagTable) (out : Bytes)
    → length out + budget rows < out_size
    → suffixes out_size value rows out ≡ out ++ more (texts (set_rows value rows))
unfolding suffixes append_flag append_text
suffixes-more out_size value [] out h = sym (append-nil out)
suffixes-more out_size value (e ∷ rows) out h = elim (Bool-cases (bit_and value e.value == 0)) [
  | inl off ↦ rw (off, append_flag) (suffixes-more out_size value rows out (omega arith))
  | inr on ↦
      let room : ltb (length out) out_size ≡ true = ground arith in
      let size = length-append out (b'|' ∷ codes e.name) in
      rw (on, append_flag, append_text, room)
        (suffixes-more out_size value rows (out ++ b'|' ∷ codes e.name) (omega (arith, size))
          ∙ append_assoc out (b'|' ∷ codes e.name) (more (texts (set_rows value rows))))
]

set_rows-all_of :
    (p : FlagEntry → Bool) (value : ℕ) (rows : FlagTable)
    → all_of p rows ≡ true
    → all_of p (set_rows value rows) ≡ true
set_rows-all_of p value [] h = refl
set_rows-all_of p value (e ∷ rows) h = ground (arith, set_rows-all_of p value rows)

length-set_rows :
    (value : ℕ) (rows : FlagTable) → length (more (texts (set_rows value rows))) ≤ budget rows
length-set_rows value [] = omega arith
length-set_rows value (e ∷ rows) = ground (
  arith,
  length-set_rows value rows,
  length-append (codes e.name) (more (texts (set_rows value rows))),
)

-- A row of a single bit.
abbrev pub IsSingle : FlagEntry → Type 0
IsSingle e = (a : ℕ) → (bit_and a e.value ≡ 0) ⊎ (bit_and a e.value ≡ e.value)

pub total-set_row :
    (value : ℕ) (e : FlagEntry) (rows : FlagTable)
    → IsSingle e
    → total (set_rows value (e ∷ rows)) ≡ bit_and value e.value + total (set_rows value rows)
total-set_row value e rows s = elim (s value) [
  | inl off ↦ rw off (omega arith)
  | inr on ↦ elim (Bool-cases (bit_and value e.value == 0)) [
    | inl z ↦ rw z (ground arith)
    | inr nz ↦ rw nz (omega arith)
  ]
]

-- The first text.
name-read_part :
    (known rows : FlagTable) (value : ℕ) (name : String)
    → all_of (good_row known) rows ≡ true
    → name_of_value rows value ≡ some name
    → (read_part known (codes name) ≡ some value)
      × ((no_bar (codes name) ≡ true) × (length (codes name) ≤ budget rows))
unfolding name_of_value
name-read_part known [] value name h e = absurd (ground arith)
name-read_part known (r ∷ rows) value name h e = elim (Bool-cases (r.value == value)) [
  | inl same ↦
      let v : r.value ≡ value = ground arith in
      let n : r.name ≡ name = ground arith in
      subst
        (λ n.
          (read_part known (codes n) ≡ some value)
          × ((no_bar (codes n) ≡ true) × (length (codes n) ≤ budget (r ∷ rows))))
        n (read_part-row known r (ground arith) ∙ ap some v, (ground arith, omega arith))
  | inr differ ↦
      let (read, (plain, short)) =
        name-read_part known rows value name (ground arith) (ground arith) in
      (read, (plain, omega (arith, short)))
]

enum-read_part :
    (known rows : FlagTable) (value : ℕ)
    → good_table known ≡ true
    → all_of (good_row known) rows ≡ true
    → value < 2 ^ 64
    → (read_part known (enum_text rows value) ≡ some value)
      × ((no_bar (enum_text rows value) ≡ true)
          × (length (enum_text rows value) ≤ budget rows + 18))
unfolding enum_text
enum-read_part known rows value g h k = elim (Option-cases (name_of_value rows value)) [
  | inl unknown ↦
      rw (unknown, enum_text)
        (
          read_part-number known value g k,
          (no_bar-hex_address value, omega (arith, length-hex_address value)),
        )
  | inr (name, found) ↦
      let (read, (plain, short)) = name-read_part known rows value name h found in
      rw (found, enum_text) (read, (plain, omega (arith, short)))
]

-- The reader adds the flags up.
pub suffixes-read :
    (known rows flags : FlagTable) (base value out_size : ℕ)
    → good_table known ≡ true
    → all_of (good_row known) rows ≡ true
    → all_of (good_row known) flags ≡ true
    → base < 2 ^ 64
    → budget rows + budget flags + 20 ≤ out_size
    → read_flags known (snprintf out_size (suffixes out_size value flags (enum_text rows base)))
      ≡ some (base + total (set_rows value flags))
unfolding read_flags read_parts
suffixes-read known rows flags base value out_size g h f k room =
    let (read, (plain, short)) = enum-read_part known rows base g h k in
    let here = set_rows value flags in
    let good = set_rows-all_of (good_row known) value flags f in
    let text = suffixes-more out_size value flags (enum_text rows base) (omega (arith, short)) in
    let size = length-append (enum_text rows base) (more (texts here)) in
    let fits =
      snprintf-fits out_size (enum_text rows base ++ more (texts here))
        (omega (arith, size, short, length-set_rows value flags)) in
    let bars = names_no_bar known here 0 good in
    let bars' : all_of no_bar (texts here) ≡ true =
      subst (λ ss. all_of no_bar ss ≡ true) (append-nil (texts here)) bars in
    let fields = split_bars-more (enum_text rows base) (texts here) plain bars' in
    let rest = read_parts-texts known here 0 g good (omega arith) in
    let rest' : read_parts known (texts here) ≡ some (total here + 0) =
      subst (λ ss. read_parts known ss ≡ some (total here + 0)) (append-nil (texts here)) rest in
    ap (λ s. read_flags known (snprintf out_size s)) text
    ∙ ap (read_flags known) fits
    ∙ rw (fields, read_parts, read, rest') (ap some (omega arith))

-- ===== src/Decoders/Words.antt =====
-- The texts of walks and of lookups in the buffer, and the reader of them.
use mini_strace.Base.{
  ℕ, ◌+◌, ◌^◌, ◌≤◌, ◌<◌, String, Bool, true, false, [], ◌∷◌, ◌++◌, some, ◌≡◌, sym, ap, ◌∙◌, arith,
  ◌==◌, length, codes, all_of, Bool-cases, Option-cases, inl, inr, subst,
}
use mini_strace.ChildMem.{hex_address, snprintf}
use mini_strace.Decoders.Walk.{
  FlagTable, row, flags_text, bare_flags_text, enum_text, name_of_value,
}
use mini_strace.Decoders.Parts.{parts, parts-total, parts-all_of}
use mini_strace.Decoders.Joined.{
  joined, texts, rest_text, budget, has_name, length-joined-texts, flags_text-joined,
  bare_flags_text-joined,
}
use mini_strace.Decoders.Reading.{read_flags, good_row, good_table, all_of-weaken}
use mini_strace.Decoders.ReadBack.{
  read_flags-joined, read_flags-name, read_flags-number, length-joined, length-hex_address,
  snprintf-fits,
}

abbrev names_of_rows : FlagTable → FlagTable → Bool
names_of_rows table rows = all_of (good_row table) rows

pub rows-has_name :
    (table rows : FlagTable) → all_of (good_row table) rows ≡ true → all_of has_name rows ≡ true
rows-has_name table rows h = all_of-weaken (good_row table) has_name (λ e g. ground arith) rows h

pub length-parts :
    (skip_zero : Bool) (table : FlagTable) (value out_size : ℕ)
    → budget table + 20 ≤ out_size
    → length (
        joined (texts (parts skip_zero table value).0 ++ rest_text (parts skip_zero table value).1))
      < out_size
length-parts skip_zero table value out_size h = omega (
  arith,
  length-joined (parts skip_zero table value).0 (parts skip_zero table value).1,
  length-joined-texts skip_zero table value,
)

-- What a walk found, read by a larger table.
read_flags-parts :
    (known table : FlagTable) (skip_zero : Bool) (value : ℕ)
    → good_table known ≡ true
    → all_of (good_row known) table ≡ true
    → 0 < value
    → value < 2 ^ 64
    → read_flags known (
        joined (texts (parts skip_zero table value).0 ++ rest_text (parts skip_zero table value).1))
      ≡ some value
read_flags-parts known table skip_zero value g h z k =
    let sum = parts-total skip_zero table value in
    read_flags-joined known (parts skip_zero table value).0 (parts skip_zero table value).1 g
      (parts-all_of (good_row known) skip_zero table value h) (omega (arith, sum))
      (omega (arith, sum))
    ∙ ap some sum

-- With the room for all names and a number, a flag word is read back from its text, also by a table that
-- has more names.
pub flags_text-read_known :
    (known : FlagTable) (zero_name : String) (table : FlagTable) (value out_size : ℕ)
    → good_table known ≡ true
    → all_of (good_row known) (row 0 zero_name ∷ table) ≡ true
    → budget (row 0 zero_name ∷ table) + 20 ≤ out_size
    → value < 2 ^ 64
    → read_flags known (snprintf out_size (flags_text zero_name table value out_size)) ≡ some value
unfolding flags_text
flags_text-read_known known zero_name table value out_size g h room k =
    elim (Bool-cases (value == 0)) [
      | inl z ↦
          let zero_value : value ≡ 0 = ground arith in
          let fits = snprintf-fits out_size (codes zero_name) (omega arith) in
          rw (z, fits)
            (read_flags-name known (row 0 zero_name) g (ground arith) ∙ ap some (sym zero_value))
      | inr nz ↦
          let rows : all_of (good_row known) table ≡ true = ground arith in
          let text =
            flags_text-joined zero_name table value out_size (ground arith) (omega arith)
              (rows-has_name known table rows) in
          let fits =
            snprintf-fits out_size _ (length-parts false table value out_size (omega arith)) in
          ap (λ s. read_flags known (snprintf out_size s)) text
          ∙ ap (read_flags known) fits
          ∙ read_flags-parts known table false value g rows (ground arith) k
    ]

pub flags_text-read :
    (zero_name : String) (table : FlagTable) (value out_size : ℕ)
    → good_table (row 0 zero_name ∷ table) ≡ true
    → budget (row 0 zero_name ∷ table) + 20 ≤ out_size
    → value < 2 ^ 64
    → read_flags
        (row 0 zero_name ∷ table)
        (snprintf out_size (flags_text zero_name table value out_size))
      ≡ some value
flags_text-read zero_name table value out_size g room k =
    flags_text-read_known (row 0 zero_name ∷ table) zero_name table value out_size g g room k

pub bare_flags_text-read :
    (table : FlagTable) (value out_size : ℕ)
    → good_table table ≡ true
    → budget table + 20 ≤ out_size
    → value < 2 ^ 64
    → read_flags table (snprintf out_size (bare_flags_text table value out_size)) ≡ some value
bare_flags_text-read table value out_size g room k =
    let text =
      bare_flags_text-joined table value out_size (omega arith) (rows-has_name table table g) in
    subst (λ s. read_flags table (snprintf out_size s) ≡ some value) (sym text)
      (elim (Bool-cases (value == 0)) [
        | inl z ↦
            let zero_value : value ≡ 0 = ground arith in
            let fits =
              snprintf-fits out_size (hex_address 0) (omega (arith, length-hex_address 0)) in
            rw (z, fits) (read_flags-number table 0 g (omega arith) ∙ ap some (sym zero_value))
        | inr nz ↦
            let fits = snprintf-fits out_size _ (length-parts true table value out_size room) in
            rw (nz, fits) (read_flags-parts table table true value g g (ground arith) k)
      ])

name_of_value-row :
    (known rows : FlagTable) (value out_size : ℕ) (name : String)
    → good_table known ≡ true
    → all_of (good_row known) rows ≡ true
    → budget rows ≤ out_size
    → name_of_value rows value ≡ some name
    → read_flags known (snprintf out_size (codes name)) ≡ some value
unfolding name_of_value
name_of_value-row known [] value out_size name g h room e = absurd (ground arith)
name_of_value-row known (r ∷ rows) value out_size name g h room e =
    elim (Bool-cases (r.value == value)) [
      | inl same ↦
          let v : r.value ≡ value = ground arith in
          let n : r.name ≡ name = ground arith in
          let fits = snprintf-fits out_size (codes r.name) (omega arith) in
          subst (λ n. read_flags known (snprintf out_size (codes n)) ≡ some value) n
            (rw fits (read_flags-name known r g (ground arith) ∙ ap some v))
      | inr differ ↦
          name_of_value-row known rows value out_size name g (ground arith) (omega arith)
            (ground arith)
    ]

pub enum_text-read :
    (table : FlagTable) (value out_size : ℕ)
    → good_table table ≡ true
    → budget table + 20 ≤ out_size
    → value < 2 ^ 64
    → read_flags table (snprintf out_size (enum_text table value)) ≡ some value
unfolding enum_text
enum_text-read table value out_size g room k = elim (Option-cases (name_of_value table value)) [
  | inl unknown ↦
      let fits =
        snprintf-fits out_size (hex_address value) (omega (arith, length-hex_address value)) in
      rw (unknown, enum_text, fits) (read_flags-number table value g k)
  | inr (name, found) ↦
      rw (found, enum_text)
        (name_of_value-row table table value out_size name g g (omega arith) found)
]

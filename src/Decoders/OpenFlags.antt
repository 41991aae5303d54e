-- ===== src/Decoders/OpenFlags.antt =====
-- `format_open_flags` of src/decoders.c: which flag words its text stands for.
use mini_strace.Base.{
  ℕ, ◌+◌, ◌-◌, ◌/◌, ◌%◌, ◌^◌, ◌≤◌, ◌<◌, true, ◌∷◌, some, ◌≡◌, refl, ap, ◌∙◌, arith, if◌then◌else◌,
  ◌==◌, bit_and, all_of, Bool-cases, inl, inr, codes, length,
}
use mini_strace.Base.Bytes.{bytes_eq}
use mini_strace.Base.Bits.{bit_and-halves, bit_and-zero}
use mini_strace.ChildMem.{snprintf, str_arg_buf_len}
use mini_strace.Decoders.Tables.Files.{open_flag_table}
use mini_strace.Decoders.Walk.{FlagEntry, FlagTable, row, clear_bits, walk, append_rest}
use mini_strace.Decoders.Mixed.{accmode_name, format_open_flags}
use mini_strace.Decoders.Reading.{read_flags, value_of_name, good_row}
use mini_strace.Decoders.Headed.{headed-read}

abbrev pub open_names : FlagTable
open_names = row 0 "O_RDONLY" ∷ row 1 "O_WRONLY" ∷ row 2 "O_RDWR" ∷ open_flag_table

-- The low two bits.
accmode : (value : ℕ) → bit_and value 3 ≡ value % 4
accmode value =
    omega
      (arith, bit_and-halves value 3, bit_and-halves (value / 2) 1, bit_and-zero (value / 2 / 2))

-- The row of the access mode that is written.
abbrev mode_row : ℕ → FlagEntry
mode_row value =
    if value % 4 == 1
    then row 1 "O_WRONLY"
    else if value % 4 == 2
    then row 2 "O_RDWR"
    else row 0 "O_RDONLY"

accmode_name-row : (value : ℕ) → accmode_name value ≡ (mode_row value).name
unfolding accmode_name
accmode_name-row value = rw (accmode value) (ground arith)

mode_row-good : (value : ℕ) → all_of (good_row open_names) (mode_row value ∷ open_flag_table) ≡ true
unfolding value_of_name bytes_eq
mode_row-good value = elim (Bool-cases (value % 4 == 1)) [
  | inl w ↦ rw w refl
  | inr not_w ↦ elim (Bool-cases (value % 4 == 2)) [
    | inl rw_mode ↦ rw (not_w, rw_mode) refl
    | inr r ↦ rw (not_w, r) refl
  ]
]

mode_row-short : (value : ℕ) → length (codes (mode_row value).name) ≤ 8
mode_row-short value = elim (Bool-cases (value % 4 == 1)) [
  | inl w ↦ rw w (omega arith)
  | inr not_w ↦ elim (Bool-cases (value % 4 == 2)) [
    | inl both ↦ rw (not_w, both) (omega arith)
    | inr r ↦ rw (not_w, r) (omega arith)
  ]
]

mode_row-value : (value : ℕ) → (mode_row value).value ≡ (if value % 4 == 3 then 0 else value % 4)
mode_row-value value = elim (Bool-cases (value % 4 == 1)) [
  | inl w ↦ let one : value % 4 ≡ 1 = ground arith in rw one refl
  | inr not_w ↦ elim (Bool-cases (value % 4 == 2)) [
    | inl both ↦ let two : value % 4 ≡ 2 = ground arith in rw two refl
    | inr r ↦ rw (not_w, r) (ground arith)
  ]
]

lost :
    (value mode : ℕ)
    → mode ≡ (if value % 4 == 3 then 0 else value % 4)
    → mode + (value - value % 4) ≡ (if value % 4 == 3 then value - 3 else value)
lost value mode h = elim (Bool-cases (value % 4 == 3)) [
  | inl three ↦ let e : value % 4 ≡ 3 = ground arith in rw three (ground arith)
  | inr other ↦ let e : mode ≡ value % 4 = rw other at h in rw other (omega (arith, e))
]

-- The text of 64 bits of flags of open, in the buffer of 1024 bytes, is read back as the flags, but for those
-- whose access mode is 3: these read as flags of access mode 0.
pub read_flags-format_open_flags :
    (value : ℕ)
    → value < 2 ^ 64
    → read_flags open_names (format_open_flags value str_arg_buf_len)
      ≡ some (if value % 4 == 3 then value - 3 else value)
unfolding format_open_flags value_of_name bytes_eq
read_flags-format_open_flags value k =
    let mode = accmode value in
    ap
      (λ name. read_flags open_names (
        snprintf str_arg_buf_len (
          append_rest str_arg_buf_len
            (walk true str_arg_buf_len open_flag_table (clear_bits value 3) (codes name)))))
      (accmode_name-row value)
    ∙ headed-read open_names (mode_row value) open_flag_table true (clear_bits value 3)
        str_arg_buf_len refl (mode_row-good value) (omega (arith, mode_row-short value))
        (omega arith)
    ∙ ap some (
        ap (λ m. (mode_row value).value + (value - m)) mode
        ∙ lost value (mode_row value).value (mode_row-value value))

-- ===== src/Decoders/ReadBack.antt =====
-- The reader on names and a number that are joined by bars.
use mathlib.Core.List.{append-nil}
use mini_strace.Base.{
  ℕ, zero, suc, ◌+◌, ◌-◌, ◌/◌, ◌%◌, ◌^◌, ◌≤◌, ◌<◌, Bool, true, false, not, [], ◌∷◌, ◌++◌, some, ◌≡◌,
  refl, ap, ◌∙◌, arith, ◌==◌, length, codes, all_of, Bool-cases, inl, inr, subst, take-eq_of_le,
  length-append,
}
use mini_strace.Base.Bytes.{Bytes}
use mini_strace.ChildMem.{hex_address, hex_digits, hex_digit, snprintf}
use mini_strace.Decoders.Walk.{FlagEntry, FlagTable}
use mini_strace.Decoders.Parts.{total}
use mini_strace.Decoders.Joined.{more, more-append, joined_le_more, joined, texts, rest_text}
use mini_strace.Decoders.Reading.{
  no_bar, all_no_bar, split_bars, split_bars-more, read_parts, read_flags, good_row, good_table,
  read_part-row, read_part-number,
}

hex_digit-no_bar : (d : ℕ) → d < 16 → (hex_digit d == b'|') ≡ false
unfolding hex_digit
hex_digit-no_bar d h = ground arith

all_of-append :
    (p : ℕ → Bool) (s t : Bytes) → all_of p s ≡ true → all_of p t ≡ true → all_of p (s ++ t) ≡ true
all_of-append p [] t h k = k
all_of-append p (c ∷ s) t h k = ground (arith, all_of-append p s t)

no_bar-hex_digits : (fuel n : ℕ) → no_bar (hex_digits fuel n) ≡ true
unfolding hex_digits
no_bar-hex_digits zero n = refl
no_bar-hex_digits (suc fuel) n =
    let plain = hex_digit-no_bar (n % 16) (omega arith) in
    elim (Bool-cases (n / 16 == 0)) [
      | inl z ↦ rw (z, hex_digits, plain) refl
      | inr nz ↦
          rw (nz, hex_digits)
            (all_of-append (λ c. not (c == b'|')) (hex_digits fuel (n / 16))
              (hex_digit (n % 16) ∷ []) (no_bar-hex_digits fuel (n / 16)) (rw plain refl))
    ]

pub no_bar-hex_address : (n : ℕ) → no_bar (hex_address n) ≡ true
unfolding hex_address
no_bar-hex_address n = no_bar-hex_digits 16 n

-- Names and at most one number.
pub names_no_bar :
    (table rows : FlagTable) (left : ℕ)
    → all_of (good_row table) rows ≡ true
    → all_no_bar (texts rows ++ rest_text left) ≡ true
names_no_bar table [] left h = elim (Bool-cases (left == 0)) [
  | inl z ↦ rw z refl
  | inr nz ↦ rw (nz, no_bar-hex_address left) refl
]
names_no_bar table (e ∷ rows) left h = ground (arith, names_no_bar table rows left)

pub read_parts-texts :
    (table rows : FlagTable) (left : ℕ)
    → good_table table ≡ true
    → all_of (good_row table) rows ≡ true
    → left < 2 ^ 64
    → read_parts table (texts rows ++ rest_text left) ≡ some (total rows + left)
unfolding read_parts
read_parts-texts table [] left g h k = elim (Bool-cases (left == 0)) [
  | inl z ↦ let zero_left : left ≡ 0 = ground arith in rw z (ap some (omega (arith, zero_left)))
  | inr nz ↦ rw (nz, read_parts, read_part-number table left g k) (ap some (omega arith))
]
read_parts-texts table (e ∷ rows) left g h k =
    let first = read_part-row table e (ground arith) in
    let ih = read_parts-texts table rows left g (ground arith) k in
    rw (first, ih, read_parts) (ap some (omega arith))

pub read_flags-rows :
    (table : FlagTable) (e : FlagEntry) (rows : FlagTable) (left : ℕ)
    → good_table table ≡ true
    → all_of (good_row table) (e ∷ rows) ≡ true
    → left < 2 ^ 64
    → read_flags table (joined (texts (e ∷ rows) ++ rest_text left))
      ≡ some (total (e ∷ rows) + left)
unfolding read_flags
read_flags-rows table e rows left g h k =
    let rest = names_no_bar table rows left (ground arith) in
    let fields =
      split_bars-more (codes e.name) (texts rows ++ rest_text left) (ground arith) rest in
    rw fields (read_parts-texts table (e ∷ rows) left g h k)

pub read_flags-number :
    (table : FlagTable) (n : ℕ)
    → good_table table ≡ true
    → n < 2 ^ 64
    → read_flags table (hex_address n) ≡ some n
unfolding read_flags
read_flags-number table n g k =
    let fields = split_bars-more (hex_address n) [] (no_bar-hex_address n) refl in
    let whole : split_bars (hex_address n) ≡ (hex_address n, []) =
      subst (λ s. split_bars s ≡ (hex_address n, [])) (append-nil (hex_address n)) fields in
    rw (whole, read_parts, read_part-number table n g k) (ap some (omega arith))

-- The texts, of which there is at least one, are read as the sum of their values.
pub read_flags-joined :
    (table rows : FlagTable) (left : ℕ)
    → good_table table ≡ true
    → all_of (good_row table) rows ≡ true
    → left < 2 ^ 64
    → 0 < total rows + left
    → read_flags table (joined (texts rows ++ rest_text left)) ≡ some (total rows + left)
read_flags-joined table [] left g h k pos =
    let nz : (left == 0) ≡ false = ground arith in
    rw (nz, append-nil (hex_address left), read_flags-number table left g k) (ap some (omega arith))
read_flags-joined table (e ∷ rows) left g h k pos = read_flags-rows table e rows left g h k

pub read_flags-name :
    (table : FlagTable) (e : FlagEntry)
    → good_table table ≡ true
    → good_row table e ≡ true
    → read_flags table (codes e.name) ≡ some e.value
read_flags-name table e g h =
    let read = read_flags-rows table e [] 0 g (ground arith) (omega arith) in
    subst (λ s. read_flags table s ≡ some e.value) (append-nil (codes e.name))
      (read ∙ ap some (omega arith))

length-hex_digits : (fuel n : ℕ) → length (hex_digits fuel n) ≤ fuel
unfolding hex_digits
length-hex_digits zero n = omega arith
length-hex_digits (suc fuel) n =
    let ih = length-hex_digits fuel (n / 16) in
    elim (Bool-cases (n / 16 == 0)) [
      | inl z ↦ rw (z, hex_digits) (omega arith)
      | inr nz ↦
          rw (nz, hex_digits)
            (omega (arith, ih, length-append (hex_digits fuel (n / 16)) (hex_digit (n % 16) ∷ [])))
    ]

pub length-hex_address : (n : ℕ) → length (hex_address n) ≤ 18
unfolding hex_address
length-hex_address n = omega (arith, length-hex_digits 16 n)

length-rest : (left : ℕ) → length (more (rest_text left)) ≤ 19
length-rest left = elim (Bool-cases (left == 0)) [
  | inl z ↦ rw z (omega arith)
  | inr nz ↦ rw (nz, append-nil (hex_address left)) (omega (arith, length-hex_address left))
]

pub length-joined :
    (rows : FlagTable) (left : ℕ)
    → length (joined (texts rows ++ rest_text left)) ≤ length (joined (texts rows)) + 19
length-joined [] left = omega (arith, length-rest left, joined_le_more (rest_text left))
length-joined (e ∷ rows) left = rw (more-append (texts rows) (rest_text left)) (
    omega (
      arith,
      length-rest left,
      length-append (codes e.name) (more (texts rows)),
      length-append (codes e.name) (more (texts rows) ++ more (rest_text left)),
      length-append (more (texts rows)) (more (rest_text left)),
    ))

-- A text that the buffer has room for, it holds.
pub snprintf-fits : (out_size : ℕ) (s : Bytes) → length s < out_size → snprintf out_size s ≡ s
snprintf-fits out_size s h = take-eq_of_le (out_size - 1) s (omega arith)

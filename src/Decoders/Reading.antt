-- ===== src/Decoders/Reading.antt =====
-- An independent reader of the texts of flag words: names of a table and hexadecimal numbers, joined by
-- bars, that are added up.

use mini_strace.Base.{
  ℕ, zero, suc, ◌+◌, ◌*◌, ◌/◌, ◌%◌, ◌^◌, ◌<◌, Bool, true, false, not, ◌&&◌, List, [], ◌∷◌, ◌++◌,
  Option, none, some, ◌≡◌, refl, ap, ◌∙◌, arith, if◌then◌else◌, ◌==◌, ltb, length, codes, all_of,
  Bool-cases, Option-cases, inl, inr, subst,
}
use mini_strace.Base.Bytes.{Bytes, bytes_eq, bytes_eq_iff}
use mini_strace.ChildMem.{hex_address, hex_digits, hex_digit}
use mini_strace.ChildMem.Escape.{digit_value, digit_value-hex_digit}
use mini_strace.Decoders.Walk.{FlagEntry, FlagTable}
use mini_strace.Decoders.Joined.{more}

-- The first text up to a bar, and those behind the bars.
unfoldable pub split_bars : Bytes → Bytes × List Bytes
split_bars [] = ([], [])
split_bars (c ∷ s) =
    let rest = split_bars s in if c == b'|' then ([], rest.0 ∷ rest.1) else (c ∷ rest.0, rest.1)

unfoldable pub hex_value : ℕ → Bytes → ℕ
hex_value n [] = n
hex_value n (c ∷ s) = hex_value (n * 16 + digit_value c) s

abbrev pub after_0x : Bytes → Option Bytes
after_0x (c ∷ d ∷ s) = if c == b'0' && d == b'x' then some s else none
after_0x _ = none

unfoldable pub value_of_name : FlagTable → Bytes → Option ℕ
value_of_name [] s = none
value_of_name (e ∷ table) s =
    if bytes_eq (codes e.name) s then some e.value else value_of_name table s

-- One text: a name, or else a number.
unfoldable pub read_part : FlagTable → Bytes → Option ℕ
unfolding value_of_name hex_value
read_part table s = elim (value_of_name table s) [
  | some v ↦ some v
  | none ↦ elim (after_0x s) [ none ↦ none | some digits ↦ some (hex_value 0 digits) ]
]

abbrev pub add_option : Option ℕ → Option ℕ → Option ℕ
add_option none n = none
add_option (some m) none = none
add_option (some m) (some n) = some (m + n)

unfoldable pub read_parts : FlagTable → List Bytes → Option ℕ
unfolding read_part
read_parts table [] = some 0
read_parts table (s ∷ ss) = add_option (read_part table s) (read_parts table ss)

unfoldable pub read_flags : FlagTable → Bytes → Option ℕ
unfolding split_bars read_parts
read_flags table s = let fields = split_bars s in read_parts table (fields.0 ∷ fields.1)

abbrev pub no_bar : Bytes → Bool
no_bar s = all_of (λ c. not (c == b'|')) s

abbrev pub all_no_bar : List Bytes → Bool
all_no_bar ss = all_of no_bar ss

pub split_bars-more :
    (s : Bytes) (ss : List Bytes)
    → no_bar s ≡ true
    → all_no_bar ss ≡ true
    → split_bars (s ++ more ss) ≡ (s, ss)
unfolding split_bars
split_bars-more [] [] h k = refl
split_bars-more [] (t ∷ ss) h k =
    ap (λ (r : Bytes × List Bytes). ([], r.0 ∷ r.1))
      (split_bars-more t ss (ground arith) (ground arith))
split_bars-more (c ∷ s) ss h k =
    let plain : (c == b'|') ≡ false = ground arith in
    let ih = split_bars-more s ss (ground arith) k in rw (plain, ih) refl

hex_value-append :
    (n : ℕ) (s : Bytes) (c : ℕ) → hex_value n (s ++ c ∷ []) ≡ hex_value n s * 16 + digit_value c
unfolding hex_value
hex_value-append n [] c = refl
hex_value-append n (d ∷ s) c = hex_value-append (n * 16 + digit_value d) s c

one_digit : (n : ℕ) → (n / 16 == 0) ≡ true → n % 16 ≡ n
one_digit n z = let small : n / 16 ≡ 0 = ground arith in omega arith

pub hex_value-hex_digits : (fuel n : ℕ) → n < 16 ^ fuel → hex_value 0 (hex_digits fuel n) ≡ n
unfolding hex_value hex_digits
hex_value-hex_digits zero n h = omega arith
hex_value-hex_digits (suc fuel) n h =
    let low = digit_value-hex_digit (n % 16) (omega arith) in
    elim (Bool-cases (n / 16 == 0)) [
      | inl z ↦ rw (z, hex_digits) (omega (arith, low, one_digit n z))
      | inr nz ↦
          let ih = hex_value-hex_digits fuel (n / 16) (omega arith) in
          rw (nz, hex_digits)
            (hex_value-append 0 (hex_digits fuel (n / 16)) (hex_digit (n % 16))
              ∙ omega (arith, low, ih))
    ]

-- What a row of a table needs so that its name is read back as its value.
abbrev pub reads_as : Option ℕ → ℕ → Bool
reads_as none v = false
reads_as (some w) v = w == v

abbrev pub is_number : Option Bytes → Bool
is_number none = false
is_number (some s) = true

abbrev pub good_row : FlagTable → FlagEntry → Bool
good_row table e =
    ltb 0 (length (codes e.name))
    && (no_bar (codes e.name)
        && (not (is_number (after_0x (codes e.name)))
            && reads_as (value_of_name table (codes e.name)) e.value))

abbrev pub good_table : FlagTable → Bool
good_table table = all_of (good_row table) table

row_value : (v w : ℕ) → (v == w) ≡ true → v ≡ w
row_value v w h = ground arith

good-reads_as :
    (table : FlagTable) (e : FlagEntry)
    → good_row table e ≡ true
    → reads_as (value_of_name table (codes e.name)) e.value ≡ true
good-reads_as table e h = ground arith

pub read_part-row :
    (table : FlagTable) (e : FlagEntry)
    → good_row table e ≡ true
    → read_part table (codes e.name) ≡ some e.value
unfolding read_part
read_part-row table e h = elim (Option-cases (value_of_name table (codes e.name))) [
  | inl missing ↦
      let never : false ≡ true =
        subst (λ o. reads_as o e.value ≡ true) missing (good-reads_as table e h) in
      absurd (ground arith)
  | inr (v, found) ↦
      let same : v ≡ e.value =
        row_value v e.value
          (subst (λ o. reads_as o e.value ≡ true) found (good-reads_as table e h)) in
      rw (found, read_part) (ap some same)
]

value_of_name-number :
    (table : FlagTable) (s : Bytes)
    → all_of (λ e. not (is_number (after_0x (codes e.name)))) table ≡ true
    → is_number (after_0x s) ≡ true
    → value_of_name table s ≡ none
unfolding value_of_name
value_of_name-number [] s h k = refl
value_of_name-number (e ∷ table) s h k = elim (Bool-cases (bytes_eq (codes e.name) s)) [
  | inl same ↦
      let e' = (bytes_eq_iff (codes e.name) s).0 same in
      let both : is_number (after_0x (codes e.name)) ≡ true = rw e' k in absurd (ground arith)
  | inr differ ↦ rw differ (value_of_name-number table s (ground arith) k)
]

pub all_of-weaken :
    (p q : FlagEntry → Bool)
    → ((e : FlagEntry) → p e ≡ true → q e ≡ true)
    → (rows : FlagTable) → all_of p rows ≡ true
    → all_of q rows ≡ true
all_of-weaken p q f [] h = refl
all_of-weaken p q f (e ∷ rows) h = ground (arith, f e, all_of-weaken p q f rows)

pub read_part-number :
    (table : FlagTable) (n : ℕ)
    → good_table table ≡ true
    → n < 2 ^ 64
    → read_part table (hex_address n) ≡ some n
unfolding read_part hex_address
read_part-number table n h k =
    let plain =
      all_of-weaken (good_row table) (λ e. not (is_number (after_0x (codes e.name))))
        (λ e g. ground arith) table h in
    rw (value_of_name-number table (hex_address n) plain refl, read_part)
      (ap some (hex_value-hex_digits 16 n (omega arith)))

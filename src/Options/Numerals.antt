-- ===== src/Options/Numerals.antt =====
-- `main` of src/mini_strace.c: which texts `strtol` reads to their end as a number above 0.
use mini_strace.Base.{
  if◌then◌else◌, ℕ, zero, suc, ◌+◌, ◌-◌, ◌*◌, ◌^◌, Bool, true, false, not, ◌&&◌, ◌||◌, [], ◌∷◌,
  ◌++◌, ◌≡◌, refl, ◌↔◌, ◌⊎◌, inl, inr, arith, ◌==◌, ltb, leb, min, all_of, Bool-cases, ap, ◌∙◌, sym,
  subst,
}
use mini_strace.Base.Bytes.{Bytes}
use mini_strace.Base.Int.{ℤ, pos, is_positive}
use mini_strace.Options.{
  is_space, is_digit, skip_spaces, read_digits, saturate, read_number, read_signed, strtol,
  is_empty,
}

-- White space of the C locale, and a decimal digit.
abbrev pub is_white : ℕ → Bool
is_white c = c == 32 || (leb 9 c && leb c 13)

abbrev pub is_decimal : ℕ → Bool
is_decimal c = leb 48 c && leb c 57

abbrev pub has_nonzero : Bytes → Bool
has_nonzero [] = false
has_nonzero (c ∷ s) = not (c == b'0') || has_nonzero s

-- Digits alone, with one at least that is not 0.
abbrev pub is_plain : Bytes → Bool
is_plain s = all_of is_decimal s && has_nonzero s

-- A whole number above 0: white space, a plus sign if any, and digits.
abbrev pub IsNumeral : Bytes → Type 0
IsNumeral v =
    (spaces : Bytes) × (plus : Bytes) × (digits : Bytes) × (v ≡ spaces ++ (plus ++ digits))
    × (all_of is_white spaces ≡ true)
    × ((plus ≡ []) ⊎ (plus ≡ b'+' ∷ []))
    × (is_plain digits ≡ true)

-- The test of `main` on what `strtol` gives.
abbrev pub is_read : ℤ × Bytes → Bool
is_read r = is_empty r.1 && is_positive r.0

-- The text behind white space is read as a number above 0 if it is digits, or a plus sign and digits.
abbrev signed_plain : Bytes → Bool
signed_plain [] = false
signed_plain (c ∷ s) = if_plus (c == b'+') s (c ∷ s)
  where
    if_plus : Bool → Bytes → Bytes → Bool
    if_plus true s t = is_plain s
    if_plus false s t = is_plain t

read_digits-end : (n : ℕ) (s : Bytes) → is_empty (read_digits n s).1 ≡ all_of is_decimal s
unfolding read_digits
read_digits-end n [] = refl
read_digits-end n (c ∷ s) =
    let ih = read_digits-end (n * 10 + (c - b'0')) s in
    elim (Bool-cases (is_digit c)) [
      | inl d ↦ rw (d, read_digits) (ground arith)
      | inr nd ↦ rw (nd, read_digits) (ground arith)
    ]

read_digits-value :
    (n : ℕ) (s : Bytes)
    → all_of is_decimal s ≡ true
    → ltb 0 (read_digits n s).0 ≡ (ltb 0 n || has_nonzero s)
unfolding read_digits
read_digits-value n [] h = ground arith
read_digits-value n (c ∷ s) h =
    let ih = read_digits-value (n * 10 + (c - b'0')) s (ground arith) in
    let d : is_digit c ≡ true = ground arith in rw (d, read_digits) (ground arith)

is_positive-pos : (n : ℕ) → is_positive (pos n) ≡ ltb 0 n
is_positive-pos zero = refl
is_positive-pos (suc n) = ground arith

is_positive-saturate : (n : ℕ) → is_positive (saturate false n) ≡ ltb 0 n
is_positive-saturate n = is_positive-pos (min n (2 ^ 63 - 1)) ∙ ground arith

is_positive-negative : (n : ℕ) → is_positive (saturate true n) ≡ false
is_positive-negative zero = refl
is_positive-negative (suc n) = refl

and_false : (b : Bool) → (b && false) ≡ false
and_false true = refl
and_false false = refl

read_test :
    (whole : Bytes) (digit : Bool) (r : ℕ × Bytes)
    → is_read (if digit then (saturate false r.0, r.1) else (pos 0, whole))
      ≡ (digit && (is_empty r.1 && ltb 0 r.0))
read_test whole false r = and_false (is_empty whole)
read_test whole true r = ap (λ b. is_empty r.1 && b) (is_positive-saturate r.0)

digits_test :
    (c : ℕ) (s : Bytes)
    → (is_digit c && (is_empty (read_digits 0 (c ∷ s)).1 && ltb 0 (read_digits 0 (c ∷ s)).0))
      ≡ is_plain (c ∷ s)
digits_test c s =
    let end = read_digits-end 0 (c ∷ s) in
    elim (Bool-cases (all_of is_decimal (c ∷ s))) [
      | inr bad ↦ ground (arith, end)
      | inl good ↦ ground (arith, end, read_digits-value 0 (c ∷ s) good)
    ]

read_number-plain : (whole s : Bytes) → is_read (read_number whole false s) ≡ is_plain s
unfolding read_number
read_number-plain whole [] = and_false (is_empty whole)
read_number-plain whole (c ∷ s) =
    read_test whole (is_digit c) (read_digits 0 (c ∷ s)) ∙ digits_test c s

read_number-negative : (whole s : Bytes) → is_read (read_number whole true s) ≡ false
unfolding read_number
read_number-negative whole [] = and_false (is_empty whole)
read_number-negative whole (c ∷ s) = elim (Bool-cases (is_digit c)) [
  | inr nd ↦ rw (nd, read_number) (and_false (is_empty whole))
  | inl d ↦ rw (d, read_number) (ground (arith, is_positive-negative (read_digits 0 (c ∷ s)).0))
]

read_signed-plain : (whole t : Bytes) → is_read (read_signed whole t) ≡ signed_plain t
unfolding read_signed
read_signed-plain whole [] = and_false (is_empty whole)
read_signed-plain whole (c ∷ s) = elim (Bool-cases (c == b'-')) [
  | inl minus ↦
      let no_plus : (c == b'+') ≡ false = ground arith in
      rw (minus, no_plus, read_signed) (read_number-negative whole s ∙ ground arith)
  | inr no_minus ↦ elim (Bool-cases (c == b'+')) [
    | inl plus ↦ rw (no_minus, plus, read_signed) (read_number-plain whole s)
    | inr no_plus ↦ rw (no_minus, no_plus, read_signed) (read_number-plain whole (c ∷ s))
  ]
]

skip_spaces-split :
    (v : Bytes) → (spaces : Bytes) × (v ≡ spaces ++ skip_spaces v) × (all_of is_white spaces ≡ true)
unfolding skip_spaces
skip_spaces-split [] = ([], refl, refl)
skip_spaces-split (c ∷ s) = elim (Bool-cases (is_space c)) [
  | inl white ↦
      let (spaces, e, h) = skip_spaces-split s in
      rw (white, skip_spaces) (c ∷ spaces, ap (◌∷◌ c) e, ground arith)
  | inr black ↦ rw (black, skip_spaces) ([], refl, refl)
]

skip_spaces-behind :
    (spaces : Bytes) (c : ℕ) (s : Bytes)
    → all_of is_white spaces ≡ true
    → is_space c ≡ false
    → skip_spaces (spaces ++ c ∷ s) ≡ c ∷ s
unfolding skip_spaces
skip_spaces-behind [] c s h k = rw (k, skip_spaces) refl
skip_spaces-behind (b ∷ spaces) c s h k =
    let white : is_space b ≡ true = ground arith in
    rw (white, skip_spaces) (skip_spaces-behind spaces c s (ground arith) k)

signed_plain-IsNumeral :
    (spaces t : Bytes)
    → all_of is_white spaces ≡ true
    → signed_plain t ≡ true
    → IsNumeral (spaces ++ t)
signed_plain-IsNumeral spaces [] h k = absurd (ground arith)
signed_plain-IsNumeral spaces (c ∷ s) h k = elim (Bool-cases (c == b'+')) [
  | inl plus ↦
      let is_plus : c ≡ b'+' = ground arith in
      (spaces, b'+' ∷ [], s, ap (λ d. spaces ++ d ∷ s) is_plus, h, inr refl, rw plus at k)
  | inr no_plus ↦ (spaces, [], c ∷ s, refl, h, inl refl, rw no_plus at k)
]

IsNumeral-signed_plain : (v : Bytes) → IsNumeral v → signed_plain (skip_spaces v) ≡ true
IsNumeral-signed_plain v (spaces, plus, [], e, h, p, d) = absurd (ground arith)
IsNumeral-signed_plain v (spaces, plus, c ∷ s, e, h, inl none_there, d) =
    let text : v ≡ spaces ++ c ∷ s = e ∙ ap (λ p. spaces ++ (p ++ c ∷ s)) none_there in
    let black : is_space c ≡ false = ground arith in
    let no_plus : (c == b'+') ≡ false = ground arith in
    subst (λ t. signed_plain (skip_spaces t) ≡ true) (sym text)
      (subst (λ t. signed_plain t ≡ true) (sym (skip_spaces-behind spaces c s h black))
        (rw no_plus d))
IsNumeral-signed_plain v (spaces, plus, c ∷ s, e, h, inr there, d) =
    let text : v ≡ spaces ++ b'+' ∷ c ∷ s = e ∙ ap (λ p. spaces ++ (p ++ c ∷ s)) there in
    subst (λ t. signed_plain (skip_spaces t) ≡ true) (sym text)
      (subst (λ t. signed_plain t ≡ true) (sym (skip_spaces-behind spaces b'+' (c ∷ s) h refl)) d)

-- `main` accepts the text of a size or of a pid exactly if it is a whole number above 0.
pub strtol-IsNumeral : (v : Bytes) → (is_read (strtol v) ≡ true) ↔ IsNumeral v
unfolding strtol
strtol-IsNumeral v =
    let same = read_signed-plain v (skip_spaces v) in
    let (spaces, e, h) = skip_spaces-split v in
    (
      λ k. subst IsNumeral (sym e) (signed_plain-IsNumeral spaces (skip_spaces v) h (sym same ∙ k)),
      λ n. same ∙ IsNumeral-signed_plain v n,
    )

-- ===== src/Decoders/Numbers.antt =====
-- The octal numbers of src/decoders.c, and a reader of their digits.
use mini_strace.Base.{
  subst, ℕ, zero, suc, ◌+◌, ◌-◌, ◌*◌, ◌/◌, ◌%◌, ◌^◌, ◌≤◌, ◌<◌, true, [], ◌∷◌, ◌++◌, ◌≡◌, refl, sym,
  ◌∙◌, arith, ◌==◌, length, length-append, Bool-cases, inl, inr, ◌⊎◌, Bool, false, ◌&&◌, leb,
  all_of,
}
use mini_strace.Base.Bytes.{Bytes}
use mini_strace.ChildMem.Printable.{all_of-append}
use mini_strace.ChildMem.{str_arg_buf_len}
use mini_strace.Decoders.Text.{radix_digits, octal}
use mini_strace.Decoders.Requests.{format_file_mode}
use mini_strace.Decoders.ReadBack.{snprintf-fits}

-- The value of octal digits, behind those of the value `n`.
unfoldable pub octal_value : ℕ → Bytes → ℕ
octal_value n [] = n
octal_value n (c ∷ s) = octal_value (n * 8 + (c - b'0')) s

octal_value-append :
    (n : ℕ) (s : Bytes) (c : ℕ) → octal_value n (s ++ c ∷ []) ≡ octal_value n s * 8 + (c - b'0')
unfolding octal_value
octal_value-append n [] c = refl
octal_value-append n (d ∷ s) c = octal_value-append (n * 8 + (d - b'0')) s c

one_digit : (n : ℕ) → (n / 8 == 0) ≡ true → n % 8 ≡ n
one_digit n z = let small : n / 8 ≡ 0 = ground arith in omega arith

octal_value-radix_digits : (fuel n : ℕ) → n < 8 ^ fuel → octal_value 0 (radix_digits 8 fuel n) ≡ n
unfolding octal_value radix_digits
octal_value-radix_digits zero n h = omega arith
octal_value-radix_digits (suc fuel) n h = elim (Bool-cases (n / 8 == 0)) [
  | inl z ↦ rw (z, radix_digits) (omega (arith, one_digit n z))
  | inr nz ↦
      let ih = octal_value-radix_digits fuel (n / 8) (omega arith) in
      rw (nz, radix_digits)
        (octal_value-append 0 (radix_digits 8 fuel (n / 8)) (b'0' + n % 8) ∙ omega (arith, ih))
]

length-radix_digits : (fuel n : ℕ) → length (radix_digits 8 fuel n) ≤ fuel
unfolding radix_digits
length-radix_digits zero n = omega arith
length-radix_digits (suc fuel) n =
    let ih = length-radix_digits fuel (n / 8) in
    elim (Bool-cases (n / 8 == 0)) [
      | inl z ↦ rw (z, radix_digits) (omega arith)
      | inr nz ↦
          rw (nz, radix_digits)
            (omega (arith, ih, length-append (radix_digits 8 fuel (n / 8)) ((b'0' + n % 8) ∷ [])))
    ]

abbrev pub is_octal_digit : ℕ → Bool
is_octal_digit c = leb b'0' c && leb c b'7'

radix_digits-all_octal : (fuel n : ℕ) → all_of is_octal_digit (radix_digits 8 fuel n) ≡ true
unfolding radix_digits
radix_digits-all_octal zero n = refl
radix_digits-all_octal (suc fuel) n =
    let ih = radix_digits-all_octal fuel (n / 8) in
    let digit : all_of is_octal_digit ((b'0' + n % 8) ∷ []) ≡ true = ground arith in
    elim (Bool-cases (n / 8 == 0)) [
      | inl z ↦ rw (z, radix_digits) digit
      | inr nz ↦
          rw (nz, radix_digits)
            (all_of-append is_octal_digit (radix_digits 8 fuel (n / 8)) _ ih digit)
    ]

-- Digits that begin with one other than 0.
abbrev pub BeginsNonzero : Bytes → Type 0
BeginsNonzero [] = false ≡ true
BeginsNonzero (c ∷ s) = b'0' < c

BeginsNonzero-append : (s t : Bytes) → BeginsNonzero s → BeginsNonzero (s ++ t)
BeginsNonzero-append [] t h = absurd (ground arith)
BeginsNonzero-append (c ∷ s) t h = h

radix_digits-BeginsNonzero :
    (fuel n : ℕ) → 0 < n → n < 8 ^ fuel → BeginsNonzero (radix_digits 8 fuel n)
unfolding radix_digits
radix_digits-BeginsNonzero zero n z h = absurd (omega arith)
radix_digits-BeginsNonzero (suc fuel) n z h = elim (Bool-cases (n / 8 == 0)) [
  | inl low ↦ rw (low, radix_digits) (omega (arith, one_digit n low))
  | inr high ↦
      rw (high, radix_digits)
        (BeginsNonzero-append (radix_digits 8 fuel (n / 8)) ((b'0' + n % 8) ∷ [])
          (radix_digits-BeginsNonzero fuel (n / 8) (ground arith) (omega arith)))
]

-- The octal notation of C: 0 alone, or 0 before the digits, which do not begin with another 0.
abbrev pub IsOctalOf : ℕ → Bytes → Type 0
IsOctalOf value [] = false ≡ true
IsOctalOf value (c ∷ s) =
    (c ≡ b'0')
    × (all_of is_octal_digit s ≡ true)
    × (octal_value 0 s ≡ value)
    × (((value ≡ 0) × (s ≡ [])) ⊎ ((0 < value) × BeginsNonzero s))

-- A file mode of 64 bits is written, in the buffer of 1024 bytes, in the octal notation of C: its first
-- byte is the digit 0; for the mode 0 nothing else is written; for any other mode octal digits alone
-- follow, of which the first is not 0, and which have the value of the argument.
pub format_file_mode-IsOctalOf :
    (value : ℕ) → value < 2 ^ 64 → IsOctalOf value (format_file_mode value str_arg_buf_len)
unfolding format_file_mode octal octal_value
format_file_mode-IsOctalOf value k = elim (Bool-cases (value == 0)) [
  | inl z ↦
      let zero_value : value ≡ 0 = ground arith in
      rw z (refl, refl, sym zero_value, inl (zero_value, refl))
  | inr nz ↦
      let fits =
        snprintf-fits str_arg_buf_len (b'0' ∷ radix_digits 8 22 value)
          (omega (arith, length-radix_digits 22 value)) in
      let text : format_file_mode value str_arg_buf_len ≡ b'0' ∷ radix_digits 8 22 value =
        rw nz fits in
      subst (IsOctalOf value) (sym text) (
        refl,
        radix_digits-all_octal 22 value,
        octal_value-radix_digits 22 value (omega arith),
        inr (ground arith, radix_digits-BeginsNonzero 22 value (ground arith) (omega arith)),
      )
]

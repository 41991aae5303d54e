-- ===== src/Decoders/Joined.antt =====
-- The text of a walk as its parts joined by bars, where the buffer has room for all names of the table.
use mathlib.Core.List.{append_assoc, append-nil}
use mini_strace.Base.{
  ℕ, suc, ◌+◌, ◌≤◌, ◌<◌, String, Bool, true, false, not, ◌||◌, List, [], ◌∷◌, ◌++◌, ◌≡◌, refl, sym,
  ap, ◌∙◌, arith, if◌then◌else◌, ◌==◌, ltb, length, codes, all_of, length-append, Bool-cases, inl,
  inr,
}
use mini_strace.Base.Bytes.{Bytes}
use mini_strace.Base.Bits.{zero-bit_and}
use mini_strace.ChildMem.{hex_address}
use mini_strace.Decoders.Text.{append_text, unless_first}
use mini_strace.Decoders.Walk.{
  FlagEntry, FlagTable, claims, clear_bits, walk, append_rest, flags_text, bare_flags_text,
}
use mini_strace.Decoders.Parts.{parts, parts-all_of, parts-total, total}

-- Texts after a first one, each behind a bar.
abbrev pub more : List Bytes → Bytes
more [] = []
more (s ∷ ss) = (b'|' ∷ s) ++ more ss

abbrev pub joined : List Bytes → Bytes
joined [] = []
joined (s ∷ ss) = s ++ more ss

abbrev pub texts : FlagTable → List Bytes
texts [] = []
texts (e ∷ rows) = codes e.name ∷ texts rows

-- What is left of a value, as a text of its own.
abbrev pub rest_text : ℕ → List Bytes
rest_text remaining = if not (remaining == 0) then hex_address remaining ∷ [] else []

-- The room that a table's names take.
abbrev pub budget : FlagTable → ℕ
budget [] = 0
budget (e ∷ table) = suc (length (codes e.name)) + budget table

abbrev pub has_name : FlagEntry → Bool
has_name e = ltb 0 (length (codes e.name))

append_after :
    (out_size : ℕ) (s out : Bytes)
    → length out < out_size
    → 0 < length out
    → append_text out_size (unless_first (b'|' ∷ []) out ++ s) out ≡ out ++ b'|' ∷ s
unfolding append_text
append_after out_size s out h k = ground arith

append_first :
    (out_size : ℕ) (s : Bytes)
    → 0 < out_size
    → append_text out_size (unless_first (b'|' ∷ []) [] ++ s) [] ≡ s
unfolding append_text
append_first out_size s h = ground arith

pub walk-more :
    (skip_zero : Bool) (out_size : ℕ) (table : FlagTable) (value : ℕ) (out : Bytes)
    → length out + budget table < out_size
    → 0 < length out
    → walk skip_zero out_size table value out
      ≡ ((parts skip_zero table value).1, out ++ more (texts (parts skip_zero table value).0))
unfolding walk parts
walk-more skip_zero out_size [] value out h k = ap (λ s. (value, s)) (sym (append-nil out))
walk-more skip_zero out_size (e ∷ table) value out h k =
    let room : ltb (length out) out_size ≡ true = ground arith in
    elim (Bool-cases (claims skip_zero value e)) [
      | inr miss ↦
          rw (room, miss, walk, parts)
            (walk-more skip_zero out_size table value out (omega arith) k)
      | inl hit ↦
          let size = length-append out (b'|' ∷ codes e.name) in
          let wrote = append_after out_size (codes e.name) out (omega arith) k in
          let rest = (parts skip_zero table (clear_bits value e.value)).0 in
          rw (room, hit, walk, parts, wrote)
            (walk-more skip_zero out_size table (clear_bits value e.value)
                (out ++ b'|' ∷ codes e.name) (omega (arith, size)) (omega (arith, size))
              ∙ ap (λ s. ((parts skip_zero table (clear_bits value e.value)).1, s))
                  (append_assoc out (b'|' ∷ codes e.name) (more (texts rest))))
    ]

walk-joined :
    (skip_zero : Bool) (out_size : ℕ) (table : FlagTable) (value : ℕ)
    → budget table < out_size
    → all_of has_name table ≡ true
    → walk skip_zero out_size table value []
      ≡ ((parts skip_zero table value).1, joined (texts (parts skip_zero table value).0))
unfolding walk parts
walk-joined skip_zero out_size [] value h k = refl
walk-joined skip_zero out_size (e ∷ table) value h k =
    let room : ltb 0 out_size ≡ true = ground arith in
    elim (Bool-cases (claims skip_zero value e)) [
      | inr miss ↦
          rw (room, miss, walk, parts)
            (walk-joined skip_zero out_size table value (omega arith) (ground arith))
      | inl hit ↦
          let wrote = append_first out_size (codes e.name) (omega arith) in
          rw (room, hit, walk, parts, wrote)
            (walk-more skip_zero out_size table (clear_bits value e.value) (codes e.name)
              (omega arith) (ground arith))
    ]

-- A text with its last part.
append_rest-more :
    (out_size remaining : ℕ) (out : Bytes)
    → length out < out_size
    → 0 < length out
    → append_rest out_size (remaining, out) ≡ out ++ more (rest_text remaining)
append_rest-more out_size remaining out h k = elim (Bool-cases (remaining == 0)) [
  | inl z ↦ rw z (sym (append-nil out))
  | inr nz ↦ rw nz (
      append_after out_size (hex_address remaining) out h k
      ∙ ap (λ s. out ++ b'|' ∷ s) (sym (append-nil (hex_address remaining))))
]

pub more-append : (ss ts : List Bytes) → more (ss ++ ts) ≡ more ss ++ more ts
more-append [] ts = refl
more-append (s ∷ ss) ts =
    ap (λ t. b'|' ∷ t)
      (ap (λ t. s ++ t) (more-append ss ts) ∙ sym (append_assoc s (more ss) (more ts)))

pub length-more-texts :
    (skip_zero : Bool) (table : FlagTable) (value : ℕ)
    → length (more (texts (parts skip_zero table value).0)) ≤ budget table
unfolding parts
length-more-texts skip_zero [] value = omega arith
length-more-texts skip_zero (e ∷ table) value = elim (Bool-cases (claims skip_zero value e)) [
  | inl hit ↦
      let rest = texts (parts skip_zero table (clear_bits value e.value)).0 in
      let ih = length-more-texts skip_zero table (clear_bits value e.value) in
      rw (hit, parts) (omega (arith, length-append (codes e.name) (more rest), ih))
  | inr miss ↦ rw (miss, parts) (omega (arith, length-more-texts skip_zero table value))
]

pub joined_le_more : (ss : List Bytes) → length (joined ss) ≤ length (more ss)
joined_le_more [] = omega arith
joined_le_more (s ∷ ss) = omega arith

pub length-joined-texts :
    (skip_zero : Bool) (table : FlagTable) (value : ℕ)
    → length (joined (texts (parts skip_zero table value).0)) ≤ budget table
length-joined-texts skip_zero table value = omega (
  arith,
  joined_le_more (texts (parts skip_zero table value).0),
  length-more-texts skip_zero table value,
)

pub append_rest-joined :
    (out_size remaining : ℕ) (rows : FlagTable)
    → length (joined (texts rows)) < out_size
    → all_of has_name rows ≡ true
    → append_rest out_size (remaining, joined (texts rows))
      ≡ joined (texts rows ++ rest_text remaining)
append_rest-joined out_size remaining [] h k = elim (Bool-cases (remaining == 0)) [
  | inl z ↦ rw z refl
  | inr nz ↦
      rw nz
        (append_first out_size (hex_address remaining) h ∙ sym (append-nil (hex_address remaining)))
]
append_rest-joined out_size remaining (e ∷ rows) h k =
    let size = length-append (codes e.name) (more (texts rows)) in
    append_rest-more out_size remaining (codes e.name ++ more (texts rows)) h (ground (arith, size))
    ∙ append_assoc (codes e.name) (more (texts rows)) (more (rest_text remaining))
    ∙ ap (λ t. codes e.name ++ t) (sym (more-append (texts rows) (rest_text remaining)))

-- The text of a flag word that is not 0.
pub flags_text-joined :
    (zero_name : String) (table : FlagTable) (value out_size : ℕ)
    → 0 < value
    → budget table < out_size
    → all_of has_name table ≡ true
    → flags_text zero_name table value out_size
      ≡ joined (texts (parts false table value).0 ++ rest_text (parts false table value).1)
unfolding flags_text
flags_text-joined zero_name table value out_size z h k =
    let not_zero : (value == 0) ≡ false = ground arith in
    let small = length-joined-texts false table value in
    rw (not_zero, walk-joined false out_size table value h k)
      (append_rest-joined out_size (parts false table value).1 (parts false table value).0
        (omega (arith, small)) (parts-all_of has_name false table value k))

parts-zero : (table : FlagTable) → parts true table 0 ≡ ([], 0)
unfolding parts
parts-zero [] = refl
parts-zero (e ∷ table) =
    let none_there : claims true 0 e ≡ false = ground (arith, zero-bit_and e.value) in
    rw (none_there, parts) (parts-zero table)

empty-total :
    (rows : FlagTable)
    → all_of has_name rows ≡ true
    → (length (joined (texts rows)) == 0) ≡ true
    → total rows ≡ 0
empty-total [] k h = refl
empty-total (e ∷ rows) k h =
    absurd (ground (arith, length-append (codes e.name) (more (texts rows))))

-- A value other than 0 leaves a text or a rest.
bare_condition :
    (table : FlagTable) (value : ℕ)
    → 0 < value
    → all_of has_name table ≡ true
    → (length (joined (texts (parts true table value).0)) == 0
        || not ((parts true table value).1 == 0))
      ≡ not ((parts true table value).1 == 0)
bare_condition table value z k = ground (
  arith,
  empty-total (parts true table value).0 (parts-all_of has_name true table value k),
  parts-total true table value,
)

-- Without a text for 0 it is the same, but for 0 itself.
pub bare_flags_text-joined :
    (table : FlagTable) (value out_size : ℕ)
    → budget table < out_size
    → all_of has_name table ≡ true
    → bare_flags_text table value out_size ≡ (
        if value == 0
        then hex_address 0
        else joined (texts (parts true table value).0 ++ rest_text (parts true table value).1))
unfolding bare_flags_text
bare_flags_text-joined table value out_size h k = elim (Bool-cases (value == 0)) [
  | inl z ↦
      let zero_value : value ≡ 0 = ground arith in
      rw (z, walk-joined true out_size table value h k, zero_value, parts-zero table)
        (append_first out_size (hex_address 0) (omega arith))
  | inr nz ↦
      let small = length-joined-texts true table value in
      rw
        (nz, walk-joined true out_size table value h k, bare_condition table value (ground arith) k)
        (append_rest-joined out_size (parts true table value).1 (parts true table value).0
          (omega (arith, small)) (parts-all_of has_name true table value k))
]

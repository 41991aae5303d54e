-- ===== src/Decoders/Parts.antt =====
-- What a walk over a table of flags takes off a value, apart from any buffer.
use mini_strace.Base.{
  ℕ, ◌+◌, ◌≤◌, ◌<◌, Bool, true, false, not, ◌&&◌, ◌||◌, [], ◌∷◌, ◌≡◌, refl, arith, ◌==◌, bit_and,
  all_of, subst, Bool-cases, inl, inr, ◌⊎◌,
}
use mini_strace.Base.Bits.{bit_and-le_left, bit_and-clear_self, bit_and-clear_subset}
use mini_strace.Decoders.Walk.{FlagEntry, FlagTable, has_bits, clear_bits, claims}

-- The rows that are claimed, in order, and what is left of the value.
unfoldable pub parts : Bool → FlagTable → ℕ → FlagTable × ℕ
parts skip_zero [] remaining = ([], remaining)
parts skip_zero (e ∷ table) remaining = elim (claims skip_zero remaining e) [
  | true ↦ let rest = parts skip_zero table (clear_bits remaining e.value) in (e ∷ rest.0, rest.1)
  | false ↦ parts skip_zero table remaining
]

abbrev pub total : FlagTable → ℕ
total [] = 0
total (e ∷ rows) = e.value + total rows

claims-has_bits :
    (skip_zero : Bool) (remaining : ℕ) (e : FlagEntry)
    → claims skip_zero remaining e ≡ true
    → bit_and remaining e.value ≡ e.value
claims-has_bits skip_zero remaining e h = ground arith

-- The claimed rows and what is left make up the value.
pub parts-total :
    (skip_zero : Bool) (table : FlagTable) (value : ℕ)
    → total (parts skip_zero table value).0 + (parts skip_zero table value).1 ≡ value
unfolding parts
parts-total skip_zero [] value = omega arith
parts-total skip_zero (e ∷ table) value = elim (Bool-cases (claims skip_zero value e)) [
  | inl hit ↦
      rw (hit, parts)
        (omega (
          arith,
          parts-total skip_zero table (clear_bits value e.value),
          claims-has_bits skip_zero value e hit,
          bit_and-le_left value e.value,
        ))
  | inr miss ↦ rw (miss, parts) (parts-total skip_zero table value)
]

pub parts-all_of :
    (p : FlagEntry → Bool) (skip_zero : Bool) (table : FlagTable) (value : ℕ)
    → all_of p table ≡ true
    → all_of p (parts skip_zero table value).0 ≡ true
unfolding parts
parts-all_of p skip_zero [] value h = refl
parts-all_of p skip_zero (e ∷ table) value h = elim (Bool-cases (claims skip_zero value e)) [
  | inl hit ↦
      let ih = parts-all_of p skip_zero table (clear_bits value e.value) (ground arith) in
      rw (hit, parts) (ground arith)
  | inr miss ↦ rw (miss, parts) (parts-all_of p skip_zero table value (ground arith))
]

-- What is left is no more than the value, and less if a row was claimed.
pub parts-left_le :
    (skip_zero : Bool) (table : FlagTable) (value : ℕ) → (parts skip_zero table value).1 ≤ value
parts-left_le skip_zero table value = omega (arith, parts-total skip_zero table value)

-- A row that a larger value does not have, none of its parts has.
not_had_later :
    (remaining value mask : ℕ)
    → has_bits remaining mask ≡ false
    → has_bits (clear_bits remaining value) mask ≡ false
not_had_later remaining value mask h = ground (arith, bit_and-clear_subset remaining value mask)

left-not_had :
    (skip_zero : Bool) (table : FlagTable) (value mask : ℕ)
    → has_bits value mask ≡ false
    → has_bits (parts skip_zero table value).1 mask ≡ false
unfolding parts
left-not_had skip_zero [] value mask h = h
left-not_had skip_zero (e ∷ table) value mask h = elim (Bool-cases (claims skip_zero value e)) [
  | inl hit ↦
      rw (hit, parts)
        (left-not_had skip_zero table (clear_bits value e.value) mask
          (not_had_later value e.value mask h))
  | inr miss ↦ rw (miss, parts) (left-not_had skip_zero table value mask h)
]

-- A row that is left over: one of a value other than 0 whose bits are all there.
abbrev pub none_left : ℕ → FlagTable → Bool
none_left remaining table = all_of (λ e. e.value == 0 || not (has_bits remaining e.value)) table

cleared : (value mask : ℕ) → 0 < mask → has_bits (clear_bits value mask) mask ≡ false
cleared value mask h = ground (arith, bit_and-clear_self value mask)

-- A claimed row stands for bits that the value has, and no row of a value other than 0 fits what is
-- left.
pub parts-none_left :
    (skip_zero : Bool) (table : FlagTable) (value : ℕ)
    → none_left (parts skip_zero table value).1 table ≡ true
unfolding parts
parts-none_left skip_zero [] value = refl
parts-none_left skip_zero (e ∷ table) value = elim (Bool-cases (claims skip_zero value e)) [
  | inl hit ↦
      let ih = parts-none_left skip_zero table (clear_bits value e.value) in
      let gone = λ (h : 0 < e.value).
        left-not_had skip_zero table (clear_bits value e.value) e.value (cleared value e.value h) in
      let same : (parts skip_zero table (clear_bits value e.value)).1
          ≡ (parts skip_zero (e ∷ table) value).1 =
        rw (hit, parts) refl in
      subst (λ left. none_left left (e ∷ table) ≡ true) same (head_and_tail e.value _ _ gone ih)
  | inr miss ↦
      let ih = parts-none_left skip_zero table value in
      let gone = λ (h : 0 < e.value).
        left-not_had skip_zero table value e.value (unclaimed skip_zero value e h miss) in
      let same : (parts skip_zero table value).1 ≡ (parts skip_zero (e ∷ table) value).1 =
        rw (miss, parts) refl in
      subst (λ left. none_left left (e ∷ table) ≡ true) same (head_and_tail e.value _ _ gone ih)
]
  where
    unclaimed :
        (skip_zero : Bool) (value : ℕ) (e : FlagEntry)
        → 0 < e.value
        → claims skip_zero value e ≡ false
        → has_bits value e.value ≡ false
    unclaimed skip_zero value e h miss = ground arith

    head_and_tail :
        (n : ℕ) (had rest : Bool)
        → (0 < n → had ≡ false)
        → rest ≡ true
        → ((n == 0 || not had) && rest) ≡ true
    head_and_tail n had rest f r = elim (Bool-cases (n == 0)) [
      | inl z ↦ ground arith
      | inr nz ↦ let k = f (ground arith) in ground arith
    ]

had_before :
    (value mask : ℕ) (rows : FlagTable)
    → all_of (λ e. has_bits (clear_bits value mask) e.value) rows ≡ true
    → all_of (λ e. has_bits value e.value) rows ≡ true
had_before value mask [] h = refl
had_before value mask (e ∷ rows) h =
    ground (arith, bit_and-clear_subset value mask e.value, had_before value mask rows)

pub parts-had :
    (skip_zero : Bool) (table : FlagTable) (value : ℕ)
    → all_of (λ e. has_bits value e.value) (parts skip_zero table value).0 ≡ true
unfolding parts
parts-had skip_zero [] value = refl
parts-had skip_zero (e ∷ table) value = elim (Bool-cases (claims skip_zero value e)) [
  | inl hit ↦
      let ih = parts-had skip_zero table (clear_bits value e.value) in
      let rest = had_before value e.value (parts skip_zero table (clear_bits value e.value)).0 ih in
      rw (hit, parts) (ground (arith, claims-has_bits skip_zero value e hit))
  | inr miss ↦ rw (miss, parts) (parts-had skip_zero table value)
]

-- Some of a table's rows, each once, in the order of the table.
unfoldable pub IsSublist : FlagTable → FlagTable → Type 0
IsSublist [] table = Unit
IsSublist (e ∷ rows) [] = false ≡ true
IsSublist (e ∷ rows) (d ∷ table) = ((e ≡ d) × IsSublist rows table) ⊎ IsSublist (e ∷ rows) table

IsSublist-tail :
    (rows table : FlagTable) (d : FlagEntry) → IsSublist rows table → IsSublist rows (d ∷ table)
unfolding IsSublist
IsSublist-tail [] table d h = tt
IsSublist-tail (e ∷ rows) table d h = inr h

pub parts-IsSublist :
    (skip_zero : Bool) (table : FlagTable) (value : ℕ)
    → IsSublist (parts skip_zero table value).0 table
unfolding parts IsSublist
parts-IsSublist skip_zero [] value = tt
parts-IsSublist skip_zero (e ∷ table) value = elim (Bool-cases (claims skip_zero value e)) [
  | inl hit ↦
      rw (hit, parts) (inl (refl, parts-IsSublist skip_zero table (clear_bits value e.value)))
  | inr miss ↦
      rw (miss, parts)
        (IsSublist-tail (parts skip_zero table value).0 table e
          (parts-IsSublist skip_zero table value))
]

-- ===== src/Summary/Sorted.antt =====
-- A step of the sorting in `print_summary` of src/mini_strace.c: the search for a row, and the swap.
use mini_strace.Base.{
  ℕ, zero, suc, ◌+◌, ◌≤◌, ◌<◌, Bool, false, List, [], ◌∷◌, ◌≡◌, refl, ap, ◌∙◌, arith, if◌then◌else◌,
  ◌==◌, length, get_or, set, Bool-cases, inl, inr,
}
use mini_strace.Summary.{SummaryEntry, SummaryTable}
use mini_strace.Summary.Printing.{row_at, find_max, swap_rows}

module _ {ℓ} {A : Type ℓ} where
  length-set : (xs : List A) (i : ℕ) (v : A) → length (set xs i v) ≡ length xs
  length-set [] i v = refl
  length-set (x ∷ xs) zero v = refl
  length-set (x ∷ xs) (suc i) v = omega (arith, length-set xs i v)

  get_or-set :
      (xs : List A) (i j : ℕ) (v d : A)
      → i < length xs
      → get_or (set xs i v) j d ≡ (if i == j then v else get_or xs j d)
  get_or-set [] i j v d h = absurd (omega arith)
  get_or-set (x ∷ xs) zero zero v d h = ground arith
  get_or-set (x ∷ xs) zero (suc j) v d h = ground arith
  get_or-set (x ∷ xs) (suc i) zero v d h = ground arith
  get_or-set (x ∷ xs) (suc i) (suc j) v d h = ground (arith, get_or-set xs i j v d)

  -- How many elements have a property.
  abbrev pub count : (A → Bool) → List A → ℕ
  count p [] = 0
  count p (x ∷ xs) = (if p x then 1 else 0) + count p xs

  count-set :
      (p : A → Bool) (xs : List A) (i : ℕ) (v d : A)
      → i < length xs
      → count p (set xs i v) + (if p (get_or xs i d) then 1 else 0)
        ≡ count p xs + (if p v then 1 else 0)
  count-set p [] i v d h = absurd (omega arith)
  count-set p (x ∷ xs) zero v d h = omega arith
  count-set p (x ∷ xs) (suc i) v d h = omega (arith, count-set p xs i v d (omega arith))

-- Where a row comes from.
abbrev pub from_row : ℕ → ℕ → ℕ → ℕ
from_row i m t = if m == t then i else if i == t then m else t

-- The order of the times, as `>` has it where no time is NaN.
module _ {T : Type 0} (greater : T → T → Bool) (blank : SummaryEntry T) where
  abbrev pub time_at : SummaryTable T → ℕ → T
  time_at table i = (row_at greater blank table i).total_time

  abbrev pub NotGreater : SummaryTable T → ℕ → ℕ → Type 0
  NotGreater table t s = greater (time_at table t) (time_at table s) ≡ false

  -- The rows before `i` are in order, and none behind them is greater.
  abbrev pub IsSortedTo : ℕ → SummaryTable T → Type 0
  IsSortedTo i table = (s t : ℕ) → s < i → s < t → t < length table → NotGreater table t s

  pub find_max-range :
      (table : SummaryTable T) (rounds i j max_idx : ℕ)
      → i ≤ max_idx
      → max_idx < j
      → (i ≤ find_max greater blank table rounds j max_idx)
        × (find_max greater blank table rounds j max_idx < j + rounds)
  unfolding find_max
  find_max-range table zero i j max_idx h k = omega arith
  find_max-range table (suc rounds) i j max_idx h k =
      elim (Bool-cases (greater (time_at table j) (time_at table max_idx))) [
        | inl more ↦
            let ih = find_max-range table rounds i (j + 1) j (omega arith) (omega arith) in
            rw (more, find_max) (omega (arith, ih))
        | inr less ↦
            let ih = find_max-range table rounds i (j + 1) max_idx h (omega arith) in
            rw (less, find_max) (omega (arith, ih))
      ]

  pub length-swap_rows :
      (table : SummaryTable T) (i m : ℕ) → length (swap_rows greater blank table i m) ≡ length table
  unfolding swap_rows
  length-swap_rows table i m = elim (Bool-cases (m == i)) [
    | inl same ↦ rw (same, swap_rows) refl
    | inr differ ↦
        rw (differ, swap_rows)
          (length-set (set table i (row_at greater blank table m)) m (row_at greater blank table i)
            ∙ length-set table i (row_at greater blank table m))
  ]

  pub row_at-swap_rows :
      (table : SummaryTable T) (i m t : ℕ)
      → i < length table
      → m < length table
      → row_at greater blank (swap_rows greater blank table i m) t
        ≡ row_at greater blank table (from_row i m t)
  unfolding swap_rows
  row_at-swap_rows table i m t h k = elim (Bool-cases (m == i)) [
    | inl same ↦
        let e : m ≡ i = ground arith in
        rw (same, swap_rows) (ap (row_at greater blank table) (ground (arith, e)))
    | inr differ ↦
        let inner = get_or-set table i t (row_at greater blank table m) blank h in
        let outer =
          get_or-set (set table i (row_at greater blank table m)) m t (row_at greater blank table i)
            blank (omega (arith, k, length-set table i (row_at greater blank table m))) in
        rw (differ, swap_rows) (outer ∙ ground (arith, inner))
  ]

  pub count-swap_rows :
      (p : SummaryEntry T → Bool) (table : SummaryTable T) (i m : ℕ)
      → i < length table
      → m < length table
      → count p (swap_rows greater blank table i m) ≡ count p table
  unfolding swap_rows
  count-swap_rows p table i m h k = elim (Bool-cases (m == i)) [
    | inl same ↦ rw (same, swap_rows) refl
    | inr differ ↦
        let first = count-set p table i (row_at greater blank table m) blank h in
        let kept = get_or-set table i m (row_at greater blank table m) blank h in
        let there : get_or (set table i (row_at greater blank table m)) m blank
            ≡ row_at greater blank table m =
          ground (arith, kept) in
        let second =
          count-set p (set table i (row_at greater blank table m)) m (row_at greater blank table i)
            blank (omega (arith, k, length-set table i (row_at greater blank table m))) in
        let second' = rw there at second in rw (differ, swap_rows) (omega (arith, first, second'))
  ]

-- ===== src/Summary/Order.antt =====
-- `print_summary` of src/mini_strace.c: the order of the sorted table, and its rows.
use mini_strace.Base.{
  ℕ, zero, suc, ◌+◌, ◌-◌, ◌≤◌, ◌<◌, Bool, true, false, ◌≡◌, refl, sym, ap, ◌∙◌, arith, subst, ◌==◌,
  length, Bool-cases, inl, inr,
}
use mini_strace.Summary.{SummaryEntry, SummaryTable}
use mini_strace.Summary.Printing.{find_max, swap_rows, sort_from, sort_summary}
use mini_strace.Summary.Sorted.{
  count, time_at, NotGreater, IsSortedTo, find_max-range, length-swap_rows, from_row,
  row_at-swap_rows, count-swap_rows,
}

-- `>` on times that are no NaN: nothing is greater than itself, and what is at most `b` is at most
-- whatever is greater than `b`.
module _ {T : Type 0} (greater : T → T → Bool) (blank : SummaryEntry T)
    (irreflexive : (a : T) → greater a a ≡ false)
    (below : (a b c : T) → greater a b ≡ false → greater c b ≡ true → greater a c ≡ false) where
  find_max-max :
      (table : SummaryTable T) (rounds i j max_idx : ℕ)
      → ((t : ℕ) → i ≤ t → t < j → NotGreater greater blank table t max_idx)
      → (t : ℕ) → i ≤ t
      → t < j + rounds
      → NotGreater greater blank table t (find_max greater blank table rounds j max_idx)
  unfolding find_max
  find_max-max table zero i j max_idx seen t h k = seen t h (omega arith)
  find_max-max table (suc rounds) i j max_idx seen t h k =
      elim (Bool-cases
        (greater (time_at greater blank table j) (time_at greater blank table max_idx))) [
          | inl more ↦
              rw (more, find_max)
                (find_max-max table rounds i (j + 1) j
                  (λ u p q. elim (Bool-cases (u == j)) [
                    | inl same ↦
                        let e : u ≡ j = ground arith in
                        subst (λ v. NotGreater greater blank table v j) (sym e)
                          (irreflexive (time_at greater blank table j))
                    | inr other ↦ below _ _ _ (seen u p (ground arith)) more
                  ])
                  t h (omega arith))
          | inr less ↦
              rw (less, find_max)
                (find_max-max table rounds i (j + 1) max_idx
                  (λ u p q. elim (Bool-cases (u == j)) [
                    | inl same ↦
                        let e : u ≡ j = ground arith in
                        subst (λ v. NotGreater greater blank table v max_idx) (sym e) less
                    | inr other ↦ seen u p (ground arith)
                  ])
                  t h (omega arith))
        ]

  -- One round of the outer loop.
  abbrev chosen : ℕ → SummaryTable T → ℕ
  chosen i table = find_max greater blank table (length table - (i + 1)) (i + 1) i

  chosen-range :
      (i : ℕ) (table : SummaryTable T)
      → i < length table
      → (i ≤ chosen i table) × (chosen i table < length table)
  chosen-range i table h = omega (
    arith,
    find_max-range greater blank table (length table - (i + 1)) i (i + 1) i (omega arith)
        (omega arith),
  )

  chosen-max :
      (i : ℕ) (table : SummaryTable T) (t : ℕ)
      → i ≤ t
      → t < length table
      → NotGreater greater blank table t (chosen i table)
  chosen-max i table t h k =
      find_max-max table (length table - (i + 1)) i (i + 1) i
        (λ u p q.
          let e : u ≡ i = omega arith in
          subst (λ v. NotGreater greater blank table v i) (sym e)
            (irreflexive (time_at greater blank table i)))
        t h (omega arith)

  round-IsSortedTo :
      (i : ℕ) (table : SummaryTable T)
      → i < length table
      → IsSortedTo greater blank i table
      → IsSortedTo greater blank (i + 1) (swap_rows greater blank table i (chosen i table))
  round-IsSortedTo i table h sorted s t p q k =
      let m = chosen i table in
      let (low, high) = chosen-range i table h in
      let size = length-swap_rows greater blank table i m in
      let at_s = ap (λ e. e.total_time) (row_at-swap_rows greater blank table i m s h high) in
      let at_t = ap (λ e. e.total_time) (row_at-swap_rows greater blank table i m t h high) in
      let source : NotGreater greater blank table (from_row i m t) (from_row i m s) =
        elim (Bool-cases (s == i)) [
          | inl same ↦
              let e : from_row i m s ≡ m = ground (arith, low) in
              subst (λ u. NotGreater greater blank table (from_row i m t) u) (sym e)
                (chosen-max i table (from_row i m t) (ground (arith, low)) (ground (arith, size)))
          | inr before ↦
              let e : from_row i m s ≡ s = ground (arith, low) in
              subst (λ u. NotGreater greater blank table (from_row i m t) u) (sym e)
                (sorted s (from_row i m t) (ground arith) (ground (arith, low))
                  (ground (arith, size)))
        ] in
      rw (at_s, at_t) source

  sort_from-IsSortedTo :
      (rounds i : ℕ) (table : SummaryTable T)
      → i + rounds ≤ length table
      → IsSortedTo greater blank i table
      → IsSortedTo greater blank (i + rounds) (sort_from greater blank rounds i table)
        × (length (sort_from greater blank rounds i table) ≡ length table)
  unfolding sort_from
  sort_from-IsSortedTo zero i table h sorted =
      let e : i + 0 ≡ i = omega arith in
      (subst (λ n. IsSortedTo greater blank n table) (sym e) sorted, refl)
  sort_from-IsSortedTo (suc rounds) i table h sorted =
      let swapped = swap_rows greater blank table i (chosen i table) in
      let size = length-swap_rows greater blank table i (chosen i table) in
      let (after, kept) =
        sort_from-IsSortedTo rounds (i + 1) swapped (omega (arith, size))
          (round-IsSortedTo i table (omega arith) sorted) in
      let e : i + 1 + rounds ≡ i + suc rounds = omega arith in
      (
        subst (λ n. IsSortedTo greater blank n (sort_from greater blank rounds (i + 1) swapped)) e
            after,
        kept ∙ size,
      )

  count-sort_from :
      (p : SummaryEntry T → Bool) (rounds i : ℕ) (table : SummaryTable T)
      → i + rounds ≤ length table
      → count p (sort_from greater blank rounds i table) ≡ count p table
  unfolding sort_from
  count-sort_from p zero i table h = refl
  count-sort_from p (suc rounds) i table h =
      let swapped = swap_rows greater blank table i (chosen i table) in
      let size = length-swap_rows greater blank table i (chosen i table) in
      count-sort_from p rounds (i + 1) swapped (omega (arith, size))
      ∙ count-swap_rows greater blank p table i (chosen i table) (omega arith)
          (chosen-range i table (omega arith)).1

  -- The sorting neither adds a row nor drops or changes one: the table stays as long, and has as many rows
  -- of each kind as before, whatever a kind is.
  pub count-sort_summary :
      (p : SummaryEntry T → Bool) (table : SummaryTable T)
      → (length (sort_summary greater blank table) ≡ length table)
        × (count p (sort_summary greater blank table) ≡ count p table)
  unfolding sort_summary
  count-sort_summary p table =
      let (sorted, size) =
        sort_from-IsSortedTo (length table - 1) 0 table (omega arith)
          (λ s t h k q. absurd (omega arith)) in
      (size, count-sort_from p (length table - 1) 0 table (omega arith))

  -- In the sorted table no row has a greater time than a row before it. The order of the times is one in
  -- which nothing is greater than itself, and what is not greater than `b` is not greater than what is.
  pub sort_summary-NotGreater :
      (table : SummaryTable T) (s t : ℕ)
      → s < t
      → t < length table
      → NotGreater greater blank (sort_summary greater blank table) t s
  unfolding sort_summary
  sort_summary-NotGreater table s t h k =
      let (sorted, size) =
        sort_from-IsSortedTo (length table - 1) 0 table (omega arith)
          (λ s t h p q. absurd (omega arith)) in
      sorted s t (omega arith) h (omega (arith, size))

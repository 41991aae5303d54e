-- ===== src/Summary/Printing.antt =====
-- src/mini_strace.c, `print_summary`: how the rows are sorted, and the totals. `greater` is `>` on the
-- times and `plus` their addition; `blank` is what a read outside the table would give, and no read is.
use mini_strace.Base.{
  ℕ, zero, suc, ◌+◌, ◌-◌, Bool, [], ◌∷◌, if◌then◌else◌, ◌==◌, length, get_or, set,
}
use mini_strace.Summary.{SummaryEntry, SummaryTable}

module _ {T : Type 0} (greater : T → T → Bool) (blank : SummaryEntry T) where
  -- `summary_table[i]`
  abbrev pub row_at : SummaryTable T → ℕ → SummaryEntry T
  row_at table i = get_or table i blank

  -- The loop over `j`, of which `rounds` are left.
  unfoldable pub find_max : SummaryTable T → ℕ → ℕ → ℕ → ℕ
  find_max table zero j max_idx = max_idx
  find_max table (suc rounds) j max_idx =
      find_max table rounds (j + 1) (
        if greater (row_at table j).total_time (row_at table max_idx).total_time
        then j
        else max_idx)

  unfoldable pub swap_rows : SummaryTable T → ℕ → ℕ → SummaryTable T
  swap_rows table i max_idx =
      if max_idx == i
      then table
      else set (set table i (row_at table max_idx)) max_idx (row_at table i)

  -- The loop over `i`.
  unfoldable pub sort_from : ℕ → ℕ → SummaryTable T → SummaryTable T
  unfolding find_max swap_rows
  sort_from zero i table = table
  sort_from (suc rounds) i table =
      sort_from rounds (i + 1)
        (swap_rows table i (find_max table (length table - (i + 1)) (i + 1) i))

  unfoldable pub sort_summary : SummaryTable T → SummaryTable T
  unfolding sort_from
  sort_summary table = sort_from (length table - 1) 0 table

module _ {T : Type 0} (plus : T → T → T) where
  -- `grand_total`, `grand_calls` and `grand_errors`, from what was added up.
  unfoldable pub grand_totals : SummaryTable T → T → ℕ → ℕ → T × ℕ × ℕ
  grand_totals [] total calls errors = (total, calls, errors)
  grand_totals (e ∷ table) total calls errors =
      grand_totals table (plus total e.total_time) (calls + e.calls) (errors + e.errors)

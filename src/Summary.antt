-- ===== src/Summary.antt =====
-- src/mini_strace.c: the table of `-c`, with a row for each name of a system call. Times are values of
-- a type `T` with the two operations that the accounting uses, since the source counts in `double`.
use mini_strace.Base.{
  ℕ, zero, suc, ◌+◌, String, Bool, true, false, List, [], ◌∷◌, ◌++◌, Option, none, some,
  if◌then◌else◌, ltb, str_eq, length, get_elem?, set,
}
pub mod Accounting
pub mod Printing
pub mod Sorted
pub mod Order

pub record SummaryEntry (T : Type 0) : Type 0 where
  pub name : String
  pub calls : ℕ
  pub errors : ℕ
  pub total_time : T

abbrev pub max_summary_entries : ℕ
max_summary_entries = 256

abbrev pub SummaryTable : Type 0 → Type 0
SummaryTable T = List (SummaryEntry T)

module _ {T : Type 0} where
  -- The index of the row of a name.
  unfoldable pub row_of : SummaryTable T → String → Option ℕ
  row_of [] name = none
  row_of (e ∷ table) name =
      if str_eq e.name name
      then some 0
      else elim (row_of table name) [ none ↦ none | some i ↦ some (suc i) ]

  -- `summary_entry_count` is the length of the table; `zero_time` is 0.0.
  unfoldable pub summary_lookup_or_add : T → SummaryTable T → String → SummaryTable T × Option ℕ
  unfolding row_of
  summary_lookup_or_add zero_time table name = elim (row_of table name) [
    | some i ↦ (table, some i)
    | none ↦
        if ltb (length table) max_summary_entries
        then (
          table ++ record { name = name; calls = 0; errors = 0; total_time = zero_time } ∷ [],
          some (length table),
        )
        else (table, none)
  ]

  -- `se->calls++; if (ret < 0) se->errors++; se->total_time += elapsed;`
  abbrev pub counted : (T → T → T) → SummaryEntry T → Bool → T → SummaryEntry T
  counted plus e failed elapsed = record e {
    calls = e.calls + 1;
    errors = e.errors + (if failed then 1 else 0);
    total_time = plus e.total_time elapsed;
  }

  abbrev pub update_row : (SummaryEntry T → SummaryEntry T) → SummaryTable T → ℕ → SummaryTable T
  update_row f [] i = []
  update_row f (e ∷ table) zero = f e ∷ table
  update_row f (e ∷ table) (suc i) = e ∷ update_row f table i

  -- How the exit stop folds one call into the table under `-c`.
  unfoldable pub account : T → (T → T → T) → SummaryTable T → String → Bool → T → SummaryTable T
  unfolding summary_lookup_or_add
  account zero_time plus table name failed elapsed =
      let found = summary_lookup_or_add zero_time table name in
      elim found.1 [
        | some i ↦ update_row (λ e. counted plus e failed elapsed) found.0 i
        | none ↦ found.0
      ]

-- ===== src/Tests/Tables.antt =====
-- src/trace_filter.c, and the two tables of src/mini_strace.c.
use mini_strace.Base.{
  Bool, false, map, length, ltb, str_eq, refl, ℕ, ◌+◌, true, [], ◌∷◌, none, some, ◌≡◌, ◌↔◌, ◌⊎◌,
  arith, codes,
}
use mini_strace.Filter.{parse_trace_filter, syscall_allowed}
use mini_strace.Filter.Tokens.{fields}
use mini_strace.Filter.Parse.{parse_trace_filter-fields}
use mini_strace.Filter.Allowed.{syscall_allowed_iff, AnySelects}
use mini_strace.Tracees.{
  TraceeTable, fresh, zeroed, find_tracee, free_slot, add_tracee, remove_tracee,
}
use mini_strace.Tracees.Lookup.{lookup, lookup-add_tracee}
use mini_strace.Tracees.Distinct.{IsDistinct, lookup-remove_tracee, find_tracee-add_tracee}
use mini_strace.Summary.{SummaryEntry, SummaryTable, account}
use mini_strace.Summary.Printing.{find_max, swap_rows, sort_from, sort_summary, grand_totals}
use mini_strace.Summary.Sorted.{count, NotGreater}
use mini_strace.Summary.Order.{count-sort_summary, sort_summary-NotGreater}
use mini_strace.Summary.Accounting.{row, row-account}

parse_trace_filter-fields_example :
    parse_trace_filter (codes ",file,,openat") [] ≡ codes "file" ∷ codes "openat" ∷ []
unfolding fields
parse_trace_filter-fields_example =
    parse_trace_filter-fields (codes ",file,,openat") [] (omega arith)

syscall_allowed_iff_example :
    (syscall_allowed (codes "file" ∷ []) "stat" ≡ true)
    ↔ ((codes "file" ∷ [] ≡ []) ⊎ AnySelects "stat" (codes "file" ∷ []))
syscall_allowed_iff_example = syscall_allowed_iff (codes "file" ∷ []) "stat"

abbrev one_and_a_free : TraceeTable
one_and_a_free = fresh 7 ∷ zeroed ∷ []

one-IsDistinct : IsDistinct one_and_a_free
unfolding lookup
one-IsDistinct = ground arith

lookup-add_tracee_example : lookup (add_tracee one_and_a_free 9).0 9 ≡ some (fresh 9)
unfolding lookup free_slot
lookup-add_tracee_example = lookup-add_tracee one_and_a_free 9 9

lookup-remove_tracee_example : lookup (remove_tracee one_and_a_free 7) 7 ≡ none
lookup-remove_tracee_example = lookup-remove_tracee one_and_a_free 7 7 one-IsDistinct

find_tracee-add_tracee_example :
    find_tracee (add_tracee one_and_a_free 9).0 9 ≡ (add_tracee one_and_a_free 9).1
find_tracee-add_tracee_example = find_tracee-add_tracee one_and_a_free 9

abbrev two_rows : SummaryTable ℕ
two_rows =
    record { name = "read"; calls = 2; errors = 0; total_time = 10 }
    ∷ record { name = "open"; calls = 1; errors = 1; total_time = 3 }
    ∷ []

row-account_example :
    row (account 0 (λ a b. a + b) two_rows "open" true 4) "open"
    ≡ some (record { name = "open"; calls = 2; errors = 2; total_time = 7 })
unfolding row
row-account_example = row-account 0 (λ a b. a + b) two_rows "open" true 4 "open"

abbrev greater : ℕ → ℕ → Bool
greater a b = ltb b a

greater-irreflexive : (a : ℕ) → greater a a ≡ false
greater-irreflexive a = ground arith

greater-below : (a b c : ℕ) → greater a b ≡ false → greater c b ≡ true → greater a c ≡ false
greater-below a b c h k = ground arith

abbrev blank_row : SummaryEntry ℕ
blank_row = record { name = ""; calls = 0; errors = 0; total_time = 0 }

abbrev three_rows : SummaryTable ℕ
three_rows = record { name = "close"; calls = 5; errors = 0; total_time = 1 } ∷ two_rows

sorted_names : map (λ e. e.total_time) (sort_summary greater blank_row three_rows) ≡ 10 ∷ 3 ∷ 1 ∷ []
unfolding sort_summary sort_from find_max swap_rows
sorted_names = refl

totals : grand_totals (λ a b. a + b) three_rows 0 0 0 ≡ (14, 8, 1)
unfolding grand_totals
totals = refl

count-sort_summary_example :
    (length (sort_summary greater blank_row three_rows) ≡ 3)
    × (count (λ e. str_eq e.name "close") (sort_summary greater blank_row three_rows) ≡ 1)
count-sort_summary_example =
    count-sort_summary greater blank_row greater-irreflexive greater-below
      (λ e. str_eq e.name "close") three_rows

sort_summary-NotGreater_example :
    NotGreater greater blank_row (sort_summary greater blank_row three_rows) 2 0
sort_summary-NotGreater_example =
    sort_summary-NotGreater greater blank_row greater-irreflexive greater-below three_rows 0 2
      (omega arith) (omega arith)

-- ===== src/Tracees/Distinct.antt =====
-- No two entries track one process.
use mini_strace.Base.{
  ℕ, zero, suc, true, [], ◌∷◌, none, some, if◌then◌else◌, ◌==◌, ◌≡◌, refl, ap, arith, set, length,
  Option-cases, inl, inr,
}
use mini_strace.Tracees.{
  TraceeState, TraceeTable, tracks, fresh, find_tracee, free_slot, add_tracee, remove_tracee,
  deactivate, empty_table,
}
use mini_strace.Tracees.Lookup.{lookup, find_tracee-none, lookup-set_found, lookup-set_free}

abbrev pub IsDistinct : TraceeTable → Type 0
IsDistinct [] = Unit
IsDistinct (t ∷ table) = (t.active ≡ true → lookup table t.pid ≡ none) × IsDistinct table

lookup-deactivate :
    (table : TraceeTable) (pid i q : ℕ)
    → IsDistinct table
    → find_tracee table pid ≡ some i
    → lookup (deactivate table i) q ≡ (if q == pid then none else lookup table q)
unfolding find_tracee lookup
lookup-deactivate [] pid i q d f = cc
lookup-deactivate (u ∷ table) pid zero q d f = ground arith
lookup-deactivate (u ∷ table) pid (suc i) q d f = ground (arith, lookup-deactivate table pid i q)

-- A table in which no two entries track one process forgets a process when it is removed, and keeps
-- every other one.
pub lookup-remove_tracee :
    (table : TraceeTable) (pid q : ℕ)
    → IsDistinct table
    → lookup (remove_tracee table pid) q ≡ (if q == pid then none else lookup table q)
unfolding remove_tracee
lookup-remove_tracee table pid q d = elim (Option-cases (find_tracee table pid)) [
  | inl e ↦ rw (e, remove_tracee) (ground (arith, find_tracee-none table pid, e))
  | inr (i, e) ↦ rw (e, remove_tracee) (lookup-deactivate table pid i q d e)
]

pub set_found-IsDistinct :
    (table : TraceeTable) (pid i : ℕ) (t : TraceeState)
    → IsDistinct table
    → find_tracee table pid ≡ some i
    → tracks t pid ≡ true
    → IsDistinct (set table i t)
unfolding find_tracee lookup
set_found-IsDistinct [] pid i t d f a = tt
set_found-IsDistinct (u ∷ table) pid zero t d f a = ground arith
set_found-IsDistinct (u ∷ table) pid (suc i) t d f a =
    ground (arith, set_found-IsDistinct table pid i t, lookup-set_found table pid i t u.pid)

set_free-IsDistinct :
    (table : TraceeTable) (pid i : ℕ) (t : TraceeState)
    → IsDistinct table
    → free_slot table ≡ some i
    → lookup table pid ≡ none
    → tracks t pid ≡ true
    → IsDistinct (set table i t)
unfolding free_slot lookup
set_free-IsDistinct [] pid i t d f n a = tt
set_free-IsDistinct (u ∷ table) pid zero t d f n a = ground arith
set_free-IsDistinct (u ∷ table) pid (suc i) t d f n a =
    ground (arith, set_free-IsDistinct table pid i t, lookup-set_free table pid i t u.pid)

deactivate-IsDistinct :
    (table : TraceeTable) (pid i : ℕ)
    → IsDistinct table
    → find_tracee table pid ≡ some i
    → IsDistinct (deactivate table i)
unfolding find_tracee lookup
deactivate-IsDistinct [] pid i d f = tt
deactivate-IsDistinct (u ∷ table) pid zero d f = ground arith
deactivate-IsDistinct (u ∷ table) pid (suc i) d f =
    ground (arith, deactivate-IsDistinct table pid i, lookup-deactivate table pid i u.pid)

pub add_tracee-IsDistinct :
    (table : TraceeTable) (pid : ℕ) → IsDistinct table → IsDistinct (add_tracee table pid).0
unfolding add_tracee
add_tracee-IsDistinct table pid d = elim (Option-cases (find_tracee table pid)) [
  | inr (i, e) ↦ rw (e, add_tracee) d
  | inl e ↦ elim (Option-cases (free_slot table)) [
    | inl f ↦ rw (e, f, add_tracee) d
    | inr (i, f) ↦
        rw (e, f, add_tracee)
          (set_free-IsDistinct table pid i (fresh pid) d f ((find_tracee-none table pid).0 e)
            (ground arith))
  ]
]

pub remove_tracee-IsDistinct :
    (table : TraceeTable) (pid : ℕ) → IsDistinct table → IsDistinct (remove_tracee table pid)
unfolding remove_tracee
remove_tracee-IsDistinct table pid d = elim (Option-cases (find_tracee table pid)) [
  | inl e ↦ rw (e, remove_tracee) d
  | inr (i, e) ↦ rw (e, remove_tracee) (deactivate-IsDistinct table pid i d e)
]

-- The pointer that registration returns is where the search finds the process.
find_tracee-set_free :
    (table : TraceeTable) (pid i : ℕ) (t : TraceeState)
    → free_slot table ≡ some i
    → find_tracee table pid ≡ none
    → tracks t pid ≡ true
    → find_tracee (set table i t) pid ≡ some i
unfolding free_slot find_tracee
find_tracee-set_free [] pid i t f n a = cc
find_tracee-set_free (u ∷ table) pid zero t f n a = ground arith
find_tracee-set_free (u ∷ table) pid (suc i) t f n a =
    ground (arith, find_tracee-set_free table pid i t)

-- The pointer that registration returns, NULL included, is what a search of the new table returns.
pub find_tracee-add_tracee :
    (table : TraceeTable) (pid : ℕ)
    → find_tracee (add_tracee table pid).0 pid ≡ (add_tracee table pid).1
unfolding add_tracee
find_tracee-add_tracee table pid = elim (Option-cases (find_tracee table pid)) [
  | inr (i, e) ↦ rw (e, add_tracee) e
  | inl e ↦ elim (Option-cases (free_slot table)) [
    | inl f ↦ rw (e, f, add_tracee) e
    | inr (i, f) ↦
        rw (e, f, add_tracee) (find_tracee-set_free table pid i (fresh pid) f e (ground arith))
  ]
]

length-set : (table : TraceeTable) (i : ℕ) (t : TraceeState) → length (set table i t) ≡ length table
length-set [] i t = refl
length-set (u ∷ table) zero t = refl
length-set (u ∷ table) (suc i) t = ap suc (length-set table i t)

pub length-add_tracee :
    (table : TraceeTable) (pid : ℕ) → length (add_tracee table pid).0 ≡ length table
unfolding add_tracee
length-add_tracee table pid = elim (Option-cases (find_tracee table pid)) [
  | inr (i, e) ↦ rw (e, add_tracee) refl
  | inl e ↦ elim (Option-cases (free_slot table)) [
    | inl f ↦ rw (e, f, add_tracee) refl
    | inr (i, f) ↦ rw (e, f, add_tracee) (length-set table i (fresh pid))
  ]
]

pub empty_table-IsDistinct : IsDistinct empty_table
unfolding lookup
empty_table-IsDistinct = ground arith

-- ===== src/Tracees/Lookup.antt =====
-- The table as a partial map from process ids to states.
use mini_strace.Base.{
  ℕ, zero, suc, Bool, true, false, [], ◌∷◌, Option, none, some, if◌then◌else◌, ◌==◌, ◌≡◌, refl,
  arith, set, get_elem?,
}
use mini_strace.Dispatch.Pending.{is_some}
use mini_strace.Tracees.{
  TraceeState, TraceeTable, tracks, fresh, find_tracee, free_slot, add_tracee,
}

-- The state of a process, by the first entry that tracks it.
unfoldable pub lookup : TraceeTable → ℕ → Option TraceeState
lookup [] pid = none
lookup (t ∷ table) pid = if tracks t pid then some t else lookup table pid

-- What an index leads to.
abbrev pub entry_at : TraceeTable → Option ℕ → Option TraceeState
entry_at table none = none
entry_at table (some i) = get_elem? table i

pub find_tracee-lookup :
    (table : TraceeTable) (pid : ℕ) → entry_at table (find_tracee table pid) ≡ lookup table pid
unfolding find_tracee lookup
find_tracee-lookup [] pid = refl
find_tracee-lookup (t ∷ table) pid = ground (arith, find_tracee-lookup table pid)

pub find_tracee-none :
    (table : TraceeTable) (pid : ℕ)
    → (find_tracee table pid ≡ none → lookup table pid ≡ none)
      × (lookup table pid ≡ none → find_tracee table pid ≡ none)
unfolding find_tracee lookup
find_tracee-none [] pid = ground arith
find_tracee-none (t ∷ table) pid = ground (arith, find_tracee-none table pid)

-- A write at the index of a process replaces its state, and no other.
pub lookup-set_found :
    (table : TraceeTable) (pid i : ℕ) (t : TraceeState) (q : ℕ)
    → find_tracee table pid ≡ some i
    → tracks t pid ≡ true
    → lookup (set table i t) q ≡ (if q == pid then some t else lookup table q)
unfolding find_tracee lookup
lookup-set_found [] pid i t q f a = cc
lookup-set_found (u ∷ table) pid zero t q f a = ground arith
lookup-set_found (u ∷ table) pid (suc i) t q f a = ground (arith, lookup-set_found table pid i t q)

-- A write into a free slot adds a process that was not there.
pub lookup-set_free :
    (table : TraceeTable) (pid i : ℕ) (t : TraceeState) (q : ℕ)
    → free_slot table ≡ some i
    → lookup table pid ≡ none
    → tracks t pid ≡ true
    → lookup (set table i t) q ≡ (if q == pid then some t else lookup table q)
unfolding free_slot lookup
lookup-set_free [] pid i t q f n a = cc
lookup-set_free (u ∷ table) pid zero t q f n a = ground arith
lookup-set_free (u ∷ table) pid (suc i) t q f n a = ground (arith, lookup-set_free table pid i t q)

-- What registration makes of a process, by its state before and by whether a slot is free.
abbrev pub registered : Option TraceeState → Bool → ℕ → Option TraceeState
registered (some t) room pid = some t
registered none true pid = some (fresh pid)
registered none false pid = none

-- Registering a process keeps a state that it already has, gives it a fresh one if a slot is free, and
-- changes no other process.
pub lookup-add_tracee :
    (table : TraceeTable) (pid q : ℕ)
    → lookup (add_tracee table pid).0 q ≡ (
        if q == pid
        then registered (lookup table pid) (is_some (free_slot table)) pid
        else lookup table q)
unfolding add_tracee
lookup-add_tracee table pid q = go (find_tracee table pid) refl (free_slot table) refl
  where
    go :
        (f : Option ℕ)
        → find_tracee table pid ≡ f
        → (s : Option ℕ) → free_slot table ≡ s
        → lookup (add_tracee table pid).0 q ≡ (
            if q == pid
            then registered (lookup table pid) (is_some (free_slot table)) pid
            else lookup table q)
    go (some i) e s d = ground (arith, find_tracee-none table pid)
    go none e (some i) d =
        ground (arith, find_tracee-none table pid, lookup-set_free table pid i (fresh pid) q)
    go none e none d = ground (arith, find_tracee-none table pid)

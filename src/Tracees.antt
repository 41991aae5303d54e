-- ===== src/Tracees.antt =====
-- src/mini_strace.c: `tracee_state`, and the table `tracees` with its search, its registration and its
-- removal. A pointer into the table is an index.
use mini_strace.Base.{
  ℕ, zero, suc, String, Bool, true, false, not, ◌&&◌, List, [], ◌∷◌, Option, none, some,
  if◌then◌else◌, ◌==◌, replicate, set, get_elem?,
}
use mini_strace.Dispatch.Pending.{Pending, no_pending}
pub mod Lookup
pub mod Distinct

-- `struct timespec`
pub record Timespec : Type 0 where
  pub tv_sec : ℕ
  pub tv_nsec : ℕ

-- The fourteen `pending_*` lookups are one field, `pending`.
pub record TraceeState : Type 0 where
  pub pid : ℕ
  pub active : Bool
  pub in_syscall : Bool
  pub pending_name : Option String
  pub pending_args : List ℕ
  pub pending : Pending
  pub suppressed : Bool
  pub entry_time : Timespec
  pub current_name : Option String

abbrev pub TraceeTable : Type 0
TraceeTable = List TraceeState

abbrev pub max_tracees : ℕ
max_tracees = 64

-- `memset` to 0 leaves the index fields at 0, which is a slot, and not at -1.
abbrev pub zeroed_pending : Pending
zeroed_pending = record no_pending {
  wait_status_idx = some 0;
  msghdr_idx = some 0;
  stat_idx = some 0;
  getdents_idx = some 0;
  sigaction_idx = some 0;
  timespec_out_idx = some 0;
  rusage_idx = some 0;
  epoll_events_idx = some 0;
  statx_idx = some 0;
  rlimit_idx = some 0;
}

abbrev pub zeroed : TraceeState
zeroed = record {
  pid = 0;
  active = false;
  in_syscall = false;
  pending_name = none;
  pending_args = 0 ∷ 0 ∷ 0 ∷ 0 ∷ 0 ∷ 0 ∷ [];
  pending = zeroed_pending;
  suppressed = false;
  entry_time = record { tv_sec = 0; tv_nsec = 0 };
  current_name = none;
}

-- The entry that `add_tracee` writes into a free slot.
abbrev pub fresh : ℕ → TraceeState
fresh pid = record zeroed { pid = pid; active = true }

-- The static table before any registration.
abbrev pub empty_table : TraceeTable
empty_table = replicate max_tracees zeroed

-- `tracees[i].active && tracees[i].pid == pid`
abbrev pub tracks : TraceeState → ℕ → Bool
tracks t pid = t.active && t.pid == pid

abbrev pub map_suc : Option ℕ → Option ℕ
map_suc none = none
map_suc (some i) = some (suc i)

unfoldable pub find_tracee : TraceeTable → ℕ → Option ℕ
find_tracee [] pid = none
find_tracee (t ∷ table) pid = if tracks t pid then some 0 else map_suc (find_tracee table pid)

-- The first slot that is not active.
unfoldable pub free_slot : TraceeTable → Option ℕ
free_slot [] = none
free_slot (t ∷ table) = if not t.active then some 0 else map_suc (free_slot table)

unfoldable pub add_tracee : TraceeTable → ℕ → TraceeTable × Option ℕ
add_tracee table pid = elim (find_tracee table pid) [
  | some i ↦ (table, some i)
  | none ↦ elim (free_slot table) [
    | some i ↦ (set table i (fresh pid), some i)
    | none ↦ (table, none)
  ]
]

-- `tracees[i].active = 0`
abbrev pub deactivate : TraceeTable → ℕ → TraceeTable
deactivate [] i = []
deactivate (t ∷ table) zero = record t { active = false } ∷ table
deactivate (t ∷ table) (suc i) = t ∷ deactivate table i

unfoldable pub remove_tracee : TraceeTable → ℕ → TraceeTable
remove_tracee table pid = elim (find_tracee table pid) [
  | some i ↦ deactivate table i
  | none ↦ table
]

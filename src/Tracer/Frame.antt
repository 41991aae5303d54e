-- ===== src/Tracer/Frame.antt =====
-- A round changes the state of the process that it is about, and of no other.
use mini_strace.Base.{
  ℕ, ap, Bool, true, false, not, ◌&&◌, [], ◌∷◌, Option, none, some, ◌≡◌, sym, ◌∙◌, arith,
  if◌then◌else◌, ◌==◌, Option-cases, Bool-cases, inl, inr, get_elem?, set,
}
use mini_strace.Arch.{Regs}
use mini_strace.Tracees.{TraceeState, TraceeTable, tracks, add_tracee, find_tracee}
use mini_strace.Tracees.Lookup.{lookup, find_tracee-lookup, lookup-set_found, lookup-add_tracee}
use mini_strace.Tracees.Distinct.{
  IsDistinct, lookup-remove_tracee, add_tracee-IsDistinct, remove_tracee-IsDistinct,
  set_found-IsDistinct, find_tracee-add_tracee,
}
use mini_strace.Summary.{SummaryTable}
use mini_strace.Tracer.State.{
  Config, Kernel, Wait, wait_error, exited, killed, stopped, other_status, State,
}
use mini_strace.Tracer.Stops.{enter, leave}
use mini_strace.Tracer.Step.{
  syscall_stop, sigtrap, is_fork_event, on_exit, on_fork, on_signal, on_stop, on_syscall_stop, step,
  Round,
}

pub lookup-tracks :
    (table : TraceeTable) (pid : ℕ) (t : TraceeState)
    → lookup table pid ≡ some t
    → tracks t pid ≡ true
unfolding lookup
lookup-tracks [] pid t h = cc
lookup-tracks (u ∷ table) pid t h = ground (arith, lookup-tracks table pid t)

-- A process that is tracked stays as it is when any process is registered.
add_tracee-known :
    (table : TraceeTable) (pid q : ℕ) {t : TraceeState}
    → lookup table q ≡ some t
    → lookup (add_tracee table pid).0 q ≡ some t
add_tracee-known table pid q h = ground (arith, lookup-add_tracee table pid q)

-- What an index that registration returned leads to.
pub added_entry :
    (table : TraceeTable) (pid i : ℕ) (t : TraceeState)
    → (add_tracee table pid).1 ≡ some i
    → get_elem? (add_tracee table pid).0 i ≡ some t
    → (find_tracee (add_tracee table pid).0 pid ≡ some i) × (tracks t pid ≡ true)
added_entry table pid i t h g =
    let f = find_tracee-add_tracee table pid ∙ h in
    let at_i : lookup (add_tracee table pid).0 pid ≡ some t =
      sym (find_tracee-lookup (add_tracee table pid).0 pid) ∙ rw f g in
    (f, lookup-tracks (add_tracee table pid).0 pid t at_i)

module _ {T : Type 0} (cfg : Config T) where
  pub enter-tracks :
      (k : Kernel) (regs : Regs) (ts : TraceeState) (pid : ℕ)
      → tracks ts pid ≡ true
      → tracks (enter cfg k regs ts).0 pid ≡ true
  unfolding enter
  enter-tracks k regs ts pid h = ground arith

  leave-tracks :
      (k : Kernel) (regs : Regs) (ts : TraceeState) (table : SummaryTable T) (pid : ℕ)
      → tracks ts pid ≡ true
      → tracks (leave cfg k regs ts table).0 pid ≡ true
  unfolding leave
  leave-tracks k regs ts table pid h = ground arith

  -- What `on_stop` writes back tracks the same process.
  abbrev pub stop_state : State T → Kernel → Regs → TraceeState → TraceeState
  stop_state s k regs ts =
      if not ts.in_syscall then (enter cfg k regs ts).0 else (leave cfg k regs ts s.summary).0

  pub on_stop_table :
      (s : State T) (pid i : ℕ) (k : Kernel) (regs : Regs) (ts : TraceeState)
      → tracks ts pid ≡ true
      → ((on_stop cfg s pid i k regs ts).0.tracees ≡ set s.tracees i (stop_state s k regs ts))
        × (tracks (stop_state s k regs ts) pid ≡ true)
  unfolding on_stop
  on_stop_table s pid i k regs ts h =
      ground (arith, enter-tracks k regs ts pid, leave-tracks k regs ts s.summary pid)

  -- The table after a syscall-stop: the registered one, or that with the tracee's entry replaced.
  data StopTable (s : State T) (pid : ℕ) (table : TraceeTable) : Type 0 where
    kept : table ≡ (add_tracee s.tracees pid).0 → StopTable s pid table
    written :
        (i : ℕ) (t : TraceeState)
        → find_tracee (add_tracee s.tracees pid).0 pid ≡ some i
        → tracks t pid ≡ true
        → table ≡ set (add_tracee s.tracees pid).0 i t
        → StopTable s pid table

  -- A syscall-stop of a registered process whose registers can be read.
  pub on_syscall_stop_at :
      (s : State T) (pid i : ℕ) (k : Kernel) (regs : Regs) (ts : TraceeState)
      → (add_tracee s.tracees pid).1 ≡ some i
      → k.regs ≡ some regs
      → get_elem? (add_tracee s.tracees pid).0 i ≡ some ts
      → on_syscall_stop cfg s pid k
        ≡ on_stop cfg (record s { tracees = (add_tracee s.tracees pid).0 }) pid i k regs ts
  unfolding on_syscall_stop
  on_syscall_stop_at s pid i k regs ts e r g = ground arith

  on_syscall_stop-StopTable :
      (s : State T) (pid : ℕ) (k : Kernel) → StopTable s pid (on_syscall_stop cfg s pid k).0.tracees
  unfolding on_syscall_stop
  on_syscall_stop-StopTable s pid k = elim (Option-cases (add_tracee s.tracees pid).1) [
    | inl e ↦ kept (ground arith)
    | inr (i, e) ↦ elim (Option-cases k.regs) [
      | inl r ↦ kept (ground arith)
      | inr (regs, r) ↦ elim (Option-cases (get_elem? (add_tracee s.tracees pid).0 i)) [
        | inl g ↦ kept (ground arith)
        | inr (ts, g) ↦
            let (f, tr) = added_entry s.tracees pid i ts e g in
            let t = record s { tracees = (add_tracee s.tracees pid).0 } in
            let (w, good) = on_stop_table t pid i k regs ts tr in
            written i (stop_state t k regs ts) f good
              (ap (λ (r : Round T). r.0.tracees) (on_syscall_stop_at s pid i k regs ts e r g) ∙ w)
      ]
    ]
  ]

  StopTable-IsDistinct :
      (s : State T) (pid : ℕ) {table : TraceeTable}
      → StopTable s pid table
      → IsDistinct s.tracees
      → IsDistinct table
  StopTable-IsDistinct s pid (kept e) d = rw e (add_tracee-IsDistinct s.tracees pid d)
  StopTable-IsDistinct s pid (written i t f tr e) d =
      rw e (set_found-IsDistinct _ pid i t (add_tracee-IsDistinct s.tracees pid d) f tr)

  on_fork-IsDistinct :
      (s : State T) (pid : ℕ) (msg : Option ℕ)
      → IsDistinct s.tracees
      → IsDistinct (on_fork cfg s pid msg).0.tracees
  unfolding on_fork
  on_fork-IsDistinct s pid none d = d
  on_fork-IsDistinct s pid (some child) d = elim (Option-cases (add_tracee s.tracees child).1) [
    | inl e ↦ rw (e, on_fork) (add_tracee-IsDistinct s.tracees child d)
    | inr (i, e) ↦ rw (e, on_fork) (add_tracee-IsDistinct s.tracees child d)
  ]

  -- A round about a stop ends in the table of one of its three branches.
  pub stopped_cases :
      (P : TraceeTable → Type 0) (s : State T) (pid sig event : ℕ) (k : Kernel)
      → P (on_fork cfg s pid k.event_msg).0.tracees
      → P (add_tracee s.tracees pid).0
      → ((sig == syscall_stop) ≡ true → P (on_syscall_stop cfg s pid k).0.tracees)
      → P (step cfg s (stopped pid sig event k)).0.tracees
  unfolding step on_signal
  stopped_cases P s pid sig event k fork signal stop =
      elim (Bool-cases (cfg.follow_forks && (sig == sigtrap && is_fork_event event))) [
        | inl f ↦ rw f fork
        | inr f ↦ rw f (elim (Bool-cases (not (sig == syscall_stop))) [
          | inl g ↦ rw g signal
          | inr g ↦ rw g (stop (ground arith))
        ])
      ]

  -- Every round keeps a table in which no two entries track one process so.
  pub step-IsDistinct :
      (s : State T) (w : Wait) → IsDistinct s.tracees → IsDistinct (step cfg s w).0.tracees
  unfolding step on_exit
  step-IsDistinct s (wait_error e) d = d
  step-IsDistinct s (exited pid code) d = remove_tracee-IsDistinct s.tracees pid d
  step-IsDistinct s (killed pid sig) d = remove_tracee-IsDistinct s.tracees pid d
  step-IsDistinct s (other_status pid) d = d
  step-IsDistinct s (stopped pid sig event k) d =
      stopped_cases IsDistinct s pid sig event k (on_fork-IsDistinct s pid k.event_msg d)
        (add_tracee-IsDistinct s.tracees pid d)
        (λ at_stop. StopTable-IsDistinct s pid (on_syscall_stop-StopTable s pid k) d)

  StopTable-other :
      (s : State T) (pid q : ℕ) (t : TraceeState) {table : TraceeTable}
      → StopTable s pid table
      → (q == pid) ≡ false
      → lookup s.tracees q ≡ some t
      → lookup table q ≡ some t
  StopTable-other s pid q t (kept e) ne h = rw e (add_tracee-known s.tracees pid q h)
  StopTable-other s pid q t (written i u f tr e) ne h = rw e (
      lookup-set_found (add_tracee s.tracees pid).0 pid i u q f tr
      ∙ rw ne (add_tracee-known s.tracees pid q h))

  on_fork-other :
      (s : State T) (pid q : ℕ) (t : TraceeState) (msg : Option ℕ)
      → lookup s.tracees q ≡ some t
      → lookup (on_fork cfg s pid msg).0.tracees q ≡ some t
  unfolding on_fork
  on_fork-other s pid q t none h = h
  on_fork-other s pid q t (some child) h = elim (Option-cases (add_tracee s.tracees child).1) [
    | inl e ↦ rw (e, on_fork) (add_tracee-known s.tracees child q h)
    | inr (i, e) ↦ rw (e, on_fork) (add_tracee-known s.tracees child q h)
  ]

  -- The process that a report is about.
  abbrev pub concerns : Wait → ℕ → Bool
  concerns (wait_error e) q = false
  concerns (exited pid code) q = q == pid
  concerns (killed pid sig) q = q == pid
  concerns (stopped pid sig event k) q = q == pid
  concerns (other_status pid) q = q == pid

  -- Where no two entries of the table track one process, a round about another process leaves the
  -- state of a tracked process as it was, also a round that registers, removes or decodes another
  -- one.
  pub step_frame :
      (s : State T) (w : Wait) (q : ℕ) (t : TraceeState)
      → IsDistinct s.tracees
      → concerns w q ≡ false
      → lookup s.tracees q ≡ some t
      → lookup (step cfg s w).0.tracees q ≡ some t
  unfolding step on_exit
  step_frame s (wait_error e) q t d ne h = h
  step_frame s (exited pid code) q t d ne h = lookup-remove_tracee s.tracees pid q d ∙ rw ne h
  step_frame s (killed pid sig) q t d ne h = lookup-remove_tracee s.tracees pid q d ∙ rw ne h
  step_frame s (other_status pid) q t d ne h = h
  step_frame s (stopped pid sig event k) q t d ne h =
      stopped_cases (λ table. lookup table q ≡ some t) s pid sig event k
        (on_fork-other s pid q t k.event_msg h) (add_tracee-known s.tracees pid q h)
        (λ at_stop. StopTable-other s pid q t (on_syscall_stop-StopTable s pid k) ne h)

-- ===== src/Tracer/Calls.antt =====
-- One system call of one process, from its entry stop to its exit stop, whatever rounds about other
-- processes the loop makes in between.
use mini_strace.Base.{
  ℕ, true, false, not, ◌||◌, List, [], ◌∷◌, ◌++◌, some, ◌≡◌, refl, ◌∙◌, arith, if◌then◌else◌,
  Option-cases, inl, inr, get_elem?,
}
use mini_strace.Arch.{Regs}
use mini_strace.Filter.{syscall_allowed}
use mini_strace.Tracees.{TraceeState, TraceeTable, add_tracee, find_tracee}
use mini_strace.Tracees.Lookup.{lookup, find_tracee-lookup, find_tracee-none, lookup-set_found}
use mini_strace.Tracees.Distinct.{IsDistinct}
use mini_strace.Tracer.State.{Config, Kernel, Wait, stopped, Action, State, resume}
use mini_strace.Tracer.Stops.{enter, leave, result_line}
use mini_strace.Tracer.Step.{syscall_stop, on_stop, on_syscall_stop, step}
use mini_strace.Tracer.Frame.{concerns, step_frame, step-IsDistinct, lookup-tracks, enter-tracks}
use mini_strace.Tracer.Pairing.{enter-leave, whole_call, call_name, entered}

known_index :
    (table : TraceeTable) (pid : ℕ) (t : TraceeState)
    → lookup table pid ≡ some t
    → (i : ℕ) × (find_tracee table pid ≡ some i) × (get_elem? table i ≡ some t)
known_index table pid t h = elim (Option-cases (find_tracee table pid)) [
  | inl e ↦ absurd (cc (h, (find_tracee-none table pid).0 e))
  | inr (i, e) ↦ (i, e, rw e at (find_tracee-lookup table pid ∙ h))
]

add_tracee-found :
    (table : TraceeTable) (pid i : ℕ)
    → find_tracee table pid ≡ some i
    → add_tracee table pid ≡ (table, some i)
unfolding add_tracee
add_tracee-found table pid i e = rw (e, add_tracee) refl

module _ {T : Type 0} (cfg : Config T) where
  -- Rounds that go on and that are about other processes than `q`.
  pub data Others (q : ℕ) : State T → State T → Type 0 where
    done : {s : State T} → Others q s s
    round :
        {s u : State T} (w : Wait)
        → concerns cfg w q ≡ false
        → (step cfg s w).2 ≡ true
        → Others q (step cfg s w).0 u
        → Others q s u

  Others-frame :
      (q : ℕ) (t : TraceeState) {s u : State T}
      → Others q s u
      → IsDistinct s.tracees
      → lookup s.tracees q ≡ some t
      → lookup u.tracees q ≡ some t
  Others-frame q t done d h = h
  Others-frame q t (round {s} w ne on rest) d h =
      Others-frame q t rest (step-IsDistinct cfg s w d) (step_frame cfg s w q t d ne h)

  -- The round of a syscall-stop of a process that the table has.
  step_known :
      (s : State T) (pid event : ℕ) (k : Kernel) (regs : Regs) (t : TraceeState)
      → lookup s.tracees pid ≡ some t
      → k.regs ≡ some regs
      → (i : ℕ) × (find_tracee s.tracees pid ≡ some i)
        × (step cfg s (stopped pid syscall_stop event k) ≡ on_stop cfg s pid i k regs t)
  unfolding step on_syscall_stop
  step_known s pid event k regs t h r =
      let (i, f, g) = known_index s.tracees pid t h in
      (i, f, ground (arith, add_tracee-found s.tracees pid i f))

  -- The round of the entry stop of a process outside any call.
  entry_round :
      (s : State T) (pid event : ℕ) (k : Kernel) (regs : Regs) (t : TraceeState)
      → lookup s.tracees pid ≡ some t
      → t.in_syscall ≡ false
      → k.regs ≡ some regs
      → ((step cfg s (stopped pid syscall_stop event k)).1
          ≡ (enter cfg k regs t).1 ++ resume pid 0 ∷ [])
        × (lookup (step cfg s (stopped pid syscall_stop event k)).0.tracees pid
            ≡ some (enter cfg k regs t).0)
  unfolding on_stop
  entry_round s pid event k regs t h out r =
      let (i, f, e) = step_known s pid event k regs t h r in
      let tr = enter-tracks cfg k regs t pid (lookup-tracks s.tracees pid t h) in
      ground (arith, lookup-set_found s.tracees pid i (enter cfg k regs t).0 pid f tr)

  exit_round :
      (s : State T) (pid event : ℕ) (k : Kernel) (regs : Regs) (t : TraceeState)
      → lookup s.tracees pid ≡ some t
      → t.in_syscall ≡ true
      → k.regs ≡ some regs
      → (step cfg s (stopped pid syscall_stop event k)).1
        ≡ (leave cfg k regs t s.summary).2 ++ resume pid 0 ∷ []
  unfolding on_stop
  exit_round s pid event k regs t h inside r =
      let (i, f, e) = step_known s pid event k regs t h r in ground arith

  enter-in_syscall :
      (k : Kernel) (regs : Regs) (t : TraceeState) → (enter cfg k regs t).0.in_syscall ≡ true
  unfolding enter
  enter-in_syscall k regs t = ground arith

  -- In a table in which no two entries track one process, a tracked process outside any call stops
  -- at the entry and then at the exit of one system call, the registers can be read at both stops,
  -- and the rounds in between are about other processes and keep the loop going. Then the two
  -- rounds write, besides resuming the process at the end of each: nothing if the filter rejects
  -- the call or `-c` is given, and else exactly the call line of that entry stop (from the exit
  -- stop as well, for a call that waits for it) and then the result of that exit stop.
  pub call_across_rounds :
      (s u : State T) (pid event event' : ℕ) (k k' : Kernel) (regs regs' : Regs) (t : TraceeState)
      → IsDistinct s.tracees
      → lookup s.tracees pid ≡ some t
      → t.in_syscall ≡ false
      → k.regs ≡ some regs
      → k'.regs ≡ some regs'
      → Others pid (step cfg s (stopped pid syscall_stop event k)).0 u
      → (first : List (Action T)) × (second : List (Action T)) × ((step cfg s
            (stopped pid syscall_stop event k)).1
          ≡ first ++ resume pid 0 ∷ [])
        × ((step cfg u (stopped pid syscall_stop event' k')).1 ≡ second ++ resume pid 0 ∷ [])
        × (first ++ second ≡ (
            if not (syscall_allowed cfg.filter_tokens (call_name cfg k k' regs regs' t))
              || cfg.summary_mode
            then []
            else whole_call cfg k k' regs regs' t
              ∷ result_line cfg k' regs' (entered cfg k k' regs regs' t)
              ∷ []))
  call_across_rounds s u pid event event' k k' regs regs' t d h out r r' others =
      let (wrote, there) = entry_round s pid event k regs t h out r in
      let d' = step-IsDistinct cfg s (stopped pid syscall_stop event k) d in
      let still = Others-frame pid (enter cfg k regs t).0 others d' there in
      (
        (enter cfg k regs t).1,
        (leave cfg k' regs' (enter cfg k regs t).0 u.summary).2,
        wrote,
        exit_round u pid event' k' regs' (enter cfg k regs t).0 still (enter-in_syscall k regs t)
            r',
        (enter-leave cfg k k' regs regs' t u.summary).0,
      )

-- ===== src/Tracer/Names.antt =====
-- What an exit stop takes from the state of its process, against the reports of the rounds before.
use mini_strace.Base.{
  if_keeps, ℕ, ap, Bool, true, false, not, Option, none, some, List, [], ◌∷◌, ◌≡◌, if◌then◌else◌,
  refl, sym, ◌∙◌, arith, ◌==◌, ◌&&◌, Option-cases, Bool-cases, inl, inr, get_elem?, set, ◌⊎◌, subst,
}
use mini_strace.Arch.{Regs}
use mini_strace.Filter.{syscall_allowed}
use mini_strace.Dispatch.Pending.{is_some, is_pending, outputs_of, no_pending}
use mini_strace.Tracees.{
  TraceeState, TraceeTable, Timespec, tracks, fresh, add_tracee, remove_tracee, find_tracee,
  free_slot,
}
use mini_strace.Tracees.Lookup.{lookup, registered, lookup-set_found, lookup-add_tracee}
use mini_strace.Tracees.Distinct.{IsDistinct, lookup-remove_tracee}
use mini_strace.Summary.{SummaryTable}
use mini_strace.Tracer.State.{
  Config, Kernel, Wait, wait_error, exited, killed, stopped, other_status, State,
}
use mini_strace.Tracer.Stops.{enter, leave, is_timed}
use mini_strace.Tracer.Step.{on_exit, on_fork, on_syscall_stop, step, syscall_stop}
use mini_strace.Tracer.Frame.{
  stop_state, on_stop_table, stopped_cases, added_entry, on_syscall_stop_at,
}

-- One of some reports.
unfoldable pub IsAmong : Wait → List Wait → Type 0
IsAmong w [] = false ≡ true
IsAmong w (v ∷ ws) = (w ≡ v) ⊎ IsAmong w ws

module _ {T : Type 0} (cfg : Config T) where
  -- What a tracee holds of the call that its registers give at a stop where the kernel answers `k`.
  abbrev pub HoldsCall : Kernel → Regs → TraceeState → Type 0
  HoldsCall k regs t =
      let name = cfg.syscall_name regs.syscall_no in
      let waits = syscall_allowed cfg.filter_tokens name && is_pending (outputs_of name) in
      (t.suppressed ≡ not (syscall_allowed cfg.filter_tokens name))
      × (t.current_name ≡ some name)
      × (t.entry_time ≡ (if is_timed cfg then k.now else t.entry_time))
      × (((waits ≡ false) × (t.pending ≡ no_pending))
          ⊎ ((waits ≡ true)
              × (t.pending ≡ outputs_of name)
              × (t.pending_name ≡ some name)
              × (t.pending_args ≡ regs.args)))

  -- A tracee inside a call holds the call that one of the reports of a syscall stop of this process
  -- gives.
  abbrev pub Entered : List Wait → ℕ → TraceeState → Type 0
  Entered seen pid t =
      t.in_syscall ≡ true
      → (event : ℕ) × (k : Kernel) × (regs : Regs) × IsAmong (stopped pid syscall_stop event k) seen
        × (k.regs ≡ some regs)
        × HoldsCall k regs t

  abbrev pub AllEntered : List Wait → TraceeTable → Type 0
  AllEntered seen table =
      (pid : ℕ) (t : TraceeState) → lookup table pid ≡ some t → Entered seen pid t

entry_time_lem :
    (timed : Bool) (now before : Timespec)
    → (if timed then now else before) ≡ (if timed then now else (if timed then now else before))
entry_time_lem true now before = refl
entry_time_lem false now before = refl

registered_cases :
    (before : Option TraceeState) (room : Bool) (pid : ℕ) (t : TraceeState)
    → registered before room pid ≡ some t
    → (before ≡ some t) ⊎ (fresh pid ≡ t)
registered_cases (some u) room pid t e = inl e
registered_cases none true pid t e = inr cc
registered_cases none false pid t e = absurd cc

module _ {T : Type 0} (cfg : Config T) (seen : List Wait) where
  pub add_tracee-AllEntered :
      (table : TraceeTable) (pid : ℕ)
      → AllEntered cfg seen table
      → AllEntered cfg seen (add_tracee table pid).0
  add_tracee-AllEntered table pid h q t e = elim (Bool-cases (q == pid)) [
    | inr other ↦ h q t (sym (lookup-add_tracee table pid q ∙ rw other refl) ∙ e)
    | inl same ↦
        elim (registered_cases (lookup table pid) (is_some (free_slot table)) pid t
          (sym (lookup-add_tracee table pid q ∙ rw same refl) ∙ e)) [
            | inl before ↦
                let same_pid : q ≡ pid = ground arith in
                subst (λ p. Entered cfg seen p t) (sym same_pid) (h pid t before)
            | inr new ↦ λ inside. absurd (cc (ap (λ (u : TraceeState). u.in_syscall) new, inside))
          ]
  ]

  remove_tracee-AllEntered :
      (table : TraceeTable) (pid : ℕ)
      → IsDistinct table
      → AllEntered cfg seen table
      → AllEntered cfg seen (remove_tracee table pid)
  remove_tracee-AllEntered table pid d h q t e = elim (Bool-cases (q == pid)) [
    | inr other ↦ h q t (sym (lookup-remove_tracee table pid q d ∙ rw other refl) ∙ e)
    | inl same ↦
        let gone : lookup (remove_tracee table pid) q ≡ none =
          lookup-remove_tracee table pid q d ∙ rw same refl in
        absurd cc
  ]

  set_found-AllEntered :
      (table : TraceeTable) (pid i : ℕ) (u : TraceeState)
      → find_tracee table pid ≡ some i
      → tracks u pid ≡ true
      → Entered cfg seen pid u
      → AllEntered cfg seen table
      → AllEntered cfg seen (set table i u)
  set_found-AllEntered table pid i u f tr n h q t e = elim (Bool-cases (q == pid)) [
    | inr other ↦ h q t (sym (lookup-set_found table pid i u q f tr ∙ rw other refl) ∙ e)
    | inl same ↦
        let new : u ≡ t =
          some_injective (sym (lookup-set_found table pid i u q f tr ∙ rw same refl) ∙ e) in
        let same_pid : q ≡ pid = ground arith in
        subst (λ p. Entered cfg seen p t) (sym same_pid) (subst (Entered cfg seen pid) new n)
  ]
    where
      some_injective : {a b : TraceeState} → some a ≡ some b → a ≡ b
      some_injective k = cc

  enter-HoldsCall :
      (k : Kernel) (regs : Regs) (ts : TraceeState) → HoldsCall cfg k regs (enter cfg k regs ts).0
  unfolding enter
  enter-HoldsCall k regs ts =
      let name = cfg.syscall_name regs.syscall_no in
      let time = entry_time_lem (is_timed cfg) k.now ts.entry_time in
      elim (Bool-cases (syscall_allowed cfg.filter_tokens name)) [
        | inr rejected ↦ rw (rejected, enter) (refl, refl, time, inl (refl, refl))
        | inl allowed ↦ elim (Bool-cases (is_pending (outputs_of name))) [
          | inl waits ↦ rw (allowed, waits, enter) (refl, refl, time, inr (refl, refl, refl, refl))
          | inr now ↦ rw (allowed, now, enter) (refl, refl, time, inl (refl, refl))
        ]
      ]

  leave-in_syscall :
      (k : Kernel) (regs : Regs) (ts : TraceeState) (table : SummaryTable T)
      → (leave cfg k regs ts table).0.in_syscall ≡ false
  unfolding leave
  leave-in_syscall k regs ts table = ground arith

  stop_state-Entered :
      (s : State T) (pid event : ℕ) (k : Kernel) (regs : Regs) (ts : TraceeState)
      → IsAmong (stopped pid syscall_stop event k) seen
      → k.regs ≡ some regs
      → Entered cfg seen pid (stop_state cfg s k regs ts)
  stop_state-Entered s pid event k regs ts r e =
      if_keeps (Entered cfg seen pid) (not ts.in_syscall) _ _
        (λ inside. (event, k, regs, r, e, enter-HoldsCall k regs ts))
        (λ again. absurd (cc (leave-in_syscall k regs ts s.summary, again)))

  on_syscall_stop-AllEntered :
      (s : State T) (pid event : ℕ) (k : Kernel)
      → IsAmong (stopped pid syscall_stop event k) seen
      → AllEntered cfg seen s.tracees
      → AllEntered cfg seen (on_syscall_stop cfg s pid k).0.tracees
  unfolding on_syscall_stop
  on_syscall_stop-AllEntered s pid event k among h =
      let added = add_tracee-AllEntered s.tracees pid h in
      elim (Option-cases (add_tracee s.tracees pid).1) [
        | inl e ↦ rw (e, on_syscall_stop) added
        | inr (i, e) ↦ elim (Option-cases k.regs) [
          | inl r ↦ rw (e, r, on_syscall_stop) added
          | inr (regs, r) ↦ elim (Option-cases (get_elem? (add_tracee s.tracees pid).0 i)) [
            | inl g ↦ rw (e, r, g, on_syscall_stop) added
            | inr (ts, g) ↦
                let (f, tr) = added_entry s.tracees pid i ts e g in
                let t = record s { tracees = (add_tracee s.tracees pid).0 } in
                let (w, good) = on_stop_table cfg t pid i k regs ts tr in
                let at_stop = on_syscall_stop_at cfg s pid i k regs ts e r g in
                rw (at_stop, w)
                  (set_found-AllEntered (add_tracee s.tracees pid).0 pid i
                    (stop_state cfg t k regs ts) f good
                    (stop_state-Entered t pid event k regs ts among r) added)
          ]
        ]
      ]

  on_fork-AllEntered :
      (s : State T) (pid : ℕ) (msg : Option ℕ)
      → AllEntered cfg seen s.tracees
      → AllEntered cfg seen (on_fork cfg s pid msg).0.tracees
  unfolding on_fork
  on_fork-AllEntered s pid none h = h
  on_fork-AllEntered s pid (some child) h = elim (Option-cases (add_tracee s.tracees child).1) [
    | inl e ↦ rw (e, on_fork) (add_tracee-AllEntered s.tracees child h)
    | inr (i, e) ↦ rw (e, on_fork) (add_tracee-AllEntered s.tracees child h)
  ]

  -- Every round keeps this of a table in which no two entries track one process, for any list of
  -- reports with the round's own: each tracked process that is inside a call holds what one of the listed
  -- reports of a syscall stop of this very process gives. The name of the call in that report's registers
  -- is stored, and the process is marked as suppressed exactly if the filter does not allow it; under -T
  -- or -c the entry time is the time of that stop. If the filter allows the call and the kernel fills in
  -- some of its arguments, exactly those are pending, with the name of the call as the pending name and
  -- the arguments in the registers as the pending arguments; else nothing is pending.
  pub step-AllEntered :
      (s : State T) (w : Wait)
      → IsAmong w seen
      → IsDistinct s.tracees
      → AllEntered cfg seen s.tracees
      → AllEntered cfg seen (step cfg s w).0.tracees
  unfolding step on_exit
  step-AllEntered s (wait_error e) among d h = h
  step-AllEntered s (exited pid code) among d h = remove_tracee-AllEntered s.tracees pid d h
  step-AllEntered s (killed pid sig) among d h = remove_tracee-AllEntered s.tracees pid d h
  step-AllEntered s (other_status pid) among d h = h
  step-AllEntered s (stopped pid sig event k) among d h =
      stopped_cases cfg (AllEntered cfg seen) s pid sig event k
        (on_fork-AllEntered s pid k.event_msg h) (add_tracee-AllEntered s.tracees pid h)
        (λ at_stop.
          let is_stop : sig ≡ syscall_stop = ground arith in
          let among_stops = subst (λ n. IsAmong (stopped pid n event k) seen) is_stop among in
          on_syscall_stop-AllEntered s pid event k among_stops h)

-- ===== src/Tracer/Resume.antt =====
-- Every stopped process is let go on, once and by the right signal.
use mini_strace.Base.{ℕ, ◌+◌, ◌<◌, true, ◌||◌, List, [], ◌∷◌, ◌++◌, ◌≡◌, arith, if◌then◌else◌, ◌==◌}
use mini_strace.Arch.{Regs}
use mini_strace.Tracees.{TraceeState}
use mini_strace.Summary.{SummaryTable}
use mini_strace.Tracer.State.{
  Config, Kernel, Wait, wait_error, exited, killed, stopped, other_status, Action, State, new_child,
  resume,
}
use mini_strace.Tracer.Stops.{enter, leave, print_call, deferred_call, result_line}
use mini_strace.Tracer.Step.{
  sigtrap, syscall_stop, on_exit, on_fork, on_signal, on_stop, on_syscall_stop, step,
}

module _ {T : Type 0} where
  -- The pids and signals of the PTRACE_SYSCALL requests among some actions.
  abbrev pub resumes : List (Action T) → List (ℕ × ℕ)
  resumes [] = []
  resumes (resume pid sig ∷ actions) = (pid, sig) ∷ resumes actions
  resumes (_ ∷ actions) = resumes actions

  -- The processes announced among some actions.
  abbrev pub announced : List (Action T) → ℕ
  announced [] = 0
  announced (new_child pid ∷ actions) = announced actions + 1
  announced (_ ∷ actions) = announced actions

module _ {T : Type 0} (cfg : Config T) where
  enter_quiet :
      (k : Kernel) (regs : Regs) (ts : TraceeState) (pid : ℕ)
      → (resumes ((enter cfg k regs ts).1 ++ resume pid 0 ∷ []) ≡ (pid, 0) ∷ [])
        × (announced ((enter cfg k regs ts).1 ++ resume pid 0 ∷ []) ≡ 0)
  unfolding enter print_call
  enter_quiet k regs ts pid = ground arith

  leave_quiet :
      (k : Kernel) (regs : Regs) (ts : TraceeState) (table : SummaryTable T) (pid : ℕ)
      → (resumes ((leave cfg k regs ts table).2 ++ resume pid 0 ∷ []) ≡ (pid, 0) ∷ [])
        × (announced ((leave cfg k regs ts table).2 ++ resume pid 0 ∷ []) ≡ 0)
  unfolding leave print_call deferred_call result_line
  leave_quiet k regs ts table pid = ground arith

  on_syscall_stop_quiet :
      (s : State T) (pid : ℕ) (k : Kernel)
      → (resumes (on_syscall_stop cfg s pid k).1 ≡ (pid, 0) ∷ [])
        × (announced (on_syscall_stop cfg s pid k).1 ≡ 0)
        × ((on_syscall_stop cfg s pid k).0.active_count ≡ s.active_count)
        × ((on_syscall_stop cfg s pid k).2 ≡ true)
  unfolding on_syscall_stop on_stop
  on_syscall_stop_quiet s pid k = grind (arith, enter_quiet, leave_quiet)

  -- The signal that a stop passes on: none where the tracer itself caused the stop.
  abbrev pub passed_on : ℕ → ℕ
  passed_on stopsig = if stopsig == sigtrap || stopsig == syscall_stop then 0 else stopsig

  -- A stopped process is resumed exactly once in the round that reports it, on every branch, whether or
  -- not the table has room for it and its registers can be read; it is given the signal of the stop, or
  -- none if the stop is a syscall-stop or a SIGTRAP. The loop goes on.
  pub step-resumes_stopped :
      (s : State T) (pid stopsig event : ℕ) (k : Kernel)
      → (resumes (step cfg s (stopped pid stopsig event k)).1 ≡ (pid, passed_on stopsig) ∷ [])
        × ((step cfg s (stopped pid stopsig event k)).2 ≡ true)
  unfolding step on_fork on_signal
  step-resumes_stopped s pid stopsig event k = ground (arith, on_syscall_stop_quiet s pid k)

  -- The processes that a report says are gone.
  abbrev pub gone : Wait → ℕ
  gone (exited pid code) = 1
  gone (killed pid sig) = 1
  gone _ = 0

  -- From a state that counts a process at least, as the loop keeps it, a round changes
  -- `active_count` by the children that it announces, less the process that its report says is
  -- gone.
  pub step_active_count :
      (s : State T) (w : Wait)
      → 0 < s.active_count
      → (step cfg s w).0.active_count + gone w ≡ s.active_count + announced (step cfg s w).1
  unfolding step on_exit on_fork on_signal
  step_active_count s (wait_error e) h = ground arith
  step_active_count s (exited pid code) h = ground arith
  step_active_count s (killed pid sig) h = ground arith
  step_active_count s (other_status pid) h = ground arith
  step_active_count s (stopped pid sig event k) h = ground (arith, on_syscall_stop_quiet s pid k)

-- ===== src/Tracer/Step.antt =====
-- src/mini_strace.c, `run_tracer`: one round of the loop over `waitpid`, and the loop.
use mini_strace.Base.{
  ℕ, ◌+◌, ◌-◌, Bool, true, not, ◌&&◌, ◌||◌, List, [], ◌∷◌, ◌++◌, Option, none, some, if◌then◌else◌,
  ◌==◌, leb, get_elem?, set,
}
use mini_strace.Arch.{Regs}
use mini_strace.Tracees.{TraceeState, add_tracee, remove_tracee, empty_table}
use mini_strace.Tracer.State.{
  Config, Kernel, Wait, wait_error, exited, killed, stopped, other_status, Action, State,
  signal_line, process_exited, process_killed, pid_exited, pid_killed, all_exited, new_child,
  resume,
}
use mini_strace.Tracer.Stops.{enter, leave, prefix_of}

abbrev pub sigtrap : ℕ
sigtrap = 5

-- `SIGTRAP | 0x80`, the stop signal of a syscall-stop under PTRACE_O_TRACESYSGOOD
abbrev pub syscall_stop : ℕ
syscall_stop = 0x85

-- PTRACE_EVENT_FORK, PTRACE_EVENT_VFORK, PTRACE_EVENT_CLONE
abbrev pub is_fork_event : ℕ → Bool
is_fork_event event = event == 1 || (event == 2 || event == 3)

-- A round's new state, its actions in order, and whether the loop goes on.
abbrev pub Round : Type 0 → Type 0
Round T = State T × List (Action T) × Bool

module _ {T : Type 0} (cfg : Config T) where
  abbrev pub exit_line : State T → ℕ → ℕ → List (Action T)
  exit_line s pid code =
      if cfg.follow_forks then pid_exited pid code ∷ [] else process_exited code s.call_count ∷ []

  abbrev pub kill_line : ℕ → ℕ → List (Action T)
  kill_line pid sig = if cfg.follow_forks then pid_killed pid sig ∷ [] else process_killed sig ∷ []

  -- WIFEXITED or WIFSIGNALED, with the line that says so.
  unfoldable pub on_exit : State T → ℕ → List (Action T) → Round T
  on_exit s pid line =
      let left = record s {
        tracees = remove_tracee s.tracees pid;
        active_count = s.active_count - 1;
      } in
      (
        left,
        line
            ++ (if cfg.follow_forks && leb left.active_count 0
                then all_exited s.call_count ∷ []
                else []),
        not (leb left.active_count 0),
      )

  -- A fork, vfork or clone event under -f.
  unfoldable pub on_fork : State T → ℕ → Option ℕ → Round T
  on_fork s pid none = (s, resume pid 0 ∷ [], true)
  on_fork s pid (some new_pid) =
      let added = add_tracee s.tracees new_pid in
      elim added.1 [
        | some i ↦ (
          record s { tracees = added.0; active_count = s.active_count + 1 },
          new_child new_pid ∷ resume pid 0 ∷ [],
          true,
        )
        | none ↦ (record s { tracees = added.0 }, resume pid 0 ∷ [], true)
      ]

  -- A stop that is no syscall-stop: the signal is passed on, but for SIGTRAP.
  unfoldable pub on_signal : State T → ℕ → ℕ → Round T
  on_signal s pid stopsig =
      let deliver = if not (stopsig == sigtrap) then stopsig else 0 in
      (
        record s { tracees = (add_tracee s.tracees pid).0 },
        (if not (deliver == 0) then signal_line (prefix_of cfg pid) deliver ∷ [] else [])
            ++ resume pid deliver ∷ [],
        true,
      )

  -- The entry or the exit stop of the tracee at index `i`.
  unfoldable pub on_stop : State T → ℕ → ℕ → Kernel → Regs → TraceeState → Round T
  on_stop s pid i k regs ts =
      if not ts.in_syscall
      then (
        record s {
          tracees = set s.tracees i (enter cfg k regs ts).0;
          call_count = s.call_count + 1;
        },
        (enter cfg k regs ts).1 ++ resume pid 0 ∷ [],
        true,
      )
      else (
        record s {
          tracees = set s.tracees i (leave cfg k regs ts s.summary).0;
          summary = (leave cfg k regs ts s.summary).1;
        },
        (leave cfg k regs ts s.summary).2 ++ resume pid 0 ∷ [],
        true,
      )

  -- A syscall-stop: nothing is done but to resume where the table is full or the registers cannot be
  -- read.
  unfoldable pub on_syscall_stop : State T → ℕ → Kernel → Round T
  on_syscall_stop s pid k =
      let added = add_tracee s.tracees pid in
      let t = record s { tracees = added.0 } in
      elim added.1 [
        | none ↦ (t, resume pid 0 ∷ [], true)
        | some i ↦ elim k.regs [
          | none ↦ (t, resume pid 0 ∷ [], true)
          | some regs ↦ elim (get_elem? t.tracees i) [
            | none ↦ (t, resume pid 0 ∷ [], true)
            | some ts ↦ on_stop t pid i k regs ts
          ]
        ]
      ]

  -- One round.
  unfoldable pub step : State T → Wait → Round T
  step s (wait_error is_echild) = (s, [], not is_echild)
  step s (exited pid code) = on_exit s pid (exit_line s pid code)
  step s (killed pid sig) = on_exit s pid (kill_line pid sig)
  step s (other_status pid) = (s, [], true)
  step s (stopped pid stopsig event k) =
      if cfg.follow_forks && (stopsig == sigtrap && is_fork_event event)
      then on_fork s pid k.event_msg
      else if not (stopsig == syscall_stop)
      then on_signal s pid stopsig
      else on_syscall_stop s pid k

  -- The state before the first round.
  unfoldable pub start : ℕ → State T
  start child = record {
    tracees = (add_tracee empty_table child).0;
    active_count = 1;
    call_count = 0;
    summary = [];
  }

  -- The loop, on the reports of `waitpid` in order; it stops at the first round that leaves it.
  unfoldable pub run : State T → List Wait → State T × List (Action T)
  run s [] = (s, [])
  run s (w ∷ ws) =
      let round = step s w in
      let rest = run round.0 ws in
      if round.2 then (rest.0, round.1 ++ rest.1) else (round.0, round.1)

-- ===== src/Tests/Tracing.antt =====
-- src/mini_strace.c, `run_tracer`: two traced processes.
use mini_strace.Base.{
  ℕ, ◌+◌, ◌-◌, String, true, false, List, [], ◌∷◌, ◌++◌, some, ◌≡◌, refl, arith, if◌then◌else◌,
  ◌==◌, inl,
}
use mini_strace.Base.Int.{ℤ, pos, negsuc}
use mini_strace.Arch.{Regs}
use mini_strace.Filter.{syscall_allowed}
use mini_strace.Dispatch.Pending.{no_pending}
use mini_strace.Summary.{SummaryTable}
use mini_strace.Tracees.{TraceeState, fresh, zeroed, add_tracee, find_tracee, free_slot}
use mini_strace.Tracees.Lookup.{lookup}
use mini_strace.Tracees.Distinct.{IsDistinct}
use mini_strace.Tracer.State.{Wait, Config, Kernel, exited, stopped, Action, State, resume}
use mini_strace.Tracer.Stops.{enter, leave, result_line}
use mini_strace.Tracer.Step.{step, on_signal, run, start}
use mini_strace.Tracer.Frame.{step_frame, step-IsDistinct}
use mini_strace.Tracer.Resume.{step-resumes_stopped, step_active_count, resumes, announced}
use mini_strace.Tracer.Pairing.{enter-leave, whole_call, entered}
use mini_strace.Tracer.Names.{IsAmong, AllEntered, add_tracee-AllEntered, step-AllEntered}
use mini_strace.Tracer.Runs.{Sound, run-start-Sound}
use mini_strace.Tracer.Calls.{call_across_rounds, Others, done, round}

abbrev name_of : ℤ → String
name_of (pos n) = if n == 0 then "read" else "close"
name_of (negsuc n) = "unknown"

abbrev forks : Config ℕ
forks = record {
  follow_forks = true;
  show_timing = false;
  summary_mode = false;
  show_fd_paths = false;
  filter_tokens = [];
  syscall_name = name_of;
  zero_time = 0;
  plus = λ a b. a + b;
  elapsed = λ now before. now.tv_nsec - before.tv_nsec;
}

abbrev read_regs : ℤ → Regs
read_regs ret = record {
  syscall_no = pos 0;
  return_val = ret;
  args = 3 ∷ 0x1000 ∷ 64 ∷ 0 ∷ 0 ∷ 0 ∷ [];
}

abbrev answers : Regs → Kernel
answers regs = record {
  event_msg = some 11;
  regs = some regs;
  peek = λ a. some 0x4141;
  now = record { tv_sec = 1; tv_nsec = 5 };
}

abbrev two_running : State ℕ
two_running = record {
  tracees = fresh 7 ∷ fresh 9 ∷ [];
  active_count = 2;
  call_count = 0;
  summary = [];
}

two-IsDistinct : IsDistinct two_running.tracees
unfolding lookup
two-IsDistinct = ground arith

step-resumes_stopped_example :
    (resumes (step forks two_running (stopped 7 11 0 (answers (read_regs (pos 5))))).1
      ≡ (7, 11) ∷ [])
    × ((step forks two_running (stopped 7 11 0 (answers (read_regs (pos 5))))).2 ≡ true)
step-resumes_stopped_example =
    step-resumes_stopped forks two_running 7 11 0 (answers (read_regs (pos 5)))

step_active_count_example :
    (step forks two_running (exited 9 0)).0.active_count + 1
    ≡ 2 + announced (step forks two_running (exited 9 0)).1
step_active_count_example = step_active_count forks two_running (exited 9 0) (omega arith)

step-IsDistinct_example : IsDistinct (step forks two_running (exited 9 0)).0.tracees
step-IsDistinct_example = step-IsDistinct forks two_running (exited 9 0) two-IsDistinct

step_frame_example : lookup (step forks two_running (exited 9 0)).0.tracees 7 ≡ some (fresh 7)
unfolding lookup
step_frame_example = step_frame forks two_running (exited 9 0) 7 (fresh 7) two-IsDistinct refl refl

abbrev first_stop : State ℕ
first_stop = (step forks two_running (stopped 7 0x85 0 (answers (read_regs (pos 5))))).0

abbrev after_other : State ℕ
after_other = (step forks first_stop (stopped 9 17 0 (answers (read_regs (pos 5))))).0

Others-between : Others forks 7 first_stop after_other
unfolding step on_signal
Others-between = round (stopped 9 17 0 (answers (read_regs (pos 5)))) refl refl done

-- The process 7 reads while the process 9 gets a signal.
call_across_rounds_example :
    (first : List (Action ℕ)) × (second : List (Action ℕ)) × ((step forks two_running
        (stopped 7 0x85 0 (answers (read_regs (pos 5))))).1
      ≡ first ++ resume 7 0 ∷ [])
    × ((step forks after_other (stopped 7 0x85 0 (answers (read_regs (pos 5))))).1
        ≡ second ++ resume 7 0 ∷ [])
    × (first ++ second
        ≡ whole_call forks
            (answers (read_regs (pos 5)))
            (answers (read_regs (pos 5)))
            (read_regs (pos 5))
            (read_regs (pos 5))
            (fresh 7)
          ∷ result_line forks (answers (read_regs (pos 5))) (read_regs (pos 5)) (
              entered forks
                (answers (read_regs (pos 5)))
                (answers (read_regs (pos 5)))
                (read_regs (pos 5))
                (read_regs (pos 5))
                (fresh 7))
          ∷ [])
unfolding lookup syscall_allowed
call_across_rounds_example =
    call_across_rounds forks two_running after_other 7 0 0 (answers (read_regs (pos 5)))
      (answers (read_regs (pos 5))) (read_regs (pos 5)) (read_regs (pos 5)) (fresh 7) two-IsDistinct
      refl refl refl refl Others-between

abbrev read_entered : TraceeState
read_entered = (enter forks (answers (read_regs (pos 5))) (read_regs (pos 5)) (fresh 7)).0

abbrev read_left : TraceeState × SummaryTable ℕ × List (Action ℕ)
read_left = leave forks (answers (read_regs (pos 5))) (read_regs (pos 5)) read_entered []

enter-leave_example :
    ((enter forks (answers (read_regs (pos 5))) (read_regs (pos 5)) (fresh 7)).1 ++ read_left.2
      ≡ whole_call forks
          (answers (read_regs (pos 5)))
          (answers (read_regs (pos 5)))
          (read_regs (pos 5))
          (read_regs (pos 5))
          (fresh 7)
        ∷ result_line forks (answers (read_regs (pos 5))) (read_regs (pos 5)) read_entered
        ∷ [])
    × (read_left.1 ≡ [])
    × (read_left.0.in_syscall ≡ false)
    × (read_left.0.pending ≡ no_pending)
unfolding syscall_allowed
enter-leave_example =
    enter-leave forks (answers (read_regs (pos 5))) (answers (read_regs (pos 5)))
      (read_regs (pos 5)) (read_regs (pos 5)) (fresh 7) []

abbrev one_read_report : List Wait
one_read_report = stopped 7 0x85 0 (answers (read_regs (pos 5))) ∷ []

report-IsAmong : IsAmong (stopped 7 0x85 0 (answers (read_regs (pos 5)))) one_read_report
unfolding IsAmong
report-IsAmong = inl refl

two-AllEntered : AllEntered forks one_read_report two_running.tracees
unfolding lookup add_tracee find_tracee free_slot
two-AllEntered =
    add_tracee-AllEntered forks one_read_report (fresh 7 ∷ zeroed ∷ []) 9
      (add_tracee-AllEntered forks one_read_report (zeroed ∷ zeroed ∷ []) 7 (λ pid t e. absurd cc))

step-AllEntered_example :
    AllEntered forks one_read_report
      (step forks two_running (stopped 7 0x85 0 (answers (read_regs (pos 5))))).0.tracees
step-AllEntered_example =
    step-AllEntered forks one_read_report two_running
      (stopped 7 0x85 0 (answers (read_regs (pos 5)))) report-IsAmong two-IsDistinct two-AllEntered

abbrev one_read : List Wait
one_read =
    stopped 7 0x85 0 (answers (read_regs (pos 5)))
    ∷ stopped 7 0x85 0 (answers (read_regs (pos 5)))
    ∷ exited 7 0
    ∷ []

run-start-Sound_example : Sound forks one_read (run forks (start forks 7) one_read).0.tracees
run-start-Sound_example = run-start-Sound forks 7 one_read

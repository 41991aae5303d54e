-- ===== src/Tracer/Runs.antt =====
-- The loop from its start.
use mini_strace.Base.{ℕ, List, [], ◌∷◌, none, ◌≡◌, refl, Bool-cases, inl, inr}
use mini_strace.Tracees.{TraceeTable, empty_table}
use mini_strace.Tracees.Lookup.{lookup}
use mini_strace.Tracees.Distinct.{IsDistinct, empty_table-IsDistinct, add_tracee-IsDistinct}
use mini_strace.Tracer.State.{Config, Wait, State}
use mini_strace.Tracer.Step.{step, run, start}
use mini_strace.Tracer.Frame.{step-IsDistinct}
use mini_strace.Tracer.Names.{IsAmong, AllEntered, add_tracee-AllEntered, step-AllEntered}

empty_table-nothing : (pid : ℕ) → lookup empty_table pid ≡ none
unfolding lookup
empty_table-nothing pid = refl

IsAmong-later :
    (seen : List Wait) (w : Wait) (ws : List Wait)
    → ((v : Wait) → IsAmong v (w ∷ ws) → IsAmong v seen)
    → (v : Wait) → IsAmong v ws
    → IsAmong v seen
unfolding IsAmong
IsAmong-later seen w ws sub v h = sub v (inr h)

IsAmong-head : (w : Wait) (ws : List Wait) → IsAmong w (w ∷ ws)
unfolding IsAmong
IsAmong-head w ws = inl refl

module _ {T : Type 0} (cfg : Config T) where
  -- What every round of the loop can rely on.
  abbrev pub Sound : List Wait → TraceeTable → Type 0
  Sound seen table = IsDistinct table × AllEntered cfg seen table

  run-Sound :
      (seen : List Wait) (s : State T) (ws : List Wait)
      → ((v : Wait) → IsAmong v ws → IsAmong v seen)
      → Sound seen s.tracees
      → Sound seen (run cfg s ws).0.tracees
  unfolding run
  run-Sound seen s [] sub h = h
  run-Sound seen s (w ∷ ws) sub (d, n) =
      let next : Sound seen (step cfg s w).0.tracees =
        (step-IsDistinct cfg s w d, step-AllEntered cfg seen s w (sub w (IsAmong-head w ws)) d n) in
      elim (Bool-cases (step cfg s w).2) [
        | inl on ↦
            rw (on, run) (run-Sound seen (step cfg s w).0 ws (IsAmong-later seen w ws sub) next)
        | inr off ↦ rw (off, run) next
      ]

  -- Whatever `waitpid` has reported, and whatever the kernel has answered, the loop that starts with
  -- one child has a table in which no two entries track one process, and in which each process that is
  -- inside a call holds what one of these reports, of a syscall stop of this very process, gives: the
  -- name of the call in its registers; the mark of a suppressed call, exactly if the filter does not allow
  -- it; the time of that stop under -T or -c; and, if the call is allowed and the kernel fills in some
  -- of its arguments, exactly those as pending, with that name and the arguments in those registers as the
  -- pending ones, or else nothing pending.
  pub run-start-Sound :
      (child : ℕ) (ws : List Wait) → Sound ws (run cfg (start cfg child) ws).0.tracees
  unfolding start
  run-start-Sound child ws =
      run-Sound ws (start cfg child) ws (λ v h. h)
        (
          add_tracee-IsDistinct empty_table child empty_table-IsDistinct,
          add_tracee-AllEntered cfg ws empty_table child
              (λ pid t e. absurd (cc (empty_table-nothing pid, e))),
        )

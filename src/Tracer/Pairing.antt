-- ===== src/Tracer/Pairing.antt =====
-- What the two stops of one system call write together.
use mini_strace.Base.{
  String, false, not, ◌||◌, ◌&&◌, [], ◌∷◌, ◌++◌, ◌≡◌, refl, arith, if◌then◌else◌,
}
use mini_strace.Base.Int.{is_nonneg}
use mini_strace.Arch.{Regs}
use mini_strace.Filter.{syscall_allowed}
use mini_strace.Dispatch.Pending.{no_pending, outputs_of, is_pending}
use mini_strace.Dispatch.Entry.{decode_entry}
use mini_strace.Dispatch.Exit.{decode_exit, sockaddr_len}
use mini_strace.Tracees.{TraceeState}
use mini_strace.Summary.{SummaryTable, account}
use mini_strace.Tracer.State.{Config, Kernel, Action}
use mini_strace.Tracer.Stops.{
  enter, leave, print_call, deferred_call, result_line, fd_mask_of, is_timed,
}

is_pending-no_pending : is_pending no_pending ≡ false
unfolding is_pending
is_pending-no_pending = refl

module _ {T : Type 0} (cfg : Config T) (k k' : Kernel) (regs regs' : Regs) (ts : TraceeState) where
  abbrev pub entered : TraceeState
  entered = (enter cfg k regs ts).0

  -- The name of the call that the entry stop starts.
  abbrev pub call_name : String
  call_name = cfg.syscall_name regs.syscall_no

  -- The call line, written from the entry stop's arguments alone, or from the exit stop as well.
  abbrev pub whole_call : Action T
  whole_call =
      if is_pending (outputs_of call_name)
      then print_call cfg ts.pid call_name (
          decode_exit call_name (outputs_of call_name) (fd_mask_of cfg call_name) regs.args
            regs'.return_val
            (sockaddr_len k'.peek (outputs_of call_name) regs.args regs'.return_val))
      else print_call cfg ts.pid call_name
          (decode_entry call_name (fd_mask_of cfg call_name) regs.args)

  -- The time of the call.
  abbrev pub call_time : T
  call_time = if is_timed cfg then cfg.elapsed k'.now k.now else cfg.zero_time

  -- The entry stop and the exit stop of one system call together write nothing if the filter rejects it
  -- or `-c` is given, and else exactly one call line and then its result. The call is counted in the
  -- `-c` table exactly when it is allowed and `-c` is given, with the time between the two stops.
  -- Afterwards the tracee is outside any call, with nothing pending.
  pub enter-leave :
      (table : SummaryTable T)
      → ((enter cfg k regs ts).1 ++ (leave cfg k' regs' entered table).2 ≡ (
          if not (syscall_allowed cfg.filter_tokens call_name) || cfg.summary_mode
          then []
          else whole_call ∷ result_line cfg k' regs' entered ∷ []))
        × ((leave cfg k' regs' entered table).1 ≡ (
            if syscall_allowed cfg.filter_tokens call_name && cfg.summary_mode
            then account cfg.zero_time cfg.plus table call_name
                (not (is_nonneg regs'.return_val))
                call_time
            else table))
        × ((leave cfg k' regs' entered table).0.in_syscall ≡ false)
        × ((leave cfg k' regs' entered table).0.pending ≡ no_pending)
  unfolding enter leave deferred_call
  enter-leave table = ground (arith, is_pending-no_pending)

-- ===== src/Tracer/Stops.antt =====
-- src/mini_strace.c, `run_tracer`: what one tracee's state becomes at a syscall-entry stop and at a
-- syscall-exit stop.
use mini_strace.Base.{
  ℕ, String, Bool, true, false, not, ◌||◌, List, [], ◌∷◌, Option, none, some, if◌then◌else◌, take,
  map,
}
use mini_strace.Base.Int.{is_nonneg}
use mini_strace.Arch.{Regs}
use mini_strace.Filter.{syscall_allowed}
use mini_strace.Routing.Argc.{syscall_argc, shown_args}
use mini_strace.Routing.Paths.{fd_arg_mask}
use mini_strace.Dispatch.Decoder.{Decoding}
use mini_strace.Dispatch.Pending.{no_pending, outputs_of, is_pending}
use mini_strace.Dispatch.Entry.{decode_entry}
use mini_strace.Dispatch.Exit.{decode_exit, sockaddr_len}
use mini_strace.Summary.{SummaryTable, account}
use mini_strace.Tracees.{TraceeState}
use mini_strace.Tracer.State.{Config, Kernel, Action, call_line, return_line, error_line}

module _ {T : Type 0} (cfg : Config T) where
  -- `pid_prefix`
  abbrev pub prefix_of : ℕ → Option ℕ
  prefix_of pid = if cfg.follow_forks then some pid else none

  abbrev pub fd_mask_of : String → ℕ
  fd_mask_of name = if cfg.show_fd_paths then fd_arg_mask name else 0

  -- `print_call`, on the decodings of the six slots.
  unfoldable pub print_call : ℕ → String → (ℕ → Decoding) → Action T
  print_call pid name slot =
      call_line (prefix_of pid) name
        (take (shown_args (syscall_argc name)) (map slot (0 ∷ 1 ∷ 2 ∷ 3 ∷ 4 ∷ 5 ∷ [])))

  -- The times are read under -T and -c alone.
  abbrev pub is_timed : Bool
  is_timed = cfg.show_timing || cfg.summary_mode

  abbrev pub stored_name : Option String → String
  stored_name (some name) = name
  stored_name none = ""

  -- The entry stop.
  unfoldable pub enter : Kernel → Regs → TraceeState → TraceeState × List (Action T)
  enter k regs ts =
      let name = cfg.syscall_name regs.syscall_no in
      let outputs = outputs_of name in
      let timed = record ts {
        current_name = some name;
        entry_time = if is_timed then k.now else ts.entry_time;
        suppressed = not (syscall_allowed cfg.filter_tokens name);
        in_syscall = true;
      } in
      if not (syscall_allowed cfg.filter_tokens name)
      then (record timed { pending = no_pending }, [])
      else if is_pending outputs
      then (
        record timed { pending_name = some name; pending_args = regs.args; pending = outputs },
        [],
      )
      else (
        record timed { pending = no_pending },
        if cfg.summary_mode
            then []
            else print_call ts.pid name (decode_entry name (fd_mask_of name) regs.args) ∷ [],
      )

  -- The line of a deferred call.
  unfoldable pub deferred_call : Kernel → Regs → TraceeState → Action T
  deferred_call k regs ts =
      let name = stored_name ts.pending_name in
      let len = sockaddr_len k.peek ts.pending ts.pending_args regs.return_val in
      print_call ts.pid name
        (decode_exit name ts.pending (fd_mask_of name) ts.pending_args regs.return_val len)

  abbrev pub time_of : Kernel → TraceeState → T
  time_of k ts = if is_timed then cfg.elapsed k.now ts.entry_time else cfg.zero_time

  -- The end of the line.
  unfoldable pub result_line : Kernel → Regs → TraceeState → Action T
  result_line k regs ts =
      let time = if cfg.show_timing then some (time_of k ts) else none in
      if is_nonneg regs.return_val
      then return_line regs.return_val time
      else error_line regs.return_val time

  -- The exit stop.
  unfoldable pub leave :
      Kernel → Regs → TraceeState → SummaryTable T → TraceeState × SummaryTable T × List (Action T)
  leave k regs ts table =
      let left = record ts { in_syscall = false } in
      if ts.suppressed then (left, table, []) else (
        if is_pending ts.pending then record left { pending = no_pending } else left,
        if cfg.summary_mode
            then account cfg.zero_time cfg.plus table (stored_name ts.current_name)
                (not (is_nonneg regs.return_val)) (time_of k ts)
            else table,
        if cfg.summary_mode
            then []
            else if is_pending ts.pending
            then deferred_call k regs ts ∷ result_line k regs ts ∷ []
            else result_line k regs ts ∷ [],
      )

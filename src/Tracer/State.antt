-- ===== src/Tracer/State.antt =====
-- src/mini_strace.c, `run_tracer`: the state of the loop, what the kernel answers at a stop, and what
-- the tracer does.
use mini_strace.Base.{ℕ, String, Bool, List, Option}
use mini_strace.Base.Bytes.{Bytes}
use mini_strace.Base.Int.{ℤ}
use mini_strace.Arch.{Regs}
use mini_strace.Dispatch.Decoder.{Decoding}
use mini_strace.Summary.{SummaryTable}
use mini_strace.Tracees.{TraceeTable, Timespec}

-- The options, and what the loop takes from elsewhere: the generated `syscall_name`, and the `double`
-- arithmetic of the times.
pub record Config (T : Type 0) : Type 0 where
  pub follow_forks : Bool
  pub show_timing : Bool
  pub summary_mode : Bool
  pub show_fd_paths : Bool
  pub filter_tokens : List Bytes
  pub syscall_name : ℤ → String
  pub zero_time : T
  pub plus : T → T → T
  pub elapsed : Timespec → Timespec → T

-- The kernel's answers during one round: PTRACE_GETEVENTMSG, `get_regs`, PTRACE_PEEKDATA on the
-- tracee (each `none` on failure), and CLOCK_MONOTONIC.
pub record Kernel : Type 0 where
  pub event_msg : Option ℕ
  pub regs : Option Regs
  pub peek : ℕ → Option ℕ
  pub now : Timespec

-- What `waitpid(-1, &status, __WALL)` reports.
pub data Wait : Type 0 where
  -- -1, with whether `errno` is ECHILD
  wait_error : Bool → Wait
  exited : (pid code : ℕ) → Wait
  killed : (pid sig : ℕ) → Wait
  -- with WSTOPSIG and `status >> 16`
  stopped : (pid stopsig event : ℕ) → Kernel → Wait
  -- none of WIFEXITED, WIFSIGNALED, WIFSTOPPED
  other_status : (pid : ℕ) → Wait

-- What the tracer writes and what it asks of the kernel. A prefix is the pid of "[pid N] ".
pub data Action (T : Type 0) : Type 0 where
  -- "name(arg, ...) ", with no end of line
  call_line : (prefix : Option ℕ) (name : String) (args : List Decoding) → Action T
  -- "= ret", and "= ret (ERRNO)" for a negative one, with the time under -T
  return_line : (ret : ℤ) (time : Option T) → Action T
  error_line : (ret : ℤ) (time : Option T) → Action T
  signal_line : (prefix : Option ℕ) (sig : ℕ) → Action T
  -- the "[mini-strace] ..." lines
  process_exited : (code calls : ℕ) → Action T
  process_killed : (sig : ℕ) → Action T
  pid_exited : (pid code : ℕ) → Action T
  pid_killed : (pid sig : ℕ) → Action T
  all_exited : (calls : ℕ) → Action T
  new_child : (pid : ℕ) → Action T
  -- ptrace(PTRACE_SYSCALL, pid, NULL, sig)
  resume : (pid sig : ℕ) → Action T

-- `active_count` is never below 0: the loop ends when it reaches 0.
pub record State (T : Type 0) : Type 0 where
  pub tracees : TraceeTable
  pub active_count : ℕ
  pub call_count : ℕ
  pub summary : SummaryTable T

-- ===== src/Arch.antt =====
-- src/arch.h: the registers of a system call on the two architectures.
use mini_strace.Base.{ℕ, ◌-◌, ◌^◌, List, [], ◌∷◌, if◌then◌else◌, ltb, get_or}
use mini_strace.Base.Int.{ℤ, pos, negsuc}

-- The conversion of a 64-bit register to `long`.
abbrev pub signed64 : ℕ → ℤ
signed64 w = if ltb w (2 ^ 63) then pos w else negsuc (2 ^ 64 - w - 1)

-- What the tracer reads of the registers: `syscall_no_of`, `return_val_of`, `arg0` to `arg5`.
pub record Regs : Type 0 where
  pub syscall_no : ℤ
  pub return_val : ℤ
  pub args : List ℕ

pub record X86Regs : Type 0 where
  pub orig_rax : ℕ
  pub rax : ℕ
  pub rdi : ℕ
  pub rsi : ℕ
  pub rdx : ℕ
  pub r10 : ℕ
  pub r8 : ℕ
  pub r9 : ℕ

unfoldable pub x86_regs : X86Regs → Regs
x86_regs r = record {
  syscall_no = signed64 r.orig_rax;
  return_val = signed64 r.rax;
  args = r.rdi ∷ r.rsi ∷ r.rdx ∷ r.r10 ∷ r.r8 ∷ r.r9 ∷ [];
}

-- `regs[0]` to `regs[30]` of aarch64.
unfoldable pub aarch64_regs : List ℕ → Regs
aarch64_regs r = record {
  syscall_no = signed64 (get_or r 8 0);
  return_val = signed64 (get_or r 0 0);
  args =
      get_or r 0 0 ∷ get_or r 1 0 ∷ get_or r 2 0 ∷ get_or r 3 0 ∷ get_or r 4 0 ∷ get_or r 5 0 ∷ [];
}

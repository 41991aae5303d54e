-- ===== src/Decoders/Control.antt =====
-- `format_cmsg` of src/decoders.c: how long the text of a control message can become.
use mini_strace.Base.{
  ℕ, zero, suc, ◌+◌, Bool, true, false, ◌&&◌, Option, none, some, ◌≡◌, ◌==◌, leb, length, min,
  if◌then◌else◌,
}
use mini_strace.Base.Bytes.{Bytes}
use mini_strace.ChildMem.{read_child_raw}
use mini_strace.Decoders.Messages.{control_field, msghdr_max_control}

-- A message at `at` that passes descriptors.
abbrev pub passes_fds : (ℕ → ℕ) → Bytes → ℕ → Bool
passes_fds beyond cbuf at =
    control_field beyond cbuf (at + 8) 4 == 1 && control_field beyond cbuf (at + 12) 4 == 1

-- At most `n` messages from one on, none of which passes descriptors.
abbrev pub AreFew : (Bytes → ℕ → Option ℕ) → (ℕ → ℕ) → Bytes → ℕ → Option ℕ → Type 0
AreFew cmsg_nxthdr beyond cbuf n none = Unit
AreFew cmsg_nxthdr beyond cbuf zero (some at) = false ≡ true
AreFew cmsg_nxthdr beyond cbuf (suc n) (some at) =
    (passes_fds beyond cbuf at ≡ false) × AreFew cmsg_nxthdr beyond cbuf n (cmsg_nxthdr cbuf at)

-- What is read of the control data, and its first message.
abbrev pub control_data : (ℕ → Option ℕ) → ℕ → ℕ → Bytes
control_data peek addr controllen = read_child_raw peek addr (min controllen msghdr_max_control)

abbrev pub first_message : Bytes → Option ℕ
first_message cbuf = if leb 16 (length cbuf) then some 0 else none

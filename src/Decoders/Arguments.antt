-- ===== src/Decoders/Arguments.antt =====
-- From the registers of a traced call, by the dispatch of src/mini_strace.c, to the texts of src/decoders.c.
use mini_strace.Base.{ℕ, ◌^◌, ◌<◌, String, true, List, some, ◌≡◌, refl, ap, ◌∙◌, arith}
use mini_strace.Base.Int.{ℤ}
use mini_strace.ChildMem.{str_arg_buf_len}
use mini_strace.Dispatch.Decoder.{
  Decoder, decode, sockopt_optname, open_mode, prctl_name, fdset, dirfd, msghdr,
}
use mini_strace.Dispatch.Ladder.{first_rung}
use mini_strace.Dispatch.EntryLadder.{entry_ladder}
use mini_strace.Dispatch.ExitLadder.{exit_ladder}
use mini_strace.Dispatch.Pending.{Pending}
use mini_strace.Dispatch.Entry.{arg, entry_call, decode_entry}
use mini_strace.Dispatch.Exit.{exit_call, decode_exit}
use mini_strace.Decoders.Msghdr.{DecodeEnv}
use mini_strace.Decoders.Calls.{decoding_text}
use mini_strace.Decoders.Decoded.{names_of, has_names, read_text, read_text-decoding_text}

entry_call-decode :
    (d : Decoder) (args : List ℕ) (i fd_mask : ℕ)
    → has_names (names_of d) ≡ true
    → entry_call d args i fd_mask ≡ decode d (arg args i)
unfolding entry_call names_of
entry_call-decode sockopt_optname args i fd_mask h = absurd (ground arith)
entry_call-decode open_mode args i fd_mask h = absurd (ground arith)
entry_call-decode prctl_name args i fd_mask h = absurd (ground arith)
entry_call-decode fdset args i fd_mask h = absurd (ground arith)
entry_call-decode dirfd args i fd_mask h = absurd (ground arith)
entry_call-decode msghdr args i fd_mask h = absurd (ground arith)
entry_call-decode _ args i fd_mask h = refl

exit_call-decode :
    (d : Decoder) (args : List ℕ) (i fd_mask : ℕ)
    → has_names (names_of d) ≡ true
    → exit_call d args i fd_mask ≡ decode d (arg args i)
unfolding exit_call names_of
exit_call-decode dirfd args i fd_mask h = absurd (ground arith)
exit_call-decode _ args i fd_mask h = refl

entry-chosen :
    (name : String) (fd_mask : ℕ) (args : List ℕ) (i : ℕ) (d : Decoder)
    → first_rung (entry_ladder name) i ≡ some d
    → decode_entry name fd_mask args i ≡ entry_call d args i fd_mask
unfolding decode_entry
entry-chosen name fd_mask args i d h = rw (h, decode_entry) refl

exit-chosen :
    (name : String) (p : Pending) (fd_mask : ℕ) (args : List ℕ) (ret : ℤ) (addrlen i : ℕ)
    (d : Decoder)
    → first_rung (exit_ladder name) i ≡ some d
    → decode_exit name p fd_mask args ret addrlen i ≡ exit_call d args i fd_mask
unfolding decode_exit
exit-chosen name p fd_mask args ret addrlen i d h = rw (h, decode_exit) refl

-- Where the entry loop's chain of masks gives a slot of a call to a decoder of flag words or of named
-- values, the text that is shown for the slot, in its buffer of 1024 bytes, is read back as the
-- register's value, a number of 64 bits.
pub read_text-decode_entry :
    (env : DecodeEnv) (name : String) (fd_mask : ℕ) (args : List ℕ) (i : ℕ) (d : Decoder)
    → first_rung (entry_ladder name) i ≡ some d
    → has_names (names_of d) ≡ true
    → arg args i < 2 ^ 64
    → read_text (names_of d) (decoding_text env (decode_entry name fd_mask args i) str_arg_buf_len)
      ≡ some (arg args i)
read_text-decode_entry env name fd_mask args i d found named small =
    ap (λ c. read_text (names_of d) (decoding_text env c str_arg_buf_len))
      (entry-chosen name fd_mask args i d found ∙ entry_call-decode d args i fd_mask named)
    ∙ read_text-decoding_text env d (arg args i) named small

-- Where the exit loop's chain of masks gives a slot of a call that is printed at its exit to a decoder of
-- flag words or of named values, whatever the call returned, the text that is shown for the slot, in
-- its buffer of 1024 bytes, is read back as the value that the register had at the entry, a number of
-- 64 bits.
pub read_text-decode_exit :
    (env : DecodeEnv) (name : String) (p : Pending) (fd_mask : ℕ) (args : List ℕ) (ret : ℤ)
    (addrlen i : ℕ) (d : Decoder)
    → first_rung (exit_ladder name) i ≡ some d
    → has_names (names_of d) ≡ true
    → arg args i < 2 ^ 64
    → read_text
        (names_of d)
        (decoding_text env (decode_exit name p fd_mask args ret addrlen i) str_arg_buf_len)
      ≡ some (arg args i)
read_text-decode_exit env name p fd_mask args ret addrlen i d found named small =
    ap (λ c. read_text (names_of d) (decoding_text env c str_arg_buf_len))
      (exit-chosen name p fd_mask args ret addrlen i d found
        ∙ exit_call-decode d args i fd_mask named)
    ∙ read_text-decoding_text env d (arg args i) named small

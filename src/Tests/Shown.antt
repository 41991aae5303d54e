-- ===== src/Tests/Shown.antt =====
-- A call of mprotect and a call of wait4, from their registers to the texts of their flags.
use mini_strace.Base.{[], ◌∷◌, none, some, ◌≡◌, refl, arith}
use mini_strace.Base.Int.{pos}
use mini_strace.ChildMem.{str_arg_buf_len}
use mini_strace.Dispatch.Decoder.{prot_flags, wait4_options}
use mini_strace.Dispatch.Ladder.{first_rung}
use mini_strace.Dispatch.EntryLadder.{entry_ladder}
use mini_strace.Dispatch.ExitLadder.{exit_ladder}
use mini_strace.Dispatch.Pending.{no_pending}
use mini_strace.Dispatch.Entry.{decode_entry}
use mini_strace.Dispatch.Exit.{decode_exit}
use mini_strace.Decoders.Msghdr.{DecodeEnv}
use mini_strace.Decoders.Calls.{decoding_text}
use mini_strace.Decoders.Decoded.{names_of, read_text}
use mini_strace.Decoders.Arguments.{read_text-decode_entry, read_text-decode_exit}

-- No memory can be read, no name is known, no descriptor has a path.
abbrev bare_env : DecodeEnv
bare_env = record {
  max_str_len = 200;
  peek = λ a. none;
  sigabbrev_np = λ n. none;
  inet_ntop = λ s. none;
  cmsg_nxthdr = λ s i. none;
  beyond = λ i. 0;
  readlink = λ s n. none;
  pid = 7;
}

mprotect_slot : first_rung (entry_ladder "mprotect") 2 ≡ some prot_flags
unfolding first_rung entry_ladder
mprotect_slot = refl

wait4_slot : first_rung (exit_ladder "wait4") 2 ≡ some wait4_options
unfolding first_rung exit_ladder
wait4_slot = refl

read_text-decode_entry_example :
    read_text (names_of prot_flags) (
      decoding_text bare_env
        (decode_entry "mprotect" 0 (0x1000 ∷ 4096 ∷ 0x15 ∷ []) 2)
        str_arg_buf_len)
    ≡ some 0x15
unfolding names_of
read_text-decode_entry_example =
    read_text-decode_entry bare_env "mprotect" 0 (0x1000 ∷ 4096 ∷ 0x15 ∷ []) 2 prot_flags
      mprotect_slot refl (omega arith)

read_text-decode_exit_example :
    read_text (names_of wait4_options) (
      decoding_text bare_env
        (decode_exit "wait4" no_pending 0 (0 ∷ 0x1000 ∷ 11 ∷ []) (pos 9) 128 2)
        str_arg_buf_len)
    ≡ some 11
unfolding names_of
read_text-decode_exit_example =
    read_text-decode_exit bare_env "wait4" no_pending 0 (0 ∷ 0x1000 ∷ 11 ∷ []) (pos 9) 128 2
      wait4_options wait4_slot refl (omega arith)

-- ===== src/Tests/Decoding.antt =====
-- src/mini_strace.c and src/arg_routing.c: how single arguments are decoded.
use mini_strace.Base.{◌+◌, ◌<◌, ◌≤◌, some, ◌≡◌, refl, arith, [], ◌∷◌}
use mini_strace.Base.Int.{pos}
use mini_strace.Routing.Argc.{syscall_argc, shown_args}
use mini_strace.Routing.Pairs.{read_arg_lookup, accept_arg_lookup}
use mini_strace.Routing.Outputs.{wait_status_arg_mask, msghdr_recv_arg_mask, stat_buf_arg_mask}
use mini_strace.Dispatch.Decoder.{child_string, child_buffer, decode, decode_with}
use mini_strace.Dispatch.Ladder.{first_rung, first_bit}
use mini_strace.Dispatch.EntryLadder.{entry_ladder}
use mini_strace.Dispatch.ExitLadder.{exit_ladder}
use mini_strace.Dispatch.Pending.{outputs_of, is_pending}
use mini_strace.Dispatch.Entry.{decode_entry, entry_call, choose}
use mini_strace.Dispatch.Exit.{decode_exit, pending_rungs}
use mini_strace.Dispatch.Slots.{entry_claims, exit_claims, entry_claims_le_one, exit_claims_le_one}
use mini_strace.Dispatch.Coverage.{claimed_slot_shown, deferred_keeps_decoder, reads_before_inside}

openat_path :
    decode_entry "openat" 0 (0xffffff9c ∷ 0x1000 ∷ 0x241 ∷ 0x1a4 ∷ 0 ∷ 0 ∷ []) 1
    ≡ decode child_string 0x1000
unfolding decode_entry entry_ladder first_rung entry_call
openat_path = refl

read_buffer :
    decode_exit "read" (outputs_of "read") 0 (3 ∷ 0x1000 ∷ 64 ∷ 0 ∷ 0 ∷ 0 ∷ []) (pos 5) 128 1
    ≡ decode_with child_buffer 0x1000 5
unfolding decode_exit exit_ladder first_rung pending_rungs outputs_of choose read_arg_lookup
read_buffer = refl

entry_claims_le_one_example : entry_claims "openat" 1 ≤ 1
entry_claims_le_one_example = entry_claims_le_one "openat" 1 (omega arith)

exit_claims_le_one_example : exit_claims "wait4" 3 ≤ 1
exit_claims_le_one_example = exit_claims_le_one "wait4" 3 (omega arith)

mkdir_path_claimed : 0 < entry_claims "mkdir" 0 + exit_claims "mkdir" 0
unfolding entry_claims exit_claims entry_ladder exit_ladder outputs_of first_bit
mkdir_path_claimed = ground arith

claimed_slot_shown_example : 0 < shown_args (syscall_argc "mkdir")
claimed_slot_shown_example = claimed_slot_shown "mkdir" 0 (omega arith) mkdir_path_claimed

deferred_keeps_decoder_example : first_rung (exit_ladder "newfstatat") 1 ≡ some child_string
unfolding entry_ladder first_rung outputs_of is_pending first_bit read_arg_lookup accept_arg_lookup
    wait_status_arg_mask msghdr_recv_arg_mask stat_buf_arg_mask
deferred_keeps_decoder_example =
    deferred_keeps_decoder "newfstatat" 1 child_string (omega arith) refl refl

reads_before_inside_example : 0 < 2
unfolding entry_ladder first_rung
reads_before_inside_example = reads_before_inside "open" 2 refl (omega arith)

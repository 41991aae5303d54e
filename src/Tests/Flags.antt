-- ===== src/Tests/Flags.antt =====
-- src/decoders.c: texts of flag words, named values and structures, at small inputs.
use mini_strace.Base.{
  ℕ, String, true, [], ◌∷◌, ◌++◌, Option, none, some, ◌≡◌, refl, arith, if◌then◌else◌, ◌==◌, codes,
}
use mini_strace.Base.Bytes.{Bytes}
use mini_strace.Base.Int.{ℤ, pos, negsuc}
use mini_strace.ChildMem.{read_child_raw, str_arg_buf_len, hex_address, hex_digit}
use mini_strace.ChildMem.Memory.{word_of}
use mini_strace.Dispatch.Decoder.{decode, at_flags}
use mini_strace.Decoders.Walk.{flags_text, bare_flags_text, walk}
use mini_strace.Decoders.Tables.Files.{map_flag_table}
use mini_strace.Decoders.Flags.{format_prot_flags, format_map_flags}
use mini_strace.Decoders.Mixed.{
  accmode_name, format_open_flags, format_clone_flags, format_clone_flags_value, exit_signal_text,
}
use mini_strace.Decoders.Requests.{format_ioctl_request, format_file_mode}
use mini_strace.Decoders.Messages.{format_sockaddr, sockaddr_text, inet_text}
use mini_strace.Decoders.Msghdr.{DecodeEnv, format_wait_status, wait_text, signal_name_text}
use mini_strace.Decoders.Messages.{cmsg_loop, cmsg_rest, control_bytes}
use mini_strace.ChildMem.{hex_digits}
use mini_strace.Decoders.Text.{append_text, write_text, radix_digits, decimal, octal, as_int}
use mini_strace.Decoders.Structs.{field, le_value}
use mini_strace.Decoders.Calls.{decoding_text}
use mini_strace.Decoders.Reading.{read_flags}
use mini_strace.Decoders.Shown.{Describes, flags_text-Describes}
use mini_strace.Decoders.OpenFlags.{open_names, read_flags-format_open_flags}
use mini_strace.Decoders.Decoded.{names_of, read_text, read_text-decoding_text}
use mini_strace.ChildMem.{le_bytes, text_length}
use mini_strace.Decoders.Text.{as_long, signed_decimal}
use mini_strace.Decoders.Structs.{long_text}
use mini_strace.Decoders.Dirents.{
  dirents_loop, close_dirents, dirent_text, d_name, dirent_type_name,
}
use mini_strace.Decoders.DirentsEnds.{HasEnded, dirents_loop-HasEnded}
use mini_strace.Decoders.Numbers.{IsOctalOf, format_file_mode-IsOctalOf}

-- A socket address at 0x100: AF_INET, port 80, 127.0.0.1; a status at 0x200; nothing else.
abbrev words : ℕ → Option ℕ
words a =
    if a == 0x100
    then some (word_of (2 ∷ 0 ∷ 0 ∷ 80 ∷ 127 ∷ 0 ∷ 0 ∷ 1 ∷ []))
    else if a == 0x200
    then some 0x8b
    else none

abbrev sigabbrev : ℤ → Option String
sigabbrev (pos n) = if n == 11 then some "SEGV" else none
sigabbrev (negsuc n) = none

abbrev test_env : DecodeEnv
test_env = record {
  max_str_len = 200;
  peek = words;
  sigabbrev_np = sigabbrev;
  inet_ntop = λ s. none;
  cmsg_nxthdr = λ s i. none;
  beyond = λ i. 0;
  readlink = λ s n. none;
  pid = 7;
}

prot_text : format_prot_flags 0x13 64 ≡ codes "PROT_READ|PROT_WRITE|0x10"
unfolding format_prot_flags flags_text walk append_text hex_address hex_digit
prot_text = refl

-- MAP_SHARED_VALIDATE has the bits of two other names.
map_text : format_map_flags 3 64 ≡ codes "MAP_SHARED|MAP_PRIVATE"
unfolding format_map_flags bare_flags_text walk append_text
map_text = refl

open_text : format_open_flags 0x241 64 ≡ codes "O_WRONLY|O_CREAT|O_TRUNC"
unfolding format_open_flags accmode_name walk append_text
open_text = refl

-- An unknown flag of clone is lost where no name is known.
clone_text : format_clone_flags sigabbrev 0x200000000 64 ≡ codes "0"
unfolding format_clone_flags format_clone_flags_value walk append_text
clone_text = refl

clone_signal_text :
    format_clone_flags sigabbrev 0x20000010b 64 ≡ codes "CLONE_VM|SIGSEGV|0x200000000"
unfolding format_clone_flags format_clone_flags_value exit_signal_text as_int walk append_text
    hex_address hex_digit
clone_signal_text = refl

ioctl_text : format_ioctl_request 0x80045430 64 ≡ codes "TIOCGPTN"
unfolding format_ioctl_request
ioctl_text = refl

mode_text : format_file_mode 420 64 ≡ codes "0644"
unfolding format_file_mode octal radix_digits
mode_text = refl

inet_address_text :
    format_sockaddr (λ s. none) words 0x100 8 128
    ≡ codes "{sa_family=AF_INET, sin_port=htons(80), sin_addr=inet_addr(\"127.0.0.1\")}"
unfolding format_sockaddr sockaddr_text inet_text field le_value decimal radix_digits read_child_raw
inet_address_text = refl

-- A child that was killed, with a core dump.
status_text :
    format_wait_status sigabbrev words 0x200 64
    ≡ codes "[{WIFSIGNALED(s) && WTERMSIG(s) == SIGSEGV}]"
unfolding format_wait_status wait_text signal_name_text
status_text = refl

flags_text-Describes_example :
    Describes map_flag_table 0x23 (flags_text "0" map_flag_table 0x23 256)
flags_text-Describes_example =
    flags_text-Describes "0" map_flag_table 0x23 256 (omega arith) (omega arith) refl

read_text-decoding_text_example :
    read_text (names_of at_flags) (decoding_text test_env (decode at_flags 0x1300) str_arg_buf_len)
    ≡ some 0x1300
unfolding names_of
read_text-decoding_text_example =
    read_text-decoding_text test_env at_flags 0x1300 refl (omega arith)

read_flags-format_open_flags_example :
    read_flags open_names (format_open_flags 0x243 str_arg_buf_len) ≡ some 0x240
read_flags-format_open_flags_example = read_flags-format_open_flags 0x243 (omega arith)

format_file_mode-IsOctalOf_example : IsOctalOf 0x81a4 (format_file_mode 0x81a4 str_arg_buf_len)
format_file_mode-IsOctalOf_example = format_file_mode-IsOctalOf 0x81a4 (omega arith)

-- A directory's entry, with three bytes behind it.
abbrev one_entry : Bytes
one_entry =
    le_bytes 8 5 ++ le_bytes 8 1 ++ le_bytes 2 24 ++ 8 ∷ b'a' ∷ 0 ∷ 0 ∷ 0 ∷ 0 ∷ 1 ∷ 2 ∷ 3 ∷ []

entries_text :
    close_dirents 256 (dirents_loop 256 27 one_entry 0 (codes "["))
    ≡ codes "[{d_ino=5, d_off=1, d_reclen=24, d_name=\"a\", d_type=DT_REG}, ...]"
unfolding close_dirents dirents_loop dirent_text d_name dirent_type_name append_text field le_value
    decimal radix_digits long_text as_long signed_decimal text_length le_bytes
entries_text = refl

dirents_loop-HasEnded_example : HasEnded (dirents_loop 256 27 one_entry 0 (codes "["))
unfolding le_bytes
dirents_loop-HasEnded_example =
    dirents_loop-HasEnded 256 27 one_entry 0 (codes "[") (omega arith) (omega arith)

-- A control message of the level 1 and the type 3, whose length field is 16.
abbrev one_message : Bytes
one_message = le_bytes 8 16 ++ le_bytes 4 1 ++ le_bytes 4 3

-- Its text, and where the buffer has no room for the name of the level: the name is written behind the
-- end of the buffer.
message_text :
    cmsg_loop (λ s i. none) (λ i. 0) one_message 64 2 (some 0) true (codes "[")
    ≡ some (codes "[{cmsg_level=SOL_SOCKET, cmsg_type=0x3, cmsg_len=16}")
unfolding cmsg_loop cmsg_rest write_text control_bytes le_value le_bytes hex_address hex_digits
    hex_digit decimal radix_digits
message_text = refl

level_past_end : cmsg_loop (λ s i. none) (λ i. 0) one_message 12 2 (some 0) true (codes "[") ≡ none
unfolding cmsg_loop write_text control_bytes le_value le_bytes
level_past_end = refl

-- The same message at 0x300.
abbrev message_words : ℕ → Option ℕ
message_words a =
    if a == 0x300
    then some (word_of (le_bytes 8 16))
    else if a == 0x308
    then some (word_of (le_bytes 4 1 ++ le_bytes 4 3))
    else none

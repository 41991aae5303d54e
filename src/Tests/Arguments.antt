-- ===== src/Tests/Arguments.antt =====
-- src/mini_strace.c, `main`: command lines.
use mini_strace.Base.{◌↔◌, List, [], ◌∷◌, ◌++◌, ◌≡◌, refl, codes, true}
use mini_strace.Base.Bytes.{Bytes, bytes_eq}
use mini_strace.Options.{
  Options, default_options, show_usage, main_plan, parse_options, plain_option, takes_argument,
  argument_option, size_option, pid_option, strtol, skip_spaces, read_signed, read_number,
  read_digits,
}
use mini_strace.Options.{failed, not_a_size}
use mini_strace.Options.Rejection.{IsRejected, parse_options-failed_iff}
use mini_strace.Options.Bounds.{InRange, Program, main_options-InRange}

abbrev long_size : List Bytes
long_size = codes "-s" ∷ codes "5000" ∷ codes "-f" ∷ codes "ls" ∷ codes "-l" ∷ []

abbrev clamped : Options
clamped = record default_options { follow_forks = true; max_str_len = 1024 }

-- A pid that the conversion to 32 bits makes -1 is taken for none.
wrapped_pid : main_plan (codes "-p" ∷ codes "4294967295" ∷ []) ≡ show_usage
unfolding main_plan parse_options plain_option takes_argument argument_option pid_option strtol
    skip_spaces read_signed read_number read_digits bytes_eq
wrapped_pid = refl

main_options-InRange_example :
    InRange clamped
    × ((before : List Bytes) × (long_size ≡ before ++ codes "ls" ∷ codes "-l" ∷ []))
    × Program (codes "ls" ∷ codes "-l" ∷ [])
unfolding parse_options plain_option takes_argument argument_option size_option strtol skip_spaces
    read_signed read_number read_digits bytes_eq
main_options-InRange_example =
    main_options-InRange long_size (codes "ls" ∷ codes "-l" ∷ []) clamped refl

parse_options-failed_iff_example :
    (parse_options (codes "-f" ∷ codes "-s" ∷ codes "0" ∷ []) default_options
      ≡ failed (not_a_size (codes "0")))
    ↔ IsRejected (codes "-f" ∷ codes "-s" ∷ codes "0" ∷ []) (not_a_size (codes "0"))
parse_options-failed_iff_example =
    parse_options-failed_iff (codes "-f" ∷ codes "-s" ∷ codes "0" ∷ []) default_options
      (not_a_size (codes "0"))

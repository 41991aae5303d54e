-- ===== src/Options.antt =====
-- src/mini_strace.c, `main`: the loop over the options. `argv` without the program's own name is a list
-- of texts; `max_str_len` and the filter's tokens, which are global, are part of the options.
use mini_strace.Base.{
  ℕ, zero, suc, ◌+◌, ◌-◌, ◌*◌, ◌%◌, ◌^◌, String, Bool, true, false, not, ◌&&◌, ◌||◌, List, [], ◌∷◌,
  Option, none, some, if◌then◌else◌, ◌==◌, ltb, leb, min, codes, drop, take, ◌⊎◌, inl, inr,
}
use mini_strace.Base.Bytes.{Bytes, bytes_eq}
use mini_strace.Base.Int.{ℤ, pos, negsuc, is_positive, to_ℕ, minus_one}
use mini_strace.Filter.{parse_trace_filter}
use mini_strace.ChildMem.{str_arg_buf_len}
pub mod Bounds
pub mod Numerals
pub mod Errors
pub mod Refused
pub mod Failing
pub mod Rejection

-- libc's `strtol` to the base 10: the number, saturated to 64 bits, and the text that it ends at, which
-- is the whole one where there is no digit.
abbrev pub is_space : ℕ → Bool
is_space c = c == b' ' || (leb b'\t' c && leb c b'\r')

abbrev pub is_digit : ℕ → Bool
is_digit c = leb b'0' c && leb c b'9'

unfoldable pub skip_spaces : Bytes → Bytes
skip_spaces [] = []
skip_spaces (c ∷ s) = if is_space c then skip_spaces s else c ∷ s

unfoldable pub read_digits : ℕ → Bytes → ℕ × Bytes
read_digits n [] = (n, [])
read_digits n (c ∷ s) =
    let rest = read_digits (n * 10 + (c - b'0')) s in if is_digit c then rest else (n, c ∷ s)

abbrev pub saturate : Bool → ℕ → ℤ
saturate false n = pos (min n (2 ^ 63 - 1))
saturate true zero = pos 0
saturate true (suc n) = negsuc (min n (2 ^ 63 - 1))

unfoldable pub read_number : Bytes → Bool → Bytes → ℤ × Bytes
unfolding read_digits
read_number whole negative [] = (pos 0, whole)
read_number whole negative (c ∷ s) =
    let (n, rest) = read_digits 0 (c ∷ s) in
    if is_digit c then (saturate negative n, rest) else (pos 0, whole)

unfoldable pub read_signed : Bytes → Bytes → ℤ × Bytes
unfolding read_number
read_signed whole [] = (pos 0, whole)
read_signed whole (c ∷ s) =
    if c == b'-'
    then read_number whole true s
    else if c == b'+'
    then read_number whole false s
    else read_number whole false (c ∷ s)

unfoldable pub strtol : Bytes → ℤ × Bytes
unfolding skip_spaces read_signed
strtol s = read_signed s (skip_spaces s)

-- The conversion of a `long` to `pid_t`, of 32 bits.
abbrev pub to_pid : ℤ → ℤ
to_pid (pos n) =
    if ltb (n % 2 ^ 32) (2 ^ 31) then pos (n % 2 ^ 32) else negsuc (2 ^ 32 - n % 2 ^ 32 - 1)
to_pid (negsuc n) =
    if ltb (n % 2 ^ 32) (2 ^ 31) then negsuc (n % 2 ^ 32) else pos (2 ^ 32 - n % 2 ^ 32 - 1)

pub record Options : Type 0 where
  -- -1 for none
  pub attach_pid : ℤ
  pub follow_forks : Bool
  pub show_timing : Bool
  pub summary_mode : Bool
  pub show_fd_paths : Bool
  pub output_file : Option Bytes
  pub max_str_len : ℕ
  pub filter_tokens : List Bytes

abbrev pub default_options : Options
default_options = record {
  attach_pid = minus_one;
  follow_forks = false;
  show_timing = false;
  summary_mode = false;
  show_fd_paths = false;
  output_file = none;
  max_str_len = 200;
  filter_tokens = [];
}

-- Why `main` gives up, with the text that it names.
pub data OptionError : Type 0 where
  missing_argument : (option : Bytes) → OptionError
  not_a_size not_a_pid not_a_filter : (text : Bytes) → OptionError

pub data Parsed : Type 0 where
  failed : OptionError → Parsed
  parsed : (options : Options) (rest : List Bytes) → Parsed

-- The options that stand alone.
unfoldable pub plain_option : Bytes → Options → Option Options
plain_option a o =
    if bytes_eq a (codes "-f")
    then some (record o { follow_forks = true })
    else if bytes_eq a (codes "-y")
    then some (record o { show_fd_paths = true })
    else if bytes_eq a (codes "-T")
    then some (record o { show_timing = true })
    else if bytes_eq a (codes "-c")
    then some (record o { summary_mode = true })
    else none

-- The options that take an argument.
unfoldable pub takes_argument : Bytes → Bool
takes_argument a =
    bytes_eq a (codes "-e")
    || (bytes_eq a (codes "-p") || (bytes_eq a (codes "-o") || bytes_eq a (codes "-s")))

abbrev pub is_empty : Bytes → Bool
is_empty [] = true
is_empty (c ∷ s) = false

-- The options with the text of their argument.
unfoldable pub size_option : Bytes → Options → OptionError ⊎ Options
unfolding strtol
size_option v o =
    let (size, end) = strtol v in
    if is_empty end && is_positive size
    then inr (record o { max_str_len = min (to_ℕ size) str_arg_buf_len })
    else inl (not_a_size v)

unfoldable pub pid_option : Bytes → Options → OptionError ⊎ Options
unfolding strtol
pid_option v o =
    let (pid, end) = strtol v in
    if is_empty end && is_positive pid
    then inr (record o { attach_pid = to_pid pid })
    else inl (not_a_pid v)

unfoldable pub filter_option : Bytes → Options → OptionError ⊎ Options
unfolding parse_trace_filter
filter_option v o =
    if bytes_eq (take 6 v) (codes "trace=")
    then inr (record o { filter_tokens = parse_trace_filter (drop 6 v) o.filter_tokens })
    else inl (not_a_filter v)

unfoldable pub argument_option : Bytes → Bytes → Options → OptionError ⊎ Options
unfolding size_option pid_option filter_option
argument_option a v o =
    if bytes_eq a (codes "-o")
    then inr (record o { output_file = some v })
    else if bytes_eq a (codes "-s")
    then size_option v o
    else if bytes_eq a (codes "-p")
    then pid_option v o
    else filter_option v o

-- The loop: it ends at the first text that is no option.
unfoldable pub parse_options : List Bytes → Options → Parsed
unfolding plain_option takes_argument argument_option
parse_options [] o = parsed o []
parse_options (a ∷ []) o = elim (plain_option a o) [
  | some o' ↦ parsed o' []
  | none ↦ if takes_argument a then failed (missing_argument a) else parsed o (a ∷ [])
]
parse_options (a ∷ v ∷ args) o = elim (plain_option a o) [
  | some o' ↦ parse_options (v ∷ args) o'
  | none ↦ elim (takes_argument a) [
    | false ↦ parsed o (a ∷ v ∷ args)
    | true ↦ elim (argument_option a v o) [ inl e ↦ failed e | inr o' ↦ parse_options args o' ]
  ]
]

-- What `main` does next: attach, run a program with its arguments, or show the usage.
pub data Plan : Type 0 where
  give_up : OptionError → Plan
  attach : Options → Plan
  run_program : Options → List Bytes → Plan
  show_usage : Plan

abbrev pub is_minus_one : ℤ → Bool
is_minus_one (pos n) = false
is_minus_one (negsuc n) = n == 0

abbrev pub plan_of : Parsed → Plan
plan_of (failed e) = give_up e
plan_of (parsed o rest) =
    if not (is_minus_one o.attach_pid)
    then attach o
    else elim rest [ [] ↦ show_usage | a ∷ args ↦ run_program o (a ∷ args) ]

unfoldable pub main_plan : List Bytes → Plan
unfolding parse_options
main_plan argv = plan_of (parse_options argv default_options)

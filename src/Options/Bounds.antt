-- ===== src/Options/Bounds.antt =====
-- What holds of the options that `main` goes on with.
use mini_strace.Base.{
  if_keeps, ◌≤◌, ◌<◌, Bool, true, false, not, ◌&&◌, List, [], ◌∷◌, ◌++◌, Option, none, some, ◌≡◌,
  refl, ap, arith, if◌then◌else◌, length, take, length-take, min, ◌⊎◌, inl, inr, Bool-cases,
  Option-cases, map, drop, codes, subst, zero, suc,
}
use mini_strace.Base.Bytes.{Bytes, bytes_eq}
use mini_strace.Base.Int.{ℤ, pos, negsuc, is_positive, to_ℕ}
use mini_strace.Filter.{parse_trace_filter, max_filter_tokens}
use mini_strace.Filter.Tokens.{fields}
use mini_strace.Filter.Parse.{parse_trace_filter-fields, stored}
use mini_strace.ChildMem.{str_arg_buf_len}
use mini_strace.Dispatch.Pending.{is_some}
use mini_strace.Options.{
  Options, default_options, OptionError, Parsed, failed, parsed, plain_option, takes_argument,
  size_option, pid_option, filter_option, argument_option, parse_options, strtol, is_empty, to_pid,
  not_a_size, not_a_pid, not_a_filter,
}

-- What the readers of the memory and the filter rely on.
abbrev pub InRange : Options → Type 0
InRange o =
    (0 < o.max_str_len)
    × (o.max_str_len ≤ str_arg_buf_len)
    × (length o.filter_tokens ≤ max_filter_tokens)

-- A text at which the loop ends.
abbrev pub no_option : Bytes → Bool
no_option a = not (is_some (plain_option a default_options)) && not (takes_argument a)

-- The same of a result, if it is no error.
abbrev SomeInRange : Option Options → Type 0
SomeInRange none = Unit
SomeInRange (some o) = InRange o

abbrev RightInRange : OptionError ⊎ Options → Type 0
RightInRange (inl e) = Unit
RightInRange (inr o) = InRange o

plain_option-InRange : (a : Bytes) (o : Options) → InRange o → SomeInRange (plain_option a o)
unfolding plain_option
plain_option-InRange a o h =
    go (bytes_eq a (codes "-f")) (bytes_eq a (codes "-y")) (bytes_eq a (codes "-T"))
      (bytes_eq a (codes "-c"))
  where
    go :
        (f y t c : Bool)
        → SomeInRange (
            if f
            then some (record o { follow_forks = true })
            else if y
            then some (record o { show_fd_paths = true })
            else if t
            then some (record o { show_timing = true })
            else if c
            then some (record o { summary_mode = true })
            else none)
    go true y t c = h
    go false true t c = h
    go false false true c = h
    go false false false true = h
    go false false false false = tt

size_option-InRange : (v : Bytes) (o : Options) → InRange o → RightInRange (size_option v o)
unfolding size_option
size_option-InRange v o (low, high, few) = go (is_empty (strtol v).1) (strtol v).0
  where
    go :
        (ended : Bool) (size : ℤ)
        → RightInRange (
            if ended && is_positive size
            then inr (record o { max_str_len = min (to_ℕ size) str_arg_buf_len })
            else inl (not_a_size v))
    go false size = tt
    go true (negsuc n) = tt
    go true (pos zero) = tt
    go true (pos (suc n)) = (omega arith, omega arith, few)

filter_option-InRange : (v : Bytes) (o : Options) → InRange o → RightInRange (filter_option v o)
unfolding filter_option
filter_option-InRange v o (low, high, few) =
    let tokens = parse_trace_filter (drop 6 v) o.filter_tokens in
    let kept = parse_trace_filter-fields (drop 6 v) o.filter_tokens few in
    let sixteen : length tokens ≤ max_filter_tokens = rw kept (
      omega (
        arith,
        length-take max_filter_tokens (o.filter_tokens ++ map stored (fields (drop 6 v))),
      )) in
    if_keeps RightInRange (bytes_eq (take 6 v) (codes "trace="))
      (inr (record o { filter_tokens = tokens })) (inl (not_a_filter v)) (low, high, sixteen) tt

argument_option-InRange :
    (a v : Bytes) (o : Options) → InRange o → RightInRange (argument_option a v o)
unfolding argument_option pid_option
argument_option-InRange a v o h =
    if_keeps RightInRange (bytes_eq a (codes "-o")) (inr (record o { output_file = some v })) _ h (
      if_keeps RightInRange (bytes_eq a (codes "-s")) (size_option v o) _
        (size_option-InRange v o h)
        (if_keeps RightInRange (bytes_eq a (codes "-p")) (pid_option v o) (filter_option v o)
          (if_keeps RightInRange (is_empty (strtol v).1 && is_positive (strtol v).0)
            (inr (record o { attach_pid = to_pid (strtol v).0 })) (inl (not_a_pid v)) h tt)
          (filter_option-InRange v o h)))

-- The options left over: none, or a program's name, which is no option, and its arguments.
abbrev pub Program : List Bytes → Type 0
Program [] = Unit
Program (a ∷ args) = no_option a ≡ true

-- What the loop makes of some texts, if it does not fail.
abbrev Outcome : List Bytes → Parsed → Type 0
Outcome argv (failed e) = Unit
Outcome argv (parsed o rest) =
    InRange o × ((before : List Bytes) × (argv ≡ before ++ rest)) × Program rest

no_option_for :
    (a : Bytes) (o : Options)
    → plain_option a o ≡ none
    → takes_argument a ≡ false
    → no_option a ≡ true
unfolding plain_option
no_option_for a o e f = ground arith

Outcome-longer :
    (a : Bytes) (argv : List Bytes) (p : Parsed) → Outcome argv p → Outcome (a ∷ argv) p
Outcome-longer a argv (failed e) h = tt
Outcome-longer a argv (parsed o rest) (good, (before, e), program) =
    (good, (a ∷ before, ap (◌∷◌ a) e), program)

result_cases :
    (r : OptionError ⊎ Options) → ((e : OptionError) × (r ≡ inl e)) ⊎ ((o : Options) × (r ≡ inr o))
result_cases (inl e) = inl (e, refl)
result_cases (inr o) = inr (o, refl)

parse_options-Outcome :
    (argv : List Bytes) (o : Options) → InRange o → Outcome argv (parse_options argv o)
unfolding parse_options
parse_options-Outcome [] o h = (h, ([], refl), tt)
parse_options-Outcome (a ∷ []) o h = elim (Option-cases (plain_option a o)) [
  | inr (o', e) ↦
      let next = subst SomeInRange e (plain_option-InRange a o h) in
      rw (e, parse_options) (next, (a ∷ [], refl), tt)
  | inl e ↦ elim (Bool-cases (takes_argument a)) [
    | inr f ↦ rw (e, f, parse_options) (h, ([], refl), no_option_for a o e f)
    | inl f ↦ rw (e, f, parse_options) tt
  ]
]
parse_options-Outcome (a ∷ v ∷ args) o h = elim (Option-cases (plain_option a o)) [
  | inr (o', e) ↦
      let next = subst SomeInRange e (plain_option-InRange a o h) in
      rw (e, parse_options)
        (Outcome-longer a (v ∷ args) (parse_options (v ∷ args) o')
          (parse_options-Outcome (v ∷ args) o' next))
  | inl e ↦ elim (Bool-cases (takes_argument a)) [
    | inr f ↦ rw (e, f, parse_options) (h, ([], refl), no_option_for a o e f)
    | inl f ↦ elim (result_cases (argument_option a v o)) [
      | inl (x, k) ↦ rw (e, f, k, parse_options) tt
      | inr (o', k) ↦
          let next = subst RightInRange k (argument_option-InRange a v o h) in
          rw (e, f, k, parse_options)
            (Outcome-longer a (v ∷ args) (parse_options args o')
              (Outcome-longer v args (parse_options args o') (parse_options-Outcome args o' next)))
    ]
  ]
]

-- Where `main` goes on after its options, it has an `-s` size of 1 to 1024 and sixteen filter tokens at
-- most; and it has read the options up to a program's name, which is none of the eight options and is
-- left over with its arguments, or up to the end.
pub main_options-InRange :
    (argv rest : List Bytes) (o : Options)
    → parse_options argv default_options ≡ parsed o rest
    → InRange o × ((before : List Bytes) × (argv ≡ before ++ rest)) × Program rest
main_options-InRange argv rest o e =
    subst (Outcome argv) e
      (parse_options-Outcome argv default_options (omega arith, omega arith, omega arith))

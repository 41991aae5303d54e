-- ===== src/Options/Failing.antt =====
-- `main` of src/mini_strace.c: each test of an option's argument against the words of the usage text.
use mini_strace.Base.{
  min, suc, zero, ℕ, Bool, true, false, [], ◌∷◌, ◌++◌, ◌≡◌, ◌⊎◌, ◌↔◌, inl, inr, refl, ap, sym, ◌∙◌,
  subst, codes, take, drop, Bool-cases,
}
use mini_strace.Base.Int.{to_ℕ}
use mini_strace.Filter.{parse_trace_filter}
use mini_strace.ChildMem.{str_arg_buf_len}
use mini_strace.Base.Bytes.{Bytes, bytes_eq, bytes_eq_iff}
use mini_strace.Options.{
  to_pid, Options, OptionError, not_a_size, not_a_pid, not_a_filter, argument_option, size_option,
  pid_option, filter_option, strtol,
}
use mini_strace.Options.Numerals.{IsNumeral, is_read, strtol-IsNumeral}
use mini_strace.Options.Refused.{IsPaired, IsTrace, IsPair, IsRefused}

take-drop : (n : ℕ) (s : Bytes) → s ≡ take n s ++ drop n s
take-drop zero s = refl
take-drop (suc n) [] = refl
take-drop (suc n) (c ∷ s) = ap (◌∷◌ c) (take-drop n s)

IsTrace-iff : (v : Bytes) → (bytes_eq (take 6 v) (codes "trace=") ≡ true) ↔ IsTrace v
unfolding bytes_eq
IsTrace-iff v = (
  λ h. (
    drop 6 v,
    take-drop 6 v ∙ ap (λ s. s ++ drop 6 v) ((bytes_eq_iff (take 6 v) (codes "trace=")).0 h),
  ),
  λ (list, e). subst (λ s. bytes_eq (take 6 s) (codes "trace=") ≡ true) (sym e) refl,
)

-- What the option makes of its argument.
abbrev Taken : Bytes → Bytes → Options → Type 0
Taken a v o = (o' : Options) × (argument_option a v o ≡ inr o')

size_option-Taken : (v : Bytes) (o : Options) → IsNumeral v → Taken (codes "-s") v o
unfolding argument_option size_option bytes_eq
size_option-Taken v o n =
    let ok = (strtol-IsNumeral v).1 n in
    (record o { max_str_len = min (to_ℕ (strtol v).0) str_arg_buf_len }, rw ok refl)

size_refused :
    (v : Bytes) (o : Options)
    → is_read (strtol v) ≡ false
    → argument_option (codes "-s") v o ≡ inl (not_a_size v)
unfolding argument_option size_option bytes_eq
size_refused v o n = rw n refl

pid_option-Taken : (v : Bytes) (o : Options) → IsNumeral v → Taken (codes "-p") v o
unfolding argument_option pid_option bytes_eq
pid_option-Taken v o n =
    let ok = (strtol-IsNumeral v).1 n in (record o { attach_pid = to_pid (strtol v).0 }, rw ok refl)

pid_refused :
    (v : Bytes) (o : Options)
    → is_read (strtol v) ≡ false
    → argument_option (codes "-p") v o ≡ inl (not_a_pid v)
unfolding argument_option pid_option bytes_eq
pid_refused v o n = rw n refl

filter_option-Taken : (v : Bytes) (o : Options) → IsTrace v → Taken (codes "-e") v o
unfolding argument_option filter_option bytes_eq
filter_option-Taken v o n =
    let ok = (IsTrace-iff v).1 n in
    (record o { filter_tokens = parse_trace_filter (drop 6 v) o.filter_tokens }, rw ok refl)

filter_refused :
    (v : Bytes) (o : Options)
    → bytes_eq (take 6 v) (codes "trace=") ≡ false
    → argument_option (codes "-e") v o ≡ inl (not_a_filter v)
unfolding argument_option filter_option bytes_eq
filter_refused v o n = rw n refl

output_file-Taken : (v : Bytes) (o : Options) → Taken (codes "-o") v o
unfolding argument_option bytes_eq
output_file-Taken v o = (_, refl)

-- An option with its argument takes it or refuses it.
abbrev Verdict : Bytes → Bytes → Options → Type 0
Verdict a v o =
    (IsPair a v × Taken a v o)
    ⊎ ((e : OptionError) × IsRefused a v e × (argument_option a v o ≡ inl e))

IsPaired-Verdict : (a v : Bytes) (o : Options) → IsPaired a → Verdict a v o
IsPaired-Verdict a v o (inl e) =
    subst (λ b. Verdict b v o) (sym e)
      (elim (Bool-cases (bytes_eq (take 6 v) (codes "trace="))) [
        | inl ok ↦
            let t = (IsTrace-iff v).0 ok in inl (inr (inr (refl, t)), filter_option-Taken v o t)
        | inr bad ↦
            let none_there = λ (t : IsTrace v). absurd (cc ((IsTrace-iff v).1 t, bad)) in
            inr (not_a_filter v, inr (inr (refl, none_there, refl)), filter_refused v o bad)
      ])
IsPaired-Verdict a v o (inr (inl e)) =
    subst (λ b. Verdict b v o) (sym e)
      (elim (Bool-cases (is_read (strtol v))) [
        | inl ok ↦
            let n = (strtol-IsNumeral v).0 ok in inl (inr (inl (refl, n)), pid_option-Taken v o n)
        | inr bad ↦
            let none_there = λ (n : IsNumeral v). absurd (cc ((strtol-IsNumeral v).1 n, bad)) in
            inr (not_a_pid v, inr (inl (refl, none_there, refl)), pid_refused v o bad)
      ])
IsPaired-Verdict a v o (inr (inr (inl e))) =
    subst (λ b. Verdict b v o) (sym e) (inl (inl (inl refl), output_file-Taken v o))
IsPaired-Verdict a v o (inr (inr (inr e))) =
    subst (λ b. Verdict b v o) (sym e)
      (elim (Bool-cases (is_read (strtol v))) [
        | inl ok ↦
            let n = (strtol-IsNumeral v).0 ok in inl (inl (inr (refl, n)), size_option-Taken v o n)
        | inr bad ↦
            let none_there = λ (n : IsNumeral v). absurd (cc ((strtol-IsNumeral v).1 n, bad)) in
            inr (not_a_size v, inl (refl, none_there, refl), size_refused v o bad)
      ])

pub argument_option-IsPair :
    (a v : Bytes) (o o' : Options) → IsPaired a → argument_option a v o ≡ inr o' → IsPair a v
argument_option-IsPair a v o o' p h = elim (IsPaired-Verdict a v o p) [
  | inl (pair, taken) ↦ pair
  | inr (e, refused, k) ↦ absurd (cc (h, k))
]

pub argument_option-IsRefused :
    (a v : Bytes) (o : Options) (e : OptionError)
    → IsPaired a
    → argument_option a v o ≡ inl e
    → IsRefused a v e
argument_option-IsRefused a v o e p h = elim (IsPaired-Verdict a v o p) [
  | inl (pair, (o', k)) ↦ absurd (cc (h, k))
  | inr (f, refused, k) ↦ let same : f ≡ e = cc (h, k) in subst (IsRefused a v) same refused
]

pub IsPair-Taken : (a v : Bytes) (o : Options) → IsPair a v → IsPaired a × Taken a v o
IsPair-Taken a v o (inl (inl e)) =
    (inr (inr (inl e)), subst (λ b. Taken b v o) (sym e) (output_file-Taken v o))
IsPair-Taken a v o (inl (inr (e, n))) =
    (inr (inr (inr e)), subst (λ b. Taken b v o) (sym e) (size_option-Taken v o n))
IsPair-Taken a v o (inr (inl (e, n))) =
    (inr (inl e), subst (λ b. Taken b v o) (sym e) (pid_option-Taken v o n))
IsPair-Taken a v o (inr (inr (e, t))) =
    (inl e, subst (λ b. Taken b v o) (sym e) (filter_option-Taken v o t))

not_true : (b : Bool) → (¬ (b ≡ true)) → b ≡ false
not_true true h = absurd (h refl)
not_true false h = refl

pub IsRefused-argument_option :
    (a v : Bytes) (o : Options) (e : OptionError)
    → IsRefused a v e
    → IsPaired a × (argument_option a v o ≡ inl e)
IsRefused-argument_option a v o e (inl (s, n, k)) =
    let bad = not_true (is_read (strtol v)) (λ h. n ((strtol-IsNumeral v).0 h)) in
    (
      inr (inr (inr s)),
      subst (λ b. argument_option b v o ≡ inl e) (sym s) (size_refused v o bad ∙ ap inl (sym k)),
    )
IsRefused-argument_option a v o e (inr (inl (s, n, k))) =
    let bad = not_true (is_read (strtol v)) (λ h. n ((strtol-IsNumeral v).0 h)) in
    (
      inr (inl s),
      subst (λ b. argument_option b v o ≡ inl e) (sym s) (pid_refused v o bad ∙ ap inl (sym k)),
    )
IsRefused-argument_option a v o e (inr (inr (s, n, k))) =
    let bad = not_true (bytes_eq (take 6 v) (codes "trace=")) (λ h. n ((IsTrace-iff v).0 h)) in
    (
      inl s,
      subst (λ b. argument_option b v o ≡ inl e) (sym s) (filter_refused v o bad ∙ ap inl (sym k)),
    )

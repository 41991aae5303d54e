-- ===== src/Options/Rejection.antt =====
-- `main` of src/mini_strace.c: which command lines it refuses, and why.
use mini_strace.Base.{
  List, [], ◌∷◌, ◌++◌, ◌≡◌, ◌↔◌, inl, inr, refl, sym, ◌∙◌, arith, Bool-cases, Option-cases,
}
use mini_strace.Base.Bytes.{Bytes}
use mini_strace.Options.{
  Options, OptionError, failed, parsed, plain_option, takes_argument, argument_option,
  parse_options,
}
use mini_strace.Options.Errors.{
  StopsAt, parse_options-GivesUp_iff, plain-parse_options, pair-parse_options, result-cases,
}
use mini_strace.Options.Refused.{
  AreOptions, BeginRefused, IsAlone-plain_option, plain_option-IsAlone, IsPaired-takes_argument,
  takes_argument-IsPaired,
}
use mini_strace.Options.Failing.{
  argument_option-IsPair, argument_option-IsRefused, IsPair-Taken, IsRefused-argument_option,
}

StopsAt-BeginRefused :
    (rest : List Bytes) (o : Options) (e : OptionError) → StopsAt rest o e → BeginRefused rest e
StopsAt-BeginRefused [] o e h = h
StopsAt-BeginRefused (a ∷ []) o e (p, t, k) = (takes_argument-IsPaired a t, sym k)
StopsAt-BeginRefused (a ∷ v ∷ args) o e (p, t, k) =
    argument_option-IsRefused a v o e (takes_argument-IsPaired a t) k

BeginRefused-StopsAt :
    (rest : List Bytes) (o : Options) (e : OptionError) → BeginRefused rest e → StopsAt rest o e
BeginRefused-StopsAt [] o e h = h
BeginRefused-StopsAt (a ∷ []) o e (p, k) =
    let (np, t) = IsPaired-takes_argument a o p in (np, t, sym k)
BeginRefused-StopsAt (a ∷ v ∷ args) o e r =
    let (p, k) = IsRefused-argument_option a v o e r in
    let (np, t) = IsPaired-takes_argument a o p in (np, t, k)

AreOptions-parse_options :
    (args : List Bytes) (o : Options)
    → AreOptions args
    → (o' : Options) × (parse_options args o ≡ parsed o' [])
unfolding parse_options
AreOptions-parse_options [] o h = (o, refl)
AreOptions-parse_options (a ∷ []) o h =
    let (o', p) = IsAlone-plain_option a o h in (o', rw (p, parse_options) refl)
AreOptions-parse_options (a ∷ v ∷ args) o (inl (alone, more)) =
    let (o', p) = IsAlone-plain_option a o alone in
    let (last, k) = AreOptions-parse_options (v ∷ args) o' more in
    (last, plain-parse_options a (v ∷ args) o o' p ∙ k)
AreOptions-parse_options (a ∷ v ∷ args) o (inr (pair, more)) =
    let (paired, (o', ok)) = IsPair-Taken a v o pair in
    let (np, t) = IsPaired-takes_argument a o paired in
    let (last, k) = AreOptions-parse_options args o' more in
    (last, pair-parse_options a v args o o' np t ok ∙ k)

parse_options-AreOptions :
    (args : List Bytes) (o o' : Options) → parse_options args o ≡ parsed o' [] → AreOptions args
unfolding parse_options
parse_options-AreOptions [] o o' h = tt
parse_options-AreOptions (a ∷ []) o o' h = elim (Option-cases (plain_option a o)) [
  | inr (o'', p) ↦ plain_option-IsAlone a o o'' p
  | inl np ↦ elim (Bool-cases (takes_argument a)) [
    | inr nt ↦ absurd (ground (arith, rw (np, nt, parse_options) at h))
    | inl t ↦ absurd (ground (arith, rw (np, t, parse_options) at h))
  ]
]
parse_options-AreOptions (a ∷ v ∷ args) o o' h = elim (Option-cases (plain_option a o)) [
  | inr (o'', p) ↦
      let more = parse_options-AreOptions (v ∷ args) o'' o' (rw (p, parse_options) at h) in
      inl (plain_option-IsAlone a o o'' p, more)
  | inl np ↦ elim (Bool-cases (takes_argument a)) [
    | inr nt ↦ absurd (ground (arith, rw (np, nt, parse_options) at h))
    | inl t ↦ elim (result-cases (argument_option a v o)) [
      | inl (f, bad) ↦ absurd (ground (arith, rw (np, t, bad, parse_options) at h))
      | inr (o'', ok) ↦
          let more = parse_options-AreOptions args o'' o' (rw (np, t, ok, parse_options) at h) in
          inr (argument_option-IsPair a v o o'' (takes_argument-IsPaired a t) ok, more)
    ]
  ]
]

-- A command line that is refused with this error.
abbrev pub IsRejected : List Bytes → OptionError → Type 0
IsRejected args e =
    (before : List Bytes) × (rest : List Bytes) × (args ≡ before ++ rest)
    × AreOptions before
    × BeginRefused rest e

-- The loop over the options fails with an error exactly if the arguments are a row of options, each of
-- them one of -f, -y, -T and -c, or -o with any text, or -s or -p with a whole number above 0 (behind
-- white space and a plus sign, if any), or -e with a text that begins with "trace=", and behind that row
-- one of these: -s, -p or -e with any other text, where the error is that the text is no size, no pid
-- or no filter; or -e, -p, -o or -s as the very last argument, where the error is that its argument
-- is missing.
pub parse_options-failed_iff :
    (args : List Bytes) (o : Options) (e : OptionError)
    → (parse_options args o ≡ failed e) ↔ IsRejected args e
parse_options-failed_iff args o e = (
  λ h.
      let (before, rest, o', eq, ok, bad) = (parse_options-GivesUp_iff args o e).0 h in
      (
        before,
        rest,
        eq,
        parse_options-AreOptions before o o' ok,
        StopsAt-BeginRefused rest o' e bad,
      ),
  λ (before, rest, eq, ok, bad).
      let (o', k) = AreOptions-parse_options before o ok in
      (parse_options-GivesUp_iff args o e).1
        (before, rest, o', eq, k, BeginRefused-StopsAt rest o' e bad),
)

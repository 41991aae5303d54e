-- ===== src/Options/Errors.antt =====
-- `main` of src/mini_strace.c: where the loop over the options gives up, in terms of its own tests.
use mini_strace.Base.{
  true, false, List, [], ◌∷◌, ◌++◌, none, some, ◌≡◌, ◌⊎◌, ◌↔◌, inl, inr, refl, ap, ◌∙◌, arith,
  Bool-cases, Option-cases,
}
use mini_strace.Base.Bytes.{Bytes}
use mini_strace.Options.{
  Options, OptionError, missing_argument, failed, parsed, plain_option, takes_argument,
  argument_option, parse_options,
}

-- The option that the rest of a command line begins with has no argument, or one that it refuses.
abbrev pub StopsAt : List Bytes → Options → OptionError → Type 0
StopsAt [] o e = false ≡ true
StopsAt (a ∷ []) o e =
    (plain_option a o ≡ none) × (takes_argument a ≡ true) × (missing_argument a ≡ e)
StopsAt (a ∷ v ∷ args) o e =
    (plain_option a o ≡ none) × (takes_argument a ≡ true) × (argument_option a v o ≡ inl e)

-- The options before it are all accepted.
abbrev pub GivesUp : List Bytes → Options → OptionError → Type 0
GivesUp args o e =
    (accepted : List Bytes) × (rest : List Bytes) × (o' : Options) × (args ≡ accepted ++ rest)
    × (parse_options accepted o ≡ parsed o' [])
    × StopsAt rest o' e

pub plain-parse_options :
    (a : Bytes) (args : List Bytes) (o o' : Options)
    → plain_option a o ≡ some o'
    → parse_options (a ∷ args) o ≡ parse_options args o'
unfolding parse_options
plain-parse_options a [] o o' h = rw (h, parse_options) refl
plain-parse_options a (v ∷ args) o o' h = rw (h, parse_options) refl

pub pair-parse_options :
    (a v : Bytes) (args : List Bytes) (o o' : Options)
    → plain_option a o ≡ none
    → takes_argument a ≡ true
    → argument_option a v o ≡ inr o'
    → parse_options (a ∷ v ∷ args) o ≡ parse_options args o'
unfolding parse_options
pair-parse_options a v args o o' h k l = rw (h, k, l, parse_options) refl

pub result-cases :
    (r : OptionError ⊎ Options) → ((e : OptionError) × (r ≡ inl e)) ⊎ ((o : Options) × (r ≡ inr o))
result-cases (inl e) = inl (e, refl)
result-cases (inr o) = inr (o, refl)

failed-GivesUp :
    (args : List Bytes) (o : Options) (e : OptionError)
    → parse_options args o ≡ failed e
    → GivesUp args o e
unfolding parse_options
failed-GivesUp [] o e h = absurd (ground arith)
failed-GivesUp (a ∷ []) o e h = elim (Option-cases (plain_option a o)) [
  | inr (o', p) ↦ absurd (ground (arith, rw (p, parse_options) at h))
  | inl np ↦ elim (Bool-cases (takes_argument a)) [
    | inr nt ↦ absurd (ground (arith, rw (np, nt, parse_options) at h))
    | inl t ↦
        let same : failed (missing_argument a) ≡ failed e = rw (np, t, parse_options) at h in
        ([], a ∷ [], o, refl, refl, (np, t, cc))
  ]
]
failed-GivesUp (a ∷ v ∷ args) o e h = elim (Option-cases (plain_option a o)) [
  | inr (o', p) ↦
      let (accepted, rest, o'', eq, ok, bad) =
        failed-GivesUp (v ∷ args) o' e (rw (p, parse_options) at h) in
      (a ∷ accepted, rest, o'', ap (◌∷◌ a) eq, plain-parse_options a accepted o o' p ∙ ok, bad)
  | inl np ↦ elim (Bool-cases (takes_argument a)) [
    | inr nt ↦ absurd (ground (arith, rw (np, nt, parse_options) at h))
    | inl t ↦ elim (result-cases (argument_option a v o)) [
      | inl (f, bad) ↦
          let same : failed f ≡ failed e = rw (np, t, bad, parse_options) at h in
          ([], a ∷ v ∷ args, o, refl, refl, (np, t, cc))
      | inr (o', ok) ↦
          let (accepted, rest, o'', eq, kept, bad) =
            failed-GivesUp args o' e (rw (np, t, ok, parse_options) at h) in
          (
            a ∷ v ∷ accepted,
            rest,
            o'',
            ap (λ l. a ∷ v ∷ l) eq,
            pair-parse_options a v accepted o o' np t ok ∙ kept,
            bad,
          )
    ]
  ]
]

accepted-parse_options :
    (accepted rest : List Bytes) (o o' : Options)
    → parse_options accepted o ≡ parsed o' []
    → parse_options (accepted ++ rest) o ≡ parse_options rest o'
unfolding parse_options
accepted-parse_options [] rest o o' h = let same : o ≡ o' = cc in ap (parse_options rest) same
accepted-parse_options (a ∷ []) rest o o' h = elim (Option-cases (plain_option a o)) [
  | inr (o'', p) ↦
      let kept : parsed o'' [] ≡ parsed o' [] = rw (p, parse_options) at h in
      let same : o'' ≡ o' = cc in plain-parse_options a rest o o'' p ∙ ap (parse_options rest) same
  | inl np ↦ elim (Bool-cases (takes_argument a)) [
    | inr nt ↦ absurd (ground (arith, rw (np, nt, parse_options) at h))
    | inl t ↦ absurd (ground (arith, rw (np, t, parse_options) at h))
  ]
]
accepted-parse_options (a ∷ v ∷ accepted) rest o o' h = elim (Option-cases (plain_option a o)) [
  | inr (o'', p) ↦
      plain-parse_options a (v ∷ (accepted ++ rest)) o o'' p
      ∙ accepted-parse_options (v ∷ accepted) rest o'' o' (rw (p, parse_options) at h)
  | inl np ↦ elim (Bool-cases (takes_argument a)) [
    | inr nt ↦ absurd (ground (arith, rw (np, nt, parse_options) at h))
    | inl t ↦ elim (result-cases (argument_option a v o)) [
      | inl (f, bad) ↦ absurd (ground (arith, rw (np, t, bad, parse_options) at h))
      | inr (o'', ok) ↦
          pair-parse_options a v (accepted ++ rest) o o'' np t ok
          ∙ accepted-parse_options accepted rest o'' o' (rw (np, t, ok, parse_options) at h)
    ]
  ]
]

StopsAt-failed :
    (rest : List Bytes) (o : Options) (e : OptionError)
    → StopsAt rest o e
    → parse_options rest o ≡ failed e
unfolding parse_options
StopsAt-failed [] o e h = absurd (ground arith)
StopsAt-failed (a ∷ []) o e (np, t, same) = rw (np, t, parse_options) (ap failed same)
StopsAt-failed (a ∷ v ∷ args) o e (np, t, bad) = rw (np, t, bad, parse_options) refl

pub parse_options-GivesUp_iff :
    (args : List Bytes) (o : Options) (e : OptionError)
    → (parse_options args o ≡ failed e) ↔ GivesUp args o e
parse_options-GivesUp_iff args o e = (
  failed-GivesUp args o e,
  λ (accepted, rest, o', eq, ok, bad).
      ap (λ l. parse_options l o) eq
      ∙ accepted-parse_options accepted rest o o' ok
      ∙ StopsAt-failed rest o' e bad,
)

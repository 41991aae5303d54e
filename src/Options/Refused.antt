-- ===== src/Options/Refused.antt =====
-- `main` of src/mini_strace.c: the command lines that it refuses, in the words of the usage text.
use mini_strace.Base.{
  true, false, List, [], ◌∷◌, ◌++◌, none, some, ◌≡◌, ◌⊎◌, inl, inr, refl, sym, arith, subst, codes,
}
use mini_strace.Base.Bytes.{Bytes, bytes_eq, bytes_eq_iff}
use mini_strace.Options.{
  Options, OptionError, missing_argument, not_a_size, not_a_pid, not_a_filter, plain_option,
  takes_argument,
}
use mini_strace.Options.Numerals.{IsNumeral}

-- The options without an argument.
abbrev pub IsAlone : Bytes → Type 0
IsAlone a = (a ≡ codes "-f") ⊎ (a ≡ codes "-y") ⊎ (a ≡ codes "-T") ⊎ (a ≡ codes "-c")

-- The options with one.
abbrev pub IsPaired : Bytes → Type 0
IsPaired a = (a ≡ codes "-e") ⊎ (a ≡ codes "-p") ⊎ (a ≡ codes "-o") ⊎ (a ≡ codes "-s")

abbrev pub IsTrace : Bytes → Type 0
IsTrace v = (list : Bytes) × (v ≡ codes "trace=" ++ list)

-- An option with an argument that it takes.
abbrev pub IsPair : Bytes → Bytes → Type 0
IsPair a v =
    ((a ≡ codes "-o") ⊎ ((a ≡ codes "-s") × IsNumeral v))
    ⊎ (((a ≡ codes "-p") × IsNumeral v) ⊎ ((a ≡ codes "-e") × IsTrace v))

-- Options alone and with arguments, up to the end.
abbrev pub AreOptions : List Bytes → Type 0
AreOptions [] = Unit
AreOptions (a ∷ []) = IsAlone a
AreOptions (a ∷ v ∷ args) = (IsAlone a × AreOptions (v ∷ args)) ⊎ (IsPair a v × AreOptions args)

-- What an option is refused for.
abbrev pub IsRefused : Bytes → Bytes → OptionError → Type 0
IsRefused a v e =
    ((a ≡ codes "-s") × (¬ IsNumeral v) × (e ≡ not_a_size v))
    ⊎ (((a ≡ codes "-p") × (¬ IsNumeral v) × (e ≡ not_a_pid v))
        ⊎ ((a ≡ codes "-e") × (¬ IsTrace v) × (e ≡ not_a_filter v)))

-- Arguments that begin with an option that lacks its argument or is refused.
abbrev pub BeginRefused : List Bytes → OptionError → Type 0
BeginRefused [] e = false ≡ true
BeginRefused (a ∷ []) e = IsPaired a × (e ≡ missing_argument a)
BeginRefused (a ∷ v ∷ args) e = IsRefused a v e

pub IsAlone-plain_option :
    (a : Bytes) (o : Options) → IsAlone a → (o' : Options) × (plain_option a o ≡ some o')
unfolding plain_option bytes_eq
IsAlone-plain_option a o (inl e) =
    subst (λ b. (o' : Options) × (plain_option b o ≡ some o')) (sym e) (_, refl)
IsAlone-plain_option a o (inr (inl e)) =
    subst (λ b. (o' : Options) × (plain_option b o ≡ some o')) (sym e) (_, refl)
IsAlone-plain_option a o (inr (inr (inl e))) =
    subst (λ b. (o' : Options) × (plain_option b o ≡ some o')) (sym e) (_, refl)
IsAlone-plain_option a o (inr (inr (inr e))) =
    subst (λ b. (o' : Options) × (plain_option b o ≡ some o')) (sym e) (_, refl)

pub plain_option-IsAlone : (a : Bytes) (o o' : Options) → plain_option a o ≡ some o' → IsAlone a
unfolding plain_option
plain_option-IsAlone a o o' h = ground (
  arith,
  bytes_eq_iff a (codes "-f"),
  bytes_eq_iff a (codes "-y"),
  bytes_eq_iff a (codes "-T"),
  bytes_eq_iff a (codes "-c"),
)

pub IsPaired-takes_argument :
    (a : Bytes) (o : Options) → IsPaired a → (plain_option a o ≡ none) × (takes_argument a ≡ true)
unfolding plain_option takes_argument bytes_eq
IsPaired-takes_argument a o h = elim h [
  | inl e ↦ subst (λ b. (plain_option b o ≡ none) × (takes_argument b ≡ true)) (sym e) (refl, refl)
  | inr (inl e) ↦
      subst (λ b. (plain_option b o ≡ none) × (takes_argument b ≡ true)) (sym e) (refl, refl)
  | inr (inr (inl e)) ↦
      subst (λ b. (plain_option b o ≡ none) × (takes_argument b ≡ true)) (sym e) (refl, refl)
  | inr (inr (inr e)) ↦
      subst (λ b. (plain_option b o ≡ none) × (takes_argument b ≡ true)) (sym e) (refl, refl)
]

pub takes_argument-IsPaired : (a : Bytes) → takes_argument a ≡ true → IsPaired a
unfolding takes_argument
takes_argument-IsPaired a h = ground (
  arith,
  bytes_eq_iff a (codes "-e"),
  bytes_eq_iff a (codes "-p"),
  bytes_eq_iff a (codes "-o"),
  bytes_eq_iff a (codes "-s"),
)

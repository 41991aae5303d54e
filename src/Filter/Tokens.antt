-- ===== src/Filter/Tokens.antt =====
-- `strtok` against the plain split of a text at its commas.
use mathlib.Core.List.{append-nil, append_assoc}
use mini_strace.Base.{
  ℕ, ◌≤◌, ◌<◌, false, List, [], ◌∷◌, ◌++◌, Option, none, some, if◌then◌else◌, ◌==◌, ◌≡◌, refl, ap,
  ◌∙◌, arith, length, Bool-cases, inl, inr,
}
use mini_strace.Base.Bytes.{Bytes}
use mini_strace.Filter.{skip_commas, cut_token, strtok}

-- A finished field; empty ones are dropped.
abbrev flush : Bytes → List Bytes
flush [] = []
flush (c ∷ t) = (c ∷ t) ∷ []

-- The fields of a text, with `current` read of the first.
pub split_from : Bytes → Bytes → List Bytes
split_from current [] = flush current
split_from current (c ∷ s) =
    let ended = flush current ++ split_from [] s in
    let longer = split_from (current ++ c ∷ []) s in if c == b',' then ended else longer

-- The non-empty fields between the commas of a text.
unfoldable pub fields : Bytes → List Bytes
unfolding split_from
fields s = split_from [] s

split_from-cut_token :
    (s current : Bytes)
    → split_from current s ≡ flush (current ++ (cut_token s).0) ++ split_from [] (cut_token s).1
unfolding split_from cut_token
split_from-cut_token [] current = simp append-nil
split_from-cut_token (c ∷ s) current = elim (Bool-cases (c == b',')) [
  | inl comma ↦ rw comma (simp append-nil)
  | inr other ↦ rw other (
      split_from-cut_token s (current ++ c ∷ [])
      ∙ rw (append_assoc current (c ∷ []) (cut_token s).0) refl)
]

length-cut_token : (s : Bytes) → length (cut_token s).1 ≤ length s
unfolding cut_token
length-cut_token [] = omega arith
length-cut_token (c ∷ s) = ground (arith, length-cut_token s)

split_from-skip_commas : (s : Bytes) → split_from [] s ≡ split_from [] (skip_commas s)
unfolding split_from skip_commas
split_from-skip_commas [] = refl
split_from-skip_commas (c ∷ s) = elim (Bool-cases (c == b',')) [
  | inl comma ↦ rw comma (split_from-skip_commas s)
  | inr other ↦ rw other (rw other refl)
]

length-skip_commas : (s : Bytes) → length (skip_commas s) ≤ length s
unfolding skip_commas
length-skip_commas [] = omega arith
length-skip_commas (c ∷ s) = ground (arith, length-skip_commas s)

-- What is left to skip does not begin with a comma.
skip_commas-head : (s : Bytes) (c : ℕ) (r : Bytes) → skip_commas s ≡ c ∷ r → (c == b',') ≡ false
unfolding skip_commas
skip_commas-head [] c r e = cc
skip_commas-head (d ∷ s) c r e = ground (arith, skip_commas-head s c r)

-- What a call of `strtok` says of the fields.
abbrev pub TokenSpec : Bytes → Option (Bytes × Bytes) → Type 0
TokenSpec s none = fields s ≡ []
TokenSpec s (some (tok, rest)) = (fields s ≡ tok ∷ fields rest) × (length rest < length s)

pub strtok-TokenSpec : (s : Bytes) → TokenSpec s (strtok s)
unfolding strtok fields
strtok-TokenSpec s = go (skip_commas s) refl
  where
    go :
        (t : Bytes)
        → skip_commas s ≡ t
        → TokenSpec s (elim t [ [] ↦ none | c ∷ r ↦ some (cut_token (c ∷ r)) ])
    go [] e = split_from-skip_commas s ∙ rw e refl
    go (c ∷ r) e =
        let other = skip_commas-head s c r e in
        let size = ap length e in
        (
          rw other (split_from-skip_commas s ∙ rw e (rw other (split_from-cut_token r (c ∷ [])))),
          rw other (omega (arith, size, length-skip_commas s, length-cut_token r)),
        )

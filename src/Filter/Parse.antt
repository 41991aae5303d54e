-- ===== src/Filter/Parse.antt =====
-- `parse_trace_filter` against the plain split at commas.
use mathlib.Core.List.{append-nil, append_assoc}
use mini_strace.Base.{
  ℕ, zero, suc, ◌-◌, ◌≤◌, ◌<◌, true, false, List, [], ◌∷◌, ◌++◌, Option, none, some, map, ltb, ◌≡◌,
  refl, sym, ◌∙◌, arith, length, take, length-append, take-append, take-eq_of_le, Bool-cases, inl,
  inr,
}
use mini_strace.Base.Bytes.{Bytes}
use mini_strace.Filter.{
  strtok, parse_loop, parse_trace_filter, max_filter_tokens, filter_token_size,
}
use mini_strace.Filter.Tokens.{fields, TokenSpec, strtok-TokenSpec}

-- What `snprintf` stores of a token.
abbrev pub stored : Bytes → Bytes
stored tok = take (filter_token_size - 1) tok

pub take_full :
    (tokens more : List Bytes)
    → length tokens ≡ max_filter_tokens
    → take max_filter_tokens (tokens ++ more) ≡ tokens
take_full tokens more h =
    take-append max_filter_tokens tokens more
    ∙ rw (h) (rw (take-eq_of_le max_filter_tokens tokens (omega arith)) (append-nil tokens))

-- One round of the loop, on what `strtok` returned, where the later rounds do as they should.
abbrev AddsFields : (Bytes → List Bytes → List Bytes) → Bytes → Type 0
AddsFields loop s =
    (tokens : List Bytes)
    → length tokens ≤ max_filter_tokens
    → loop s tokens ≡ take max_filter_tokens (tokens ++ map stored (fields s))

round_adds :
    (loop : Bytes → List Bytes → List Bytes) (s : Bytes) (r : Option (Bytes × Bytes))
    → TokenSpec s r
    → ((rest : Bytes) → length rest < length s → AddsFields loop rest)
    → (tokens : List Bytes) → length tokens ≤ max_filter_tokens
    → (elim r [
      | none ↦ tokens
      | some (tok, s') ↦ elim (ltb (length tokens) max_filter_tokens) [
        | true ↦ loop s' (tokens ++ stored tok ∷ [])
        | false ↦ tokens
      ]
    ])
      ≡ take max_filter_tokens (tokens ++ map stored (fields s))
round_adds loop s none e later tokens k =
    sym (rw e (rw (append-nil tokens) (take-eq_of_le max_filter_tokens tokens k)))
round_adds loop s (some (tok, rest)) e later tokens k =
    elim (Bool-cases (ltb (length tokens) max_filter_tokens)) [
      | inl room ↦
          let size = length-append tokens (stored tok ∷ []) in
          rw (room, e.0)
            (later rest e.1 (tokens ++ stored tok ∷ []) (ground arith)
              ∙ rw (append_assoc tokens (stored tok ∷ []) (map stored (fields rest))) refl)
      | inr full ↦ rw full (sym (take_full tokens (map stored (fields s)) (ground arith)))
    ]

parse_loop_fields : (fuel : ℕ) (s : Bytes) → length s < fuel → AddsFields (parse_loop fuel) s
unfolding parse_loop
parse_loop_fields zero s h tokens k = absurd (omega arith)
parse_loop_fields (suc fuel) s h tokens k =
    round_adds (parse_loop fuel) s (strtok s) (strtok-TokenSpec s)
      (λ rest shorter. parse_loop_fields fuel rest (omega arith)) tokens k

-- Parsing a set appends its non-empty comma-separated fields, each cut to 63 bytes, to the tokens
-- that earlier `-e` options left, sixteen at most, and keeps the first sixteen of them all.
pub parse_trace_filter-fields :
    (set : Bytes) (tokens : List Bytes)
    → length tokens ≤ max_filter_tokens
    → parse_trace_filter set tokens ≡ take max_filter_tokens (tokens ++ map stored (fields set))
unfolding parse_trace_filter
parse_trace_filter-fields set tokens k =
    parse_loop_fields (suc (length set)) set (omega arith) tokens k

-- ===== src/Filter/Allowed.antt =====
-- Which calls the parsed filter lets through.
use mini_strace.Base.{
  String, Bool, true, ◌&&◌, ◌||◌, List, [], ◌∷◌, ◌≡◌, ◌⊎◌, ◌↔◌, inl, inr, refl, arith, codes,
  str_eq, str_eq_iff, Bool-cases,
}
use mini_strace.Base.Bytes.{Bytes, bytes_eq, bytes_eq_iff}
use mini_strace.Filter.{
  file_syscalls, network_syscalls, process_syscalls, name_in_list, token_allows, any_token_allows,
  syscall_allowed,
}

-- The name stands in a list.
pub data Listed (name : String) : List String → Type 0 where
  first : {entry : String} {list : List String} → entry ≡ name → Listed name (entry ∷ list)
  later : {entry : String} {list : List String} → Listed name list → Listed name (entry ∷ list)

-- What a token selects: the calls of its category, or the call of its own name.
pub data Selects : Bytes → String → Type 0 where
  category_file :
      {tok : Bytes} {name : String}
      → tok ≡ codes "file"
      → Listed name file_syscalls
      → Selects tok name
  category_network :
      {tok : Bytes} {name : String}
      → tok ≡ codes "network"
      → Listed name network_syscalls
      → Selects tok name
  category_process :
      {tok : Bytes} {name : String}
      → tok ≡ codes "process"
      → Listed name process_syscalls
      → Selects tok name
  exact_name : {tok : Bytes} {name : String} → tok ≡ codes name → Selects tok name

-- Some token of a filter selects the call.
pub data AnySelects (name : String) : List Bytes → Type 0 where
  this : {tok : Bytes} {tokens : List Bytes} → Selects tok name → AnySelects name (tok ∷ tokens)
  other :
      {tok : Bytes} {tokens : List Bytes} → AnySelects name tokens → AnySelects name (tok ∷ tokens)

name_in_list→Listed :
    (list : List String) (name : String) → name_in_list list name ≡ true → Listed name list
unfolding name_in_list
name_in_list→Listed [] name h = cc
name_in_list→Listed (entry ∷ list) name h = elim (Bool-cases (str_eq entry name)) [
  | inl same ↦ first ((str_eq_iff entry name).0 same)
  | inr differ ↦ later (name_in_list→Listed list name (ground arith))
]

Listed→name_in_list :
    (name : String) {list : List String} → Listed name list → name_in_list list name ≡ true
unfolding name_in_list
Listed→name_in_list name (first {entry} e) = ground (arith, (str_eq_iff entry name).1 e)
Listed→name_in_list name (later {entry} l) = ground (arith, Listed→name_in_list name l)

and_true : (a b : Bool) → (a && b) ≡ true → (a ≡ true) × (b ≡ true)
and_true a b h = ground arith

or_cases : (a b : Bool) → (a || b) ≡ true → (a ≡ true) ⊎ (b ≡ true)
or_cases a b h = ground arith

-- A test of one category, inverted.
category :
    (tok : Bytes) (name word : String) (list : List String)
    → (bytes_eq tok (codes word) && name_in_list list name) ≡ true
    → (tok ≡ codes word) × Listed name list
category tok name word list h =
    let (e, l) = and_true (bytes_eq tok (codes word)) (name_in_list list name) h in
    ((bytes_eq_iff tok (codes word)).0 e, name_in_list→Listed list name l)

token_allows→Selects :
    (tok : Bytes) (name : String) → token_allows tok name ≡ true → Selects tok name
unfolding token_allows
token_allows→Selects tok name h = elim (or_cases _ _ h) [
  | inl c ↦ let (e, l) = category tok name "file" file_syscalls c in category_file e l
  | inr h' ↦ elim (or_cases _ _ h') [
    | inl c ↦ let (e, l) = category tok name "network" network_syscalls c in category_network e l
    | inr h'' ↦ elim (or_cases _ _ h'') [
      | inl c ↦ let (e, l) = category tok name "process" process_syscalls c in category_process e l
      | inr same ↦ exact_name ((bytes_eq_iff tok (codes name)).0 same)
    ]
  ]
]

Selects→token_allows :
    {tok : Bytes} {name : String} → Selects tok name → token_allows tok name ≡ true
unfolding token_allows
Selects→token_allows (category_file {tok} {name} e l) =
    ground (arith, (bytes_eq_iff tok (codes "file")).1 e, Listed→name_in_list name l)
Selects→token_allows (category_network {tok} {name} e l) =
    ground (arith, (bytes_eq_iff tok (codes "network")).1 e, Listed→name_in_list name l)
Selects→token_allows (category_process {tok} {name} e l) =
    ground (arith, (bytes_eq_iff tok (codes "process")).1 e, Listed→name_in_list name l)
Selects→token_allows (exact_name {tok} {name} e) =
    ground (arith, (bytes_eq_iff tok (codes name)).1 e)

any_token_allows→AnySelects :
    (tokens : List Bytes) (name : String)
    → any_token_allows tokens name ≡ true
    → AnySelects name tokens
unfolding any_token_allows
any_token_allows→AnySelects [] name h = cc
any_token_allows→AnySelects (tok ∷ tokens) name h = elim (or_cases _ _ h) [
  | inl t ↦ this (token_allows→Selects tok name t)
  | inr t ↦ other (any_token_allows→AnySelects tokens name t)
]

AnySelects→any_token_allows :
    (name : String) {tokens : List Bytes}
    → AnySelects name tokens
    → any_token_allows tokens name ≡ true
unfolding any_token_allows
AnySelects→any_token_allows name (this s) = ground (arith, Selects→token_allows s)
AnySelects→any_token_allows name (other s) = ground (arith, AnySelects→any_token_allows name s)

-- A call passes the filter exactly when no token is set, or some token selects it: as one of the calls
-- of a category that the token names, or by its own name.
pub syscall_allowed_iff :
    (tokens : List Bytes) (name : String)
    → (syscall_allowed tokens name ≡ true) ↔ ((tokens ≡ []) ⊎ AnySelects name tokens)
unfolding syscall_allowed
syscall_allowed_iff [] name = (λ h. inl refl, λ h. refl)
syscall_allowed_iff (tok ∷ tokens) name =
    (λ h. inr (any_token_allows→AnySelects (tok ∷ tokens) name h), λ h. back h)
  where
    back :
        (tok ∷ tokens ≡ []) ⊎ AnySelects name (tok ∷ tokens)
        → any_token_allows (tok ∷ tokens) name ≡ true
    back (inl e) = cc
    back (inr s) = AnySelects→any_token_allows name s

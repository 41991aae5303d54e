-- ===== src/Decoders/Walk.antt =====
-- src/decoders.c: `flag_entry`, the lookup of a value in a table of names, and the walk over a table of
-- flags that takes the named bits off a value.
use mini_strace.Base.{
  ℕ, ◌-◌, String, Bool, true, false, not, ◌&&◌, ◌||◌, List, [], ◌∷◌, ◌++◌, Option, none, some,
  if◌then◌else◌, ◌==◌, ltb, length, codes, bit_and,
}
use mini_strace.Base.Bytes.{Bytes}
use mini_strace.ChildMem.{hex_address}
use mini_strace.Decoders.Text.{append_text, unless_first}

pub record FlagEntry : Type 0 where
  pub value : ℕ
  pub name : String

abbrev pub row : ℕ → String → FlagEntry
row value name = record { value = value; name = name }

-- A table without its final row, whose name is NULL.
abbrev pub FlagTable : Type 0
FlagTable = List FlagEntry

-- The name of a value: the first row that has it.
unfoldable pub name_of_value : FlagTable → ℕ → Option String
name_of_value [] value = none
name_of_value (e ∷ table) value =
    if e.value == value then some e.name else name_of_value table value

-- A value that is no flag word: its name, or else the number.
unfoldable pub enum_text : FlagTable → ℕ → Bytes
unfolding name_of_value hex_address
enum_text table value = elim (name_of_value table value) [
  | some name ↦ codes name
  | none ↦ hex_address value
]

-- `(remaining & value) == value`
abbrev pub has_bits : ℕ → ℕ → Bool
has_bits remaining value = bit_and remaining value == value

-- `remaining &= ~value`
abbrev pub clear_bits : ℕ → ℕ → ℕ
clear_bits remaining value = remaining - bit_and remaining value

-- Whether a row is written; four of the walks pass over rows of the value 0.
abbrev pub claims : Bool → ℕ → FlagEntry → Bool
claims skip_zero remaining e = (not skip_zero || not (e.value == 0)) && has_bits remaining e.value

-- The walk, from what remains and what is written.
unfoldable pub walk : Bool → ℕ → FlagTable → ℕ → Bytes → ℕ × Bytes
unfolding append_text
walk skip_zero out_size [] remaining out = (remaining, out)
walk skip_zero out_size (e ∷ table) remaining out = elim (ltb (length out) out_size) [
  | false ↦ (remaining, out)
  | true ↦ elim (claims skip_zero remaining e) [
    | true ↦
        walk skip_zero out_size table (clear_bits remaining e.value)
          (append_text out_size (unless_first (b'|' ∷ []) out ++ codes e.name) out)
    | false ↦ walk skip_zero out_size table remaining out
  ]
]

-- The end of a walk: what remains as a number.
abbrev pub append_rest : ℕ → ℕ × Bytes → Bytes
append_rest out_size (remaining, out) =
    if not (remaining == 0)
    then append_text out_size (unless_first (b'|' ∷ []) out ++ hex_address remaining) out
    else out

-- A flag word with a text of its own for 0.
unfoldable pub flags_text : String → FlagTable → ℕ → ℕ → Bytes
unfolding walk
flags_text zero_name table value out_size =
    if value == 0
    then codes zero_name
    else append_rest out_size (walk false out_size table value [])

-- A flag word that is written as a number where no name was.
unfoldable pub bare_flags_text : FlagTable → ℕ → ℕ → Bytes
unfolding walk hex_address
bare_flags_text table value out_size =
    let (remaining, out) = walk true out_size table value [] in
    if length out == 0 || not (remaining == 0)
    then append_text out_size (unless_first (b'|' ∷ []) out ++ hex_address remaining) out
    else out

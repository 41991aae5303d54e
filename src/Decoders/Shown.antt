-- ===== src/Decoders/Shown.antt =====
-- What the text of a flag word says of it, whatever the table is.
use mini_strace.Base.{ℕ, ◌+◌, ◌<◌, String, true, false, ◌++◌, ◌≡◌, all_of}
use mini_strace.Base.Bytes.{Bytes}
use mini_strace.Decoders.Walk.{FlagTable, has_bits, flags_text}
use mini_strace.Decoders.Parts.{
  total, parts, parts-total, parts-had, parts-none_left, none_left, IsSublist, parts-IsSublist,
}
use mini_strace.Decoders.Joined.{joined, texts, rest_text, budget, has_name, flags_text-joined}

-- A text of names and of a last number: the names are those of rows of the table, each row once and in the
-- table's order, the values of these rows and the number add up to the word, the bits of each of these
-- rows are all set in the word, and no row of the table, but one of the value 0, has its bits all set in
-- the number.
abbrev pub Describes : FlagTable → ℕ → Bytes → Type 0
Describes table value s =
    (rows : FlagTable) × (left : ℕ) × IsSublist rows table
    × (s ≡ joined (texts rows ++ rest_text left))
    × (total rows + left ≡ value)
    × (all_of (λ e. has_bits value e.value) rows ≡ true)
    × (none_left left table ≡ true)

-- The text of a flag word other than 0 is a list, joined by bars, of the names of rows of the table, each
-- row once and in the table's order, and of at most one number behind them, which describes the word: the
-- values add up to it, the bits of each written row are all set in it, and no row of the table of a value
-- other than 0 has its bits all set in the number. The table's names are not empty, and the buffer has
-- room for them all with their bars.
pub flags_text-Describes :
    (zero_name : String) (table : FlagTable) (value out_size : ℕ)
    → 0 < value
    → budget table < out_size
    → all_of has_name table ≡ true
    → Describes table value (flags_text zero_name table value out_size)
flags_text-Describes zero_name table value out_size z room named = (
  (parts false table value).0,
  (parts false table value).1,
  parts-IsSublist false table value,
  flags_text-joined zero_name table value out_size z room named,
  parts-total false table value,
  parts-had false table value,
  parts-none_left false table value,
)

-- ===== src/ChildMem/Escape.antt =====
-- How bytes are shown: an independent reader of the quoted form, and what the writer gives it.

use mini_strace.Base.{
  ℕ, ◌+◌, ◌-◌, ◌*◌, ◌/◌, ◌%◌, ◌<◌, Bool, true, [], ◌∷◌, ◌++◌, Option, none, some, ◌≡◌, refl, ◌∙◌,
  arith, if◌then◌else◌, ◌==◌, ltb, all_of,
}
use mini_strace.Base.Bytes.{Bytes}
use mini_strace.ChildMem.{hex_digit, escape_byte}

-- The whole text, shown without a bound.
abbrev pub escape_all : Bytes → Bytes
escape_all [] = []
escape_all (c ∷ s) = escape_byte c ++ escape_all s

-- The value of a digit.
abbrev pub digit_value : ℕ → ℕ
digit_value d = if ltb d b'a' then d - b'0' else d - b'a' + 10

abbrev pub map_cons : ℕ → Option Bytes → Option Bytes
map_cons c none = none
map_cons c (some s) = some (c ∷ s)

-- Where a reader of the shown form stands.
pub data Reading : Type 0 where
  plain after_backslash high_digit : Reading
  low_digit : (high : ℕ) → Reading

-- A reader of the shown form: `\xHH`, `\n`, `\"`, `\\`, and any other byte for itself.
unfoldable pub unescape : Reading → Bytes → Option Bytes
unescape plain [] = some []
unescape plain (c ∷ s) =
    if c == b'\\' then unescape after_backslash s else map_cons c (unescape plain s)
unescape after_backslash (c ∷ s) =
    if c == b'x'
    then unescape high_digit s
    else map_cons (if c == b'n' then b'\n' else c) (unescape plain s)
unescape high_digit (c ∷ s) = unescape (low_digit (digit_value c)) s
unescape (low_digit high) (c ∷ s) = map_cons (high * 16 + digit_value c) (unescape plain s)
unescape _ [] = none

pub digit_value-hex_digit : (d : ℕ) → d < 16 → digit_value (hex_digit d) ≡ d
unfolding hex_digit
digit_value-hex_digit d h = ground arith

unescape-escape_byte :
    (c : ℕ) (s : Bytes)
    → c < 256
    → unescape plain (escape_byte c ++ s) ≡ map_cons c (unescape plain s)
unfolding unescape escape_byte
unescape-escape_byte c s h = ground (
  arith,
  digit_value-hex_digit (c / 16) (omega arith),
  digit_value-hex_digit (c % 16) (omega arith),
)

abbrev pub are_bytes : Bytes → Bool
are_bytes s = all_of (λ c. ltb c 256) s

-- What is shown of some bytes, without a bound, determines them: reading it back gives the bytes,
-- whatever they are.
pub unescape-escape_all : (s : Bytes) → are_bytes s ≡ true → unescape plain (escape_all s) ≡ some s
unfolding unescape
unescape-escape_all [] h = refl
unescape-escape_all (c ∷ s) h =
    let ih = unescape-escape_all s (ground arith) in
    unescape-escape_byte c (escape_all s) (ground arith) ∙ rw ih refl

-- ===== src/Dispatch/Ladder.antt =====
-- src/mini_strace.c, `run_tracer`: an if-else chain over `mask & (1 << i)` tests, as the list of its
-- masks, and the search for the first set bit of a mask.
use mini_strace.Base.{
  ℕ, zero, suc, ◌+◌, ◌^◌, Bool, not, List, [], ◌∷◌, Option, none, some, if◌then◌else◌, ◌==◌,
  bit_and,
}
use mini_strace.Dispatch.Decoder.{Decoder}

abbrev pub Ladder : Type 0
Ladder = List (ℕ × Decoder)

-- `mask & (1 << i)`
abbrev pub bit_at : ℕ → ℕ → Bool
bit_at mask i = not (bit_and mask (2 ^ i) == 0)

-- The first rung whose mask has bit `i`.
unfoldable pub first_rung : Ladder → ℕ → Option Decoder
first_rung [] i = none
first_rung ((mask, d) ∷ ladder) i = if bit_at mask i then some d else first_rung ladder i

-- `for (i = 0; i < 6; i++) if (mask & (1 << i)) { idx = i; break; }`, on the rounds left; `none` is
-- the -1 that `idx` starts from.
unfoldable pub first_bit : ℕ → ℕ → ℕ → Option ℕ
first_bit zero i mask = none
first_bit (suc rounds) i mask =
    let rest = first_bit rounds (i + 1) mask in if bit_at mask i then some i else rest

abbrev pub slot_of : ℕ → Option ℕ
slot_of mask = first_bit 6 0 mask

-- ===== src/Decoders/Text.antt =====
-- src/decoders.c: `oi += snprintf(out + oi, out_size - oi, ...)`. The text `out` is the one that was
-- asked for, so that `oi` is its length. As long as each writing begins within the buffer, the buffer
-- holds what one `snprintf` would keep of the whole text.
use mini_strace.Base.{
  ℕ, zero, suc, ◌+◌, ◌/◌, ◌%◌, ◌^◌, ◌-◌, [], ◌∷◌, ◌++◌, if◌then◌else◌, ◌==◌, ltb, leb, length,
  Option, none, some,
}
use mini_strace.Base.Bytes.{Bytes}
use mini_strace.Base.Int.{ℤ, pos, negsuc}

-- The writing that the test `oi < out_size` guards.
unfoldable pub append_text : ℕ → Bytes → Bytes → Bytes
append_text out_size s out = if ltb (length out) out_size then out ++ s else out

-- The writing that no test guards: where `oi` is past the end of the buffer, `out_size - oi` wraps
-- around, and the bytes are written behind the buffer; this is `none`.
unfoldable pub write_text : ℕ → Bytes → Bytes → Option Bytes
write_text out_size s out = if leb (length out) out_size then some (out ++ s) else none

-- `%llu` and `%llo`, on the digits left.
unfoldable pub radix_digits : ℕ → ℕ → ℕ → Bytes
radix_digits base zero n = []
radix_digits base (suc fuel) n =
    let rest = radix_digits base fuel (n / base) in
    (if n / base == 0 then [] else rest) ++ (b'0' + n % base) ∷ []

-- `%llu`: 2^64 has twenty digits.
unfoldable pub decimal : ℕ → Bytes
unfolding radix_digits
decimal n = radix_digits 10 20 n

-- `%llo`: 2^64 has twenty-two digits.
unfoldable pub octal : ℕ → Bytes
unfolding radix_digits
octal n = radix_digits 8 22 n

-- `%lld`
unfoldable pub signed_decimal : ℤ → Bytes
unfolding decimal
signed_decimal (pos n) = decimal n
signed_decimal (negsuc n) = b'-' ∷ decimal (suc n)

-- `(int)`, of the low 32 bits.
unfoldable pub as_int : ℕ → ℤ
as_int n = let low = n % 2 ^ 32 in if ltb low (2 ^ 31) then pos low else negsuc (2 ^ 32 - 1 - low)

-- `(long)` and `(long long)`
unfoldable pub as_long : ℕ → ℤ
as_long n = if ltb n (2 ^ 63) then pos n else negsuc (2 ^ 64 - 1 - n)

-- The separator that stands before all texts but the first.
abbrev pub unless_first : Bytes → Bytes → Bytes
unless_first separator out = if length out == 0 then [] else separator

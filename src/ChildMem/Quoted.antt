-- ===== src/ChildMem/Quoted.antt =====
-- The quoted text in its output buffer: where it fits it is whole, and it never overruns.
use mathlib.Core.List.{append_assoc, append-nil}
use mini_strace.Base.{
  ℕ, suc, ◌+◌, ◌≤◌, ◌<◌, Bool, true, false, [], ◌∷◌, ◌++◌, ◌≡◌, sym, ◌∙◌, arith, if◌then◌else◌, ltb,
  length, codes, length-append,
}
use mini_strace.Base.Bytes.{Bytes}
use mini_strace.ChildMem.{escape_byte, escape_loop, show_quoted, put, put_all, close_text}
use mini_strace.ChildMem.Escape.{escape_all}

length-escape_byte : (c : ℕ) → (0 < length (escape_byte c)) × (length (escape_byte c) ≤ 4)
unfolding escape_byte
length-escape_byte c = ground arith

escape_loop_fits :
    (out_size : ℕ) (s out : Bytes)
    → length out + length (escape_all s) + 5 ≤ out_size
    → escape_loop out_size s out ≡ out ++ escape_all s
unfolding escape_loop
escape_loop_fits out_size [] out h = sym (append-nil out)
escape_loop_fits out_size (c ∷ s) out h =
    let size = length-append (escape_byte c) (escape_all s) in
    let size' = length-append out (escape_byte c) in
    let room : ltb (length out + 5) out_size ≡ true = ground (arith, length-escape_byte c) in
    rw (room, escape_loop)
      (escape_loop_fits out_size s (out ++ escape_byte c) (omega (arith, size, size'))
        ∙ append_assoc out (escape_byte c) (escape_all s))

-- The mark of a text that goes on.
abbrev pub dots : Bool → Bytes
dots truncated = if truncated then codes "..." else []

-- A text whose shown form leaves six bytes of the buffer is shown whole.
pub show_quoted_fits :
    (out_size : ℕ) (s : Bytes) (truncated : Bool)
    → length (escape_all s) + 6 ≤ out_size
    → show_quoted out_size s truncated ≡ (b'"' ∷ escape_all s) ++ b'"' ∷ dots truncated
unfolding show_quoted
show_quoted_fits out_size s truncated h =
    let opened : put out_size b'"' [] ≡ b'"' ∷ [] = ground arith in
    let body = escape_loop_fits out_size s (b'"' ∷ []) (omega arith) in
    let size = length-append (escape_all s) (b'"' ∷ []) in
    let room : ltb (suc (length (escape_all s))) out_size ≡ true = ground arith in
    let closed : put out_size b'"' (b'"' ∷ escape_all s) ≡ b'"' ∷ escape_all s ++ b'"' ∷ [] =
      ground arith in
    rw (opened, body, closed) (rest truncated size)
  where
    rest :
        (truncated : Bool)
        → length (escape_all s ++ b'"' ∷ []) ≡ length (escape_all s) + 1
        → close_text out_size (
            if truncated
            then put_all out_size (codes "...") (b'"' ∷ escape_all s ++ b'"' ∷ [])
            else b'"' ∷ escape_all s ++ b'"' ∷ [])
          ≡ (b'"' ∷ escape_all s) ++ b'"' ∷ dots truncated
    rest false size = ground arith
    rest true size = ground (
      arith,
      length-append (escape_all s ++ b'"' ∷ []) (codes "..."),
      append_assoc (escape_all s) (b'"' ∷ []) (codes "..."),
    )

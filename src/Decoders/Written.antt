-- ===== src/Decoders/Written.antt =====
-- src/decoders.c, `oi += snprintf(out + oi, out_size - oi, ...)`: what each writing leaves in the buffer.
use mini_strace.Base.{
  ℕ, zero, suc, ◌-◌, ◌<◌, [], ◌∷◌, ◌++◌, ◌≡◌, ap, ◌∙◌, arith, length, take, some, sym, leb,
  Bool-cases, inl, inr,
}
use mini_strace.Base.Bytes.{Bytes}
use mini_strace.ChildMem.{snprintf}
use mini_strace.Decoders.Text.{append_text, write_text}

take-append : (n : ℕ) (s t : Bytes) → take n (s ++ t) ≡ take n s ++ take (n - length s) t
take-append zero s t =
    let none_left : 0 ≡ 0 - length s = omega arith in ap (λ m. take m t) none_left
take-append (suc n) [] t =
    let all_left : suc n ≡ suc n - 0 = omega arith in ap (λ m. take m t) all_left
take-append (suc n) (c ∷ s) t =
    let left : n - length s ≡ suc n - suc (length s) = omega arith in
    ap (◌∷◌ c) (take-append n s t ∙ ap (λ m. take n s ++ take m t) left)

-- A writing that begins within the buffer leaves there what the buffer held, and then what one `snprintf`
-- into the rest of the buffer keeps of the new text.
pub write_text-snprintf :
    (out_size : ℕ) (s out out' : Bytes)
    → write_text out_size s out ≡ some out'
    → snprintf out_size out' ≡ snprintf out_size out ++ snprintf (out_size - length out) s
unfolding write_text
write_text-snprintf out_size s out out' h = elim (Bool-cases (leb (length out) out_size)) [
  | inr past ↦ absurd (ground (arith, rw (past, write_text) at h))
  | inl room ↦
      let whole : some (out ++ s) ≡ some out' = rw (room, write_text) at h in
      let same : out ++ s ≡ out' = cc in
      let left : out_size - 1 - length out ≡ out_size - length out - 1 = omega arith in
      ap (take (out_size - 1)) (sym same)
      ∙ take-append (out_size - 1) out s
      ∙ ap (λ m. take (out_size - 1) out ++ take m s) left
]

-- The test of `append_text` is enough for that.
pub append_text-write_text :
    (out_size : ℕ) (s out : Bytes)
    → length out < out_size
    → write_text out_size s out ≡ some (append_text out_size s out)
unfolding write_text append_text
append_text-write_text out_size s out h = ground arith

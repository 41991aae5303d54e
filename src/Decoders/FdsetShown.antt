-- ===== src/Decoders/FdsetShown.antt =====
-- `format_fdset_buf` of src/decoders.c: which descriptors its text names.
use mathlib.Core.List.{append_assoc, append-nil}
use mini_strace.Base.{
  ℕ, zero, suc, ◌+◌, ◌-◌, ◌*◌, ◌/◌, ◌≤◌, ◌<◌, true, List, [], ◌∷◌, ◌++◌, ◌≡◌, refl, sym, ap, ◌∙◌,
  arith, ◌==◌, ltb, leb, length, take, codes, length-append, Bool-cases, inl, inr, if◌then◌else◌,
}
use mini_strace.Base.Bytes.{Bytes}
use mini_strace.Decoders.Text.{append_text, radix_digits, decimal}
use mini_strace.Decoders.Arrays.{comma_after, max_entries, fd_bit, fdset_loop}

-- The descriptors of a set, of `rounds` from number `fd` on.
abbrev pub set_fds : Bytes → ℕ → ℕ → List ℕ
set_fds bits zero fd = []
set_fds bits (suc rounds) fd =
    let rest = set_fds bits rounds (fd + 1) in if fd_bit bits fd then fd ∷ rest else rest

-- Numbers behind `count` others.
abbrev pub numbers_text : ℕ → List ℕ → Bytes
numbers_text count [] = []
numbers_text count (fd ∷ fds) = (comma_after count ++ decimal fd) ++ numbers_text (count + 1) fds

-- As many as may still be shown, and dots for the others.
abbrev pub fds_text : ℕ → List ℕ → Bytes
fds_text count fds =
    numbers_text count (take (max_entries - count) fds)
    ++ (if ltb (max_entries - count) (length fds) then codes ", ..." else [])

length-radix_digits : (base fuel n : ℕ) → length (radix_digits base fuel n) ≤ fuel
unfolding radix_digits
length-radix_digits base zero n = omega arith
length-radix_digits base (suc fuel) n =
    let ih = length-radix_digits base fuel (n / base) in
    elim (Bool-cases (n / base == 0)) [
      | inl z ↦ rw (z, radix_digits) (omega arith)
      | inr nz ↦
          rw (nz, radix_digits)
            (omega (arith, ih, length-append (radix_digits base fuel (n / base)) _))
    ]

length-number : (count fd : ℕ) → length (comma_after count ++ decimal fd) ≤ 22
unfolding decimal
length-number zero fd = omega (arith, length-radix_digits 10 20 fd)
length-number (suc count) fd = omega (arith, length-radix_digits 10 20 fd)

fds_text-none : (count : ℕ) → fds_text count [] ≡ []
fds_text-none count = go (max_entries - count)
  where
    go : (n : ℕ) → numbers_text count (take n []) ++ (if ltb n 0 then codes ", ..." else []) ≡ []
    go zero = refl
    go (suc n) = ground arith

fds_text-more : (fd : ℕ) (fds : List ℕ) → fds_text max_entries (fd ∷ fds) ≡ codes ", ..."
fds_text-more fd fds =
    let some_left : ltb 0 (suc (length fds)) ≡ true = ground arith in rw some_left refl

fds_text-next :
    (count fd : ℕ) (fds : List ℕ)
    → count < max_entries
    → fds_text count (fd ∷ fds) ≡ (comma_after count ++ decimal fd) ++ fds_text (count + 1) fds
fds_text-next count fd fds h =
    let left : max_entries - count ≡ suc (max_entries - (count + 1)) = omega arith in
    let same : ltb (suc (max_entries - (count + 1))) (suc (length fds))
        ≡ ltb (max_entries - (count + 1)) (length fds) =
      ground arith in
    rw (left, same)
      (append_assoc (comma_after count ++ decimal fd)
        (numbers_text (count + 1) (take (max_entries - (count + 1)) fds)) _)

-- Where the buffer has room for eight numbers and the dots, the loop over a set of descriptors writes those
-- whose bits are set, in ascending order, the first eight of them with those before, and ", ..." if there
-- are more.
pub fdset_loop-fds_text :
    (bits : Bytes) (out_size rounds fd count : ℕ) (out : Bytes)
    → count ≤ max_entries
    → length out + 22 * (max_entries - count) + 5 < out_size
    → fdset_loop bits out_size rounds fd count out ≡ out ++ fds_text count (set_fds bits rounds fd)
unfolding fdset_loop append_text
fdset_loop-fds_text bits out_size zero fd count out h room =
    sym (ap (λ s. out ++ s) (fds_text-none count) ∙ append-nil out)
fdset_loop-fds_text bits out_size (suc rounds) fd count out h room =
    elim (Bool-cases (fd_bit bits fd)) [
      | inr clear ↦
          rw (clear, fdset_loop)
            (fdset_loop-fds_text bits out_size rounds (fd + 1) count out h room)
      | inl set ↦
          let space : ltb (length out) out_size ≡ true = ground arith in
          elim (Bool-cases (leb max_entries count)) [
            | inl full ↦
                let e : count ≡ 8 = ground arith in
                rw (set, full, fdset_loop, space, e)
                  (sym (ap (λ s. out ++ s) (fds_text-more fd (set_fds bits rounds (fd + 1)))))
            | inr more ↦
                let size = length-append out (comma_after count ++ decimal fd) in
                let short = length-number count fd in
                let ih =
                  fdset_loop-fds_text bits out_size rounds (fd + 1) (count + 1)
                    (out ++ (comma_after count ++ decimal fd)) (ground arith)
                    (ground (arith, size, short)) in
                rw (set, more, fdset_loop, append_text, space)
                  (ih
                    ∙ append_assoc out (comma_after count ++ decimal fd)
                        (fds_text (count + 1) (set_fds bits rounds (fd + 1)))
                    ∙ ap (λ s. out ++ s)
                        (sym
                          (fds_text-next count fd (set_fds bits rounds (fd + 1)) (ground arith))))
          ]
    ]

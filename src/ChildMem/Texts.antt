-- ===== src/ChildMem/Texts.antt =====
-- Zero bytes in a text, and starts of it.

use mini_strace.Base.{
  ℕ, zero, suc, ◌≤◌, false, ◌||◌, [], ◌∷◌, ◌++◌, ◌≡◌, refl, sym, ap, arith, min, length, take,
}
use mini_strace.Base.Bytes.{Bytes}
use mini_strace.ChildMem.{has_nul, text_length}

pub text_length-append : (s t : Bytes) → has_nul s ≡ false → text_length (s ++ 0 ∷ t) ≡ length s
unfolding text_length has_nul
text_length-append [] t h = refl
text_length-append (c ∷ s) t h = ground (arith, text_length-append s t)

pub text_length-no_nul : (s : Bytes) → has_nul s ≡ false → text_length s ≡ length s
unfolding text_length has_nul
text_length-no_nul [] h = refl
text_length-no_nul (c ∷ s) h = ground (arith, text_length-no_nul s)

pub has_nul-append : (s t : Bytes) → has_nul (s ++ t) ≡ (has_nul s || has_nul t)
unfolding has_nul
has_nul-append [] t = refl
has_nul-append (c ∷ s) t = ground (arith, has_nul-append s t)

pub has_nul-take : (n : ℕ) (s : Bytes) → has_nul s ≡ false → has_nul (take n s) ≡ false
unfolding has_nul
has_nul-take zero s h = refl
has_nul-take (suc n) [] h = refl
has_nul-take (suc n) (c ∷ s) h = ground (arith, has_nul-take n s)

pub take-nil : (n : ℕ) → take {A = ℕ} n [] ≡ []
take-nil zero = refl
take-nil (suc n) = refl

pub take-take : (n m : ℕ) (s : Bytes) → take n (take m s) ≡ take (min n m) s
take-take zero m s = ground arith
take-take (suc n) zero s = ground arith
take-take (suc n) (suc m) [] = sym (take-nil (min (suc n) (suc m)))
take-take (suc n) (suc m) (c ∷ s) = ground (arith, take-take n m s)

pub take_short : (n : ℕ) (s t : Bytes) → n ≤ length s → take n (s ++ t) ≡ take n s
take_short zero s t h = refl
take_short (suc n) [] t h = absurd (omega arith)
take_short (suc n) (c ∷ s) t h = ap (◌∷◌ c) (take_short n s t (omega arith))

pub take-min-length : (n : ℕ) (s : Bytes) → take (min (length s) n) s ≡ take n s
take-min-length zero s = ground arith
take-min-length (suc n) [] = take-nil (min 0 (suc n))
take-min-length (suc n) (c ∷ s) = ground (arith, take-min-length n s)

-- ===== src/Base/Bits.antt =====
-- Laws of the native `bit_and`, for a flag word that is taken apart bit by bit.
use Prim.Native.Nat.{
  ℕ, zero, suc, ◌+◌, ◌-◌, ◌*◌, ◌/◌, ◌%◌, ◌^◌, ◌≤◌, min, bit_and, digits, bit_and-bitwise,
}
use mathlib.Core.Logic.{◌⊎◌, inl, inr}
use mathlib.Core.Path.{◌≡◌, refl, sym, ◌∙◌}
use native.Mathlib.Omega.{arith}

-- The digits of `a & b`, of which at most `n` are computed.
abbrev rounds : ℕ → ℕ → ℕ → ℕ
rounds n a b = digits (λ b. zero) min n a b

rounds-zero : (n b : ℕ) → rounds n zero b ≡ 0
rounds-zero zero b = refl
rounds-zero (suc n) b = refl

-- Any two bounds that the first operand does not exceed give the same.
bounds_agree : (a n m b : ℕ) → a ≤ n → a ≤ m → rounds n a b ≡ rounds m a b
bounds_agree zero n m b p q = rounds-zero n b ∙ sym (rounds-zero m b)
bounds_agree (suc a) (suc n) (suc m) b p q =
    let rest = bounds_agree (suc a / 2) n m (b / 2) (omega arith) (omega arith) in
    omega (arith, rest)
bounds_agree (suc a) zero m b p q = absurd (omega arith)
bounds_agree (suc a) (suc n) zero b p q = absurd (omega arith)

bit_and-rounds : (n a b : ℕ) → a ≤ n → bit_and a b ≡ rounds n a b
bit_and-rounds n a b h = bit_and-bitwise a b ∙ bounds_agree a a n b (omega arith) h

pub zero-bit_and : (b : ℕ) → bit_and 0 b ≡ 0
zero-bit_and b = bit_and-rounds 0 0 b (omega arith)

-- The lowest digit, and the other ones.
pub bit_and-halves : (a b : ℕ) → bit_and a b ≡ min (a % 2) (b % 2) + 2 * bit_and (a / 2) (b / 2)
bit_and-halves zero b =
    let none_there = zero-bit_and b in
    let none_above = zero-bit_and (b / 2) in omega (arith, none_there, none_above)
bit_and-halves (suc a) b =
    let whole = bit_and-rounds (suc a) (suc a) b (omega arith) in
    let above = bit_and-rounds a (suc a / 2) (b / 2) (omega arith) in omega (arith, whole, above)

by_halves_below :
    (P : ℕ → Type 0) → P 0 → ((a : ℕ) → P (suc a / 2) → P (suc a)) → (n a : ℕ) → a ≤ n → P a
by_halves_below P base step n zero h = base
by_halves_below P base step zero (suc a) h = absurd (omega arith)
by_halves_below P base step (suc n) (suc a) h =
    step a (by_halves_below P base step n (suc a / 2) (omega arith))

-- Induction from the half of a number to the number.
pub by_halves : (P : ℕ → Type 0) → P 0 → ((a : ℕ) → P (suc a / 2) → P (suc a)) → (a : ℕ) → P a
by_halves P base step a = by_halves_below P base step a a (omega arith)

pub bit_and-zero : (a : ℕ) → bit_and a 0 ≡ 0
bit_and-zero a =
    by_halves (λ a. bit_and a 0 ≡ 0) (zero-bit_and 0)
      (λ a ih. omega (arith, ih, bit_and-halves (suc a) 0)) a

pub bit_and-le_left : (a b : ℕ) → bit_and a b ≤ a
bit_and-le_left a =
    by_halves (λ a. (b : ℕ) → bit_and a b ≤ a) (λ b. omega (arith, zero-bit_and b))
      (λ a ih b. omega (arith, bit_and-halves (suc a) b, ih (b / 2))) a

-- A mask that `a` has whole is had half by half, and the other way round.
pub has_halves : (a b : ℕ) → bit_and a b ≡ b → (bit_and (a / 2) (b / 2) ≡ b / 2) × (b % 2 ≤ a % 2)
has_halves a b h = omega (arith, bit_and-halves a b)

-- The halves of `a & ~c`.
clear_halves :
    (a c : ℕ)
    → ((a - bit_and a c) / 2 ≡ a / 2 - bit_and (a / 2) (c / 2))
      × ((a - bit_and a c) % 2 ≡ a % 2 - min (a % 2) (c % 2))
clear_halves a c = omega (arith, bit_and-halves a c, bit_and-le_left (a / 2) (c / 2))

-- Bits that are cleared are gone.
pub bit_and-clear_self : (a b : ℕ) → bit_and (a - bit_and a b) b ≡ 0
bit_and-clear_self a =
    by_halves (λ a. (b : ℕ) → bit_and (a - bit_and a b) b ≡ 0)
      (λ b. let e : 0 - bit_and 0 b ≡ 0 = omega arith in rw e (zero-bit_and b))
      (λ a ih b.
        let (half, odd) = clear_halves (suc a) b in
        bit_and-halves (suc a - bit_and (suc a) b) b ∙ rw (half, odd) (omega (arith, ih (b / 2))))
      a

-- What has a mask whole after some bits were cleared had it before.
pub bit_and-clear_subset : (a c b : ℕ) → bit_and (a - bit_and a c) b ≡ b → bit_and a b ≡ b
bit_and-clear_subset a =
    by_halves (λ a. (c b : ℕ) → bit_and (a - bit_and a c) b ≡ b → bit_and a b ≡ b)
      (λ c b h. let e : 0 - bit_and 0 c ≡ 0 = omega arith in rw e at h)
      (λ a ih c b h.
        let (half, odd) = clear_halves (suc a) c in
        let (below, low) = has_halves (suc a - bit_and (suc a) c) b h in
        omega (arith, bit_and-halves (suc a) b, ih (c / 2) (b / 2) (rw half at below), odd, low))
      a

-- A mask of two parts that have no bit in common.
pub bit_and-split : (a b c : ℕ) → bit_and b c ≡ 0 → bit_and a (b + c) ≡ bit_and a b + bit_and a c
bit_and-split a =
    by_halves (λ a. (b c : ℕ) → bit_and b c ≡ 0 → bit_and a (b + c) ≡ bit_and a b + bit_and a c)
      (λ b c h. omega (arith, zero-bit_and b, zero-bit_and c, zero-bit_and (b + c)))
      (λ a ih b c h.
        let apart = bit_and-halves b c in
        let none_above : bit_and (b / 2) (c / 2) ≡ 0 = omega (arith, apart) in
        let half : (b + c) / 2 ≡ b / 2 + c / 2 = omega (arith, apart) in
        let whole = bit_and-halves (suc a) (b + c) in
        let whole' : bit_and (suc a) (b + c)
            ≡ min (suc a % 2) ((b + c) % 2) + 2 * bit_and (suc a / 2) (b / 2 + c / 2) =
          rw half at whole in
        omega (
          arith,
          whole',
          ih (b / 2) (c / 2) none_above,
          bit_and-halves (suc a) b,
          bit_and-halves (suc a) c,
          apart,
        ))
      a

-- What a mask has whole, it keeps.
pub bit_and-mask : (a m b : ℕ) → bit_and m b ≡ b → bit_and (bit_and a m) b ≡ bit_and a b
bit_and-mask a =
    by_halves (λ a. (m b : ℕ) → bit_and m b ≡ b → bit_and (bit_and a m) b ≡ bit_and a b)
      (λ m b h. rw (zero-bit_and m) refl)
      (λ a ih m b h.
        let (above, low) = has_halves m b h in
        let inner = bit_and-halves (suc a) m in
        let half : bit_and (suc a) m / 2 ≡ bit_and (suc a / 2) (m / 2) = omega (arith, inner) in
        let odd : bit_and (suc a) m % 2 ≡ min (suc a % 2) (m % 2) = omega (arith, inner) in
        bit_and-halves (bit_and (suc a) m) b
        ∙ rw (half, odd) (omega (arith, ih (m / 2) (b / 2) above, bit_and-halves (suc a) b, low)))
      a

-- A single bit is there or not.
pub bit_and-power : (k a : ℕ) → (bit_and a (2 ^ k) ≡ 0) ⊎ (bit_and a (2 ^ k) ≡ 2 ^ k)
bit_and-power zero a =
    let step = bit_and-halves a 1 in let above = bit_and-zero (a / 2) in ground (arith, step, above)
bit_and-power (suc k) a =
    let half : 2 ^ suc k / 2 ≡ 2 ^ k = omega arith in
    let step = bit_and-halves a (2 ^ suc k) in
    let step' : bit_and a (2 ^ suc k) ≡ min (a % 2) (2 ^ suc k % 2) + 2 * bit_and (a / 2) (2 ^ k) =
      rw half at step in
    elim (bit_and-power k (a / 2)) [
      | inl off ↦ inl (omega (arith, step', off))
      | inr on ↦ inr (omega (arith, step', on))
    ]

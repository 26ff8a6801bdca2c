-- ===== src/Prelude/Bits.antt =====
-- The bitwise `or` of C where the operands share no bit: it is their sum.
use Prim.Native.Nat.{
  ℕ, zero, suc, ◌+◌, ◌*◌, ◌/◌, ◌%◌, ◌^◌, ◌≤◌, ◌<◌, max, bit_or, digits, bit_or-bitwise,
}
use Prim.Native.Nat.pow
use mathlib.Core.Path.{◌≡◌, refl, sym, ap, ◌∙◌, ap₂}
use native.Mathlib.Nat.{mul_assoc}
use native.Mathlib.Omega.{arith}

-- The recursion that `bit_or` stands for, on fuel.
abbrev or_digits : ℕ → ℕ → ℕ → ℕ
or_digits fuel a b = digits (λ b. b) max fuel a b

-- Any fuel from the first operand on gives the same number.
or_digits-eq : (f g a b : ℕ) → a ≤ f → a ≤ g → or_digits f a b ≡ or_digits g a b
or_digits-eq zero zero zero b p q = refl
or_digits-eq zero (suc g) zero b p q = refl
or_digits-eq zero g (suc a) b p q = absurd (omega arith)
or_digits-eq (suc f) zero zero b p q = refl
or_digits-eq (suc f) (suc g) zero b p q = refl
or_digits-eq (suc f) zero (suc a) b p q = absurd (omega arith)
or_digits-eq (suc f) (suc g) (suc a) b p q =
    omega (arith, or_digits-eq f g (suc a / 2) (b / 2) (omega arith) (omega arith))

zero-bit_or : (b : ℕ) → bit_or 0 b ≡ b
zero-bit_or b = bit_or-bitwise 0 b

bit_or_step : (a b : ℕ) → bit_or a b ≡ bit_or (a / 2) (b / 2) * 2 + max (a % 2) (b % 2)
bit_or_step zero b = omega (arith, zero-bit_or b, zero-bit_or (b / 2))
bit_or_step (suc a) b = omega (
  arith,
  bit_or-bitwise (suc a) b,
  bit_or-bitwise (suc a / 2) (b / 2),
  or_digits-eq a (suc a / 2) (suc a / 2) (b / 2) (omega arith) (omega arith),
)

-- One step over an even second operand.
bit_or_even : (a q : ℕ) → bit_or a (q * 2) ≡ bit_or (a / 2) q * 2 + a % 2
bit_or_even a q =
    bit_or_step a (q * 2)
    ∙ ap₂ (λ (r d : ℕ). bit_or (a / 2) r * 2 + d) {x = q * 2 / 2} {y = q} (omega arith)
        (omega arith)

-- `lo | (hi * 2^k)` is a sum where `lo` fits in the `k` bits below `hi`.
pub bit_or_disjoint : (k lo hi : ℕ) → lo < 2 ^ k → bit_or lo (hi * 2 ^ k) ≡ lo + hi * 2 ^ k
bit_or_disjoint zero zero hi h = omega (arith, zero-bit_or (hi * 1))
bit_or_disjoint zero (suc lo) hi h = absurd (omega arith)
bit_or_disjoint (suc k) lo hi h =
    let wider : hi * 2 ^ suc k ≡ hi * 2 ^ k * 2 =
      ap (◌*◌ hi) (pow.suc 2 k) ∙ sym (mul_assoc hi (2 ^ k) 2) in
    rw (wider, bit_or_even lo (hi * 2 ^ k))
      (omega (arith, bit_or_disjoint k (lo / 2) hi (omega (arith, pow.suc 2 k))))

bit_or_comm_below : (n a b : ℕ) → a ≤ n → b ≤ n → bit_or a b ≡ bit_or b a
bit_or_comm_below zero zero zero p q = refl
bit_or_comm_below zero (suc a) b p q = absurd (omega arith)
bit_or_comm_below zero a (suc b) p q = absurd (omega arith)
bit_or_comm_below (suc n) a b p q = omega (
  arith,
  bit_or_step a b,
  bit_or_step b a,
  bit_or_comm_below n (a / 2) (b / 2) (omega arith) (omega arith),
)

pub bit_or_comm : (a b : ℕ) → bit_or a b ≡ bit_or b a
bit_or_comm a b = bit_or_comm_below (a + b) a b (omega arith) (omega arith)

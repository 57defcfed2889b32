-- ===== src/Address/Match/Words.antt =====
-- Words that agree in their upper bits.
use Prim.Native.Nat.{bit_and, bit_xor}
use native.Mathlib.Nat.{
  pow-suc, div-eq_of_lt, div-div-eq-div-mul, add-zero, one-le-pow, div-mul-le_self,
  eq_of_mul-eq-mul_right,
}
use libiproute.Prelude.{
  ℕ, zero, suc, ◌+◌, ◌-◌, ◌/◌, ◌%◌, ◌^◌, ◌≤◌, ◌<◌, ◌≡◌, ◌↔◌, sym, ap, ◌∙◌, arith,
}
use libiproute.Prelude.Bits.{
  bit_xor-lt, bit_xor-div, bit_xor-eq-zero, bit_xor_self, bit_and-high_mask,
}

-- Bit `j` of a number, counted from the lowest.
abbrev pub bit : ℕ → ℕ → ℕ
bit j x = x / 2 ^ j % 2

div-two-pow : (x k : ℕ) → x / 2 ^ k / 2 ≡ x / 2 ^ suc k
div-two-pow x k = rw (div-div-eq-div-mul x (2 ^ k) 2) (ap (λ (t : ℕ). x / t) (sym (pow-suc 2 k)))

upper_bits :
    (m k x y : ℕ)
    → x < 2 ^ (k + m)
    → y < 2 ^ (k + m)
    → ((j : ℕ) → k ≤ j → j < k + m → bit j x ≡ bit j y)
    → x / 2 ^ k ≡ y / 2 ^ k
upper_bits zero k x y hx hy same =
    div-eq_of_lt (rw add-zero at hx) ∙ sym (div-eq_of_lt (rw add-zero at hy))
upper_bits (suc m) k x y hx hy same =
    let above : x / 2 ^ suc k ≡ y / 2 ^ suc k =
      upper_bits m (suc k) x y (rw shift at hx) (rw shift at hy)
        (λ j lo hi. same j (omega arith) (omega arith)) in
    omega (arith, div-two-pow x k, div-two-pow y k, same k (omega arith) (omega arith))
  where
    shift : 2 ^ (k + suc m) ≡ 2 ^ (suc k + m)
    shift = ap (λ (t : ℕ). 2 ^ t) (omega arith)

higher_bits : (i k x y : ℕ) → x / 2 ^ k ≡ y / 2 ^ k → x / 2 ^ (k + i) ≡ y / 2 ^ (k + i)
higher_bits zero k x y e = rw add-zero e
higher_bits (suc i) k x y e =
    rw shift (omega (arith, div-two-pow x (k + i), div-two-pow y (k + i), higher_bits i k x y e))
  where
    shift : 2 ^ (k + suc i) ≡ 2 ^ suc (k + i)
    shift = ap (λ (t : ℕ). 2 ^ t) (omega arith)

pub bits_from :
    (k n x y : ℕ)
    → k ≤ n
    → x < 2 ^ n
    → y < 2 ^ n
    → (x / 2 ^ k ≡ y / 2 ^ k) ↔ ((j : ℕ) → k ≤ j → j < n → bit j x ≡ bit j y)
bits_from k n x y h hx hy = (
  λ e j lo hi. rw (at j lo) (ap (λ (t : ℕ). t % 2) (higher_bits (j - k) k x y e)),
  λ same.
      upper_bits (n - k) k x y (rw (← whole) at hx) (rw (← whole) at hy)
        (λ j lo hi. same j lo (omega arith)),
)
  where
    whole : k + (n - k) ≡ n
    whole = omega arith

    at : (j : ℕ) → k ≤ j → j ≡ k + (j - k)
    at j lo = omega arith

pos-two-pow : (k : ℕ) → 0 < 2 ^ k
pos-two-pow k = one-le-pow k 2 (omega arith)

quotient_small : (x k n : ℕ) → x < n → x / 2 ^ k < n
quotient_small x k n h = grind (arith, div-mul-le_self x (2 ^ k), pos-two-pow k)

pub masked :
    (k j x y : ℕ)
    → x < 2 ^ (k + j)
    → y < 2 ^ (k + j)
    → (bit_and (bit_xor x y) (2 ^ (k + j) - 2 ^ k) ≡ 0) ↔ (x / 2 ^ k ≡ y / 2 ^ k)
masked k j x y hx hy =
    rw (bit_and-high_mask k j (bit_xor x y) (bit_xor-lt (k + j) x y hx hy), bit_xor-div k x y)
      (
        λ e.
            bit_xor-eq-zero (k + j) (x / 2 ^ k) (y / 2 ^ k) (quotient_small x k _ hx)
              (quotient_small y k _ hy)
              (eq_of_mul-eq-mul_right (2 ^ k) (pos-two-pow k) _ 0 (e ∙ omega arith)),
        λ e. rw (e, bit_xor_self (y / 2 ^ k)) (omega arith),
      )

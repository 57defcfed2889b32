-- ===== src/CLib/Print.antt =====
-- The shape of a printed number, and what `read_digits` makes of it.
use libiproute.Prelude.{
  ℕ, zero, suc, ◌+◌, ◌*◌, ◌/◌, ◌%◌, ◌^◌, ◌≤◌, ◌<◌, ◌≡◌, refl, true, false, none, some, [], ◌∷◌,
  ◌==◌, ==→eq, ◌∙◌, length, All, Bytes, inl, inr, Bool-cases, arith, ◌++◌,
}
use native.Mathlib.Nat.{div-lt_self, pow-suc}
use libiproute.CLib.{
  char_value, digit_char, digit_of, read_digits, print_loop, print_before, print_num,
}

-- No digit of any base stands at the front.
abbrev pub Ends : Bytes → Type 0
Ends [] = Unit
Ends (c ∷ s) = char_value c ≡ none

pub read_digits-Ends : (b n : ℕ) (rest : Bytes) → Ends rest → read_digits b rest n ≡ (n, rest)
unfolding read_digits digit_of
read_digits-Ends b n [] h = refl
read_digits-Ends b n (c ∷ s) h = ground arith

pub digit_of-digit_char : (b d : ℕ) → d < b → b ≤ 36 → digit_of b (digit_char d) ≡ some d
unfolding digit_of
digit_of-digit_char b d h k = ground arith

pub read_digit :
    (b d acc : ℕ) (s : Bytes)
    → d < b
    → b ≤ 36
    → read_digits b (digit_char d ∷ s) acc ≡ read_digits b s (acc * b + d)
unfolding read_digits
read_digit b d acc s h k = ground (arith, digit_of-digit_char b d h k)

read_last :
    (b n : ℕ) (out : Bytes)
    → 2 ≤ b
    → b ≤ 36
    → read_digits b (digit_char (n % b) ∷ out) (n / b) ≡ read_digits b out n
read_last b n out h k = ground (arith, read_digit b (n % b) (n / b) out (grind arith) k)

-- Dividing by a base makes a positive number smaller.
pub div_shrinks : (b n : ℕ) → 2 ≤ b → (n / b == 0) ≡ false → n / b < n
div_shrinks b zero h k = grind arith
div_shrinks b (suc n) h k = div-lt_self (omega arith) h

pub print_loop_last :
    (fuel b n : ℕ) (out : Bytes)
    → (n / b == 0) ≡ true
    → print_loop (suc fuel) b n out ≡ digit_char (n % b) ∷ out
unfolding print_loop
print_loop_last fuel b n out e = rw e

pub print_loop_more :
    (fuel b n : ℕ) (out : Bytes)
    → (n / b == 0) ≡ false
    → print_loop (suc fuel) b n out ≡ print_loop fuel b (n / b) (digit_char (n % b) ∷ out)
unfolding print_loop
print_loop_more fuel b n out e = rw e

read_digits-print_loop :
    (fuel b n : ℕ) (out : Bytes)
    → n < fuel
    → 2 ≤ b
    → b ≤ 36
    → read_digits b (print_loop fuel b n out) 0 ≡ read_digits b out n
read_digits-print_loop zero b n out f h k = absurd (omega arith)
read_digits-print_loop (suc fuel) b n out f h k = elim (Bool-cases (n / b == 0)) [
  | inl e ↦ rw (print_loop_last fuel b n out e) (rw (==→eq _ _ e) at (read_last b n out h k))
  | inr e ↦ rw (print_loop_more fuel b n out e) (
      read_digits-print_loop fuel b (n / b) (digit_char (n % b) ∷ out)
        (omega (arith, div_shrinks b n h e)) h k
      ∙ read_last b n out h k)
]

-- The first digit, which is not 0 unless the number is.
print_loop_first :
    (fuel b n : ℕ) (out : Bytes)
    → n < fuel
    → 2 ≤ b
    → 0 < n
    → (d : ℕ) × (s : Bytes) × (print_loop fuel b n out ≡ digit_char d ∷ s) × (0 < d) × (d < b)
print_loop_first zero b n out f h p = absurd (omega arith)
print_loop_first (suc fuel) b n out f h p = elim (Bool-cases (n / b == 0)) [
  | inl e ↦ (n % b, out, print_loop_last fuel b n out e, grind (arith, ==→eq _ _ e), grind arith)
  | inr e ↦ rw (print_loop_more fuel b n out e) (
      print_loop_first fuel b (n / b) (digit_char (n % b) ∷ out)
        (omega (arith, div_shrinks b n h e)) h (ground arith))
]

pub print_before_first :
    (b n : ℕ) (out : Bytes)
    → 2 ≤ b
    → 0 < n
    → (d : ℕ) × (s : Bytes) × (print_before b n out ≡ digit_char d ∷ s) × (0 < d) × (d < b)
unfolding print_before
print_before_first b n out h p = print_loop_first (suc n) b n out (omega arith) h p

pub print_before_zero : (b : ℕ) (out : Bytes) → 2 ≤ b → print_before b 0 out ≡ b'0' ∷ out
unfolding print_before
print_before_zero b out h = grind arith

pub read_digits-print_before :
    (b n : ℕ) (out : Bytes)
    → 2 ≤ b
    → b ≤ 36
    → read_digits b (print_before b n out) 0 ≡ read_digits b out n
unfolding print_before
read_digits-print_before b n out h k = read_digits-print_loop (suc n) b n out (omega arith) h k

pub length-print_loop : (fuel b n : ℕ) (out : Bytes) → length out ≤ length (print_loop fuel b n out)
length-print_loop zero b n out = unfold print_loop in omega arith
length-print_loop (suc fuel) b n out = elim (Bool-cases (n / b == 0)) [
  | inl e ↦ rw (print_loop_last fuel b n out e) (omega arith)
  | inr e ↦
      rw (print_loop_more fuel b n out e)
        (omega (arith, length-print_loop fuel b (n / b) (digit_char (n % b) ∷ out)))
]

-- A printed number has a digit.
pub pos_print_num : (b n : ℕ) → (length (print_num b n) == 0) ≡ false
unfolding print_num print_before print_loop
pos_print_num b n = ground (arith, length-print_loop n b (n / b) (digit_char (n % b) ∷ []))

print_loop-append :
    (fuel b n : ℕ) (out more : Bytes)
    → print_loop fuel b n out ++ more ≡ print_loop fuel b n (out ++ more)
unfolding print_loop
print_loop-append zero b n out more = refl
print_loop-append (suc fuel) b n out more = elim (Bool-cases (n / b == 0)) [
  | inl e ↦ rw e
  | inr e ↦ rw e (print_loop-append fuel b (n / b) (digit_char (n % b) ∷ out) more)
]

pub print_num-append : (b n : ℕ) (more : Bytes) → print_num b n ++ more ≡ print_before b n more
unfolding print_num print_before
print_num-append b n more = print_loop-append (suc n) b n [] more

-- Every character of a printed number is that of a digit of the base.
module _ (P : ℕ → Type 0) (b : ℕ) (base : 2 ≤ b) (each : (d : ℕ) → d < b → P (digit_char d)) where
  print_loop-All : (fuel n : ℕ) (out : Bytes) → All P out → All P (print_loop fuel b n out)
  print_loop-All zero n out h = unfold print_loop in h
  print_loop-All (suc fuel) n out h =
      let first : P (digit_char (n % b)) = each (n % b) (grind arith) in
      elim (Bool-cases (n / b == 0)) [
        | inl e ↦ rw (print_loop_last fuel b n out e) (first, h)
        | inr e ↦
            rw (print_loop_more fuel b n out e)
              (print_loop-All fuel (n / b) (digit_char (n % b) ∷ out) (first, h))
      ]

  pub print_num-All : (n : ℕ) → All P (print_num b n)
  unfolding print_num print_before
  print_num-All n = print_loop-All (suc n) n [] tt

digit_less : (k n : ℕ) → n < 10 ^ suc (suc k) → n / 10 < 10 ^ suc k
digit_less k n h = omega (arith, pow-suc 10 (suc k))

-- A number below `10 ^ (k + 1)` has at most `k + 1` digits.
length-print_loop_le :
    (k fuel n : ℕ) (out : Bytes)
    → n < 10 ^ suc k
    → length (print_loop fuel 10 n out) ≤ suc k + length out
unfolding print_loop
length-print_loop_le k zero n out h = omega arith
length-print_loop_le zero (suc fuel) n out h = ground arith
length-print_loop_le (suc k) (suc fuel) n out h =
    ground
      (arith, length-print_loop_le k fuel (n / 10) (digit_char (n % 10) ∷ out) (digit_less k n h))

pub length-print_num_le : (k n : ℕ) → n < 10 ^ suc k → length (print_num 10 n) ≤ suc k
unfolding print_num print_before
length-print_num_le k n h = omega (arith, length-print_loop_le k (suc n) n [] h)

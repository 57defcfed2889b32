-- ===== src/Prelude/Int.antt =====
-- Signed values: `negsuc n` is -(n + 1).
use libiproute.Prelude.{
  ℕ, zero, suc, ◌+◌, ◌-◌, ◌%◌, ◌^◌, ltb, if◌then◌else◌, ◌≡◌, Bool, true, false, leb, ◌==◌, arith,
}

pub data ℤ : Type 0 where
  pos : ℕ → ℤ
  negsuc : ℕ → ℤ

-- The integer with a sign and a size.
abbrev pub of_sign : Bool → ℕ → ℤ
of_sign false n = pos n
of_sign true zero = pos 0
of_sign true (suc n) = negsuc n

-- An integer in `w` bits.
unfoldable pub wrapped : ℕ → ℤ → ℕ
wrapped w (pos n) = n % 2 ^ w
wrapped w (negsuc n) = 2 ^ w - 1 - n % 2 ^ w

-- An integer stored in a `short`.
abbrev pub int16 : ℤ → ℤ
int16 z = let u = wrapped 16 z in if ltb u (2 ^ 15) then pos u else negsuc (2 ^ 16 - 1 - u)

-- An `int` of 32 given bits.
abbrev pub int32 : ℕ → ℤ
int32 u = if ltb u (2 ^ 31) then pos u else negsuc (2 ^ 32 - 1 - u)

abbrev pub add_ℕ : ℤ → ℕ → ℤ
add_ℕ (pos n) k = pos (n + k)
add_ℕ (negsuc n) k = if leb k n then negsuc (n - k) else pos (k - n - 1)

-- A length, which is not negative where it is read.
abbrev pub bits_of : ℤ → ℕ
bits_of (pos n) = n
bits_of (negsuc n) = 0

abbrev pub eq_int : ℤ → ℤ → Bool
eq_int (pos a) (pos b) = a == b
eq_int (pos a) (negsuc b) = false
eq_int (negsuc a) (pos b) = false
eq_int (negsuc a) (negsuc b) = a == b

abbrev pub le_int : ℤ → ℤ → Bool
le_int (pos a) (pos b) = leb a b
le_int (pos a) (negsuc b) = false
le_int (negsuc a) (pos b) = true
le_int (negsuc a) (negsuc b) = leb b a

pub eq_int→eq : (a b : ℤ) → eq_int a b ≡ true → a ≡ b
eq_int→eq (pos a) (pos b) h = ground arith
eq_int→eq (pos a) (negsuc b) h = cc
eq_int→eq (negsuc a) (pos b) h = cc
eq_int→eq (negsuc a) (negsuc b) h = ground arith

pub eq_int_self : (a : ℤ) → eq_int a a ≡ true
eq_int_self (pos a) = ground arith
eq_int_self (negsuc a) = ground arith

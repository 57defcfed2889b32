-- ===== src/CLib/Parse.antt =====
-- `strtoul` on a printed number with a text behind it.
use libiproute.Prelude.{
  ℕ, ◌+◌, ◌*◌, ◌≤◌, ◌<◌, ◌≡◌, refl, zero, suc, ap, true, false, none, some, [], ◌∷◌, ◌∙◌, Bytes,
  arith,
}
use libiproute.CLib.{
  Parsed, strtoul, ulong_max, signed_magnitude, skip_space, is_space, sign, magnitude, magnitude_in,
  pick_base, starts_digit, starts_zero, hex_prefix, digit_of, digit_char, read_digits, print_before,
}
use libiproute.CLib.Print.{
  Ends, read_digit, read_digits-Ends, digit_of-digit_char, print_before_first, print_before_zero,
  read_digits-print_before,
}

-- Base `b` prints what a call with `base` reads as base `b`.
pub data Reads : ℕ → ℕ → Type 0 where
  decimal : Reads 10 10
  automatic : Reads 0 10
  hexadecimal : Reads 16 16

magnitude_in_digits :
    (b d : ℕ) (s : Bytes)
    → d < b
    → b ≤ 36
    → magnitude_in b (digit_char d ∷ s) ≡ some (read_digits b (digit_char d ∷ s) 0)
unfolding magnitude_in starts_digit
magnitude_in_digits b d s h k = ground (arith, digit_of-digit_char b d h k)

hex_prefix_digit : (d : ℕ) (s : Bytes) → 0 < d → d < 36 → hex_prefix (digit_char d ∷ s) ≡ none
unfolding hex_prefix
hex_prefix_digit d [] p h = refl
hex_prefix_digit d (x ∷ s) p h = ground arith

pick_base_digit :
    {base b : ℕ} (r : Reads base b) (d : ℕ) (s : Bytes)
    → 0 < d
    → d < b
    → pick_base base (digit_char d ∷ s) ≡ (b, digit_char d ∷ s)
unfolding pick_base starts_zero
pick_base_digit decimal d s p h = refl
pick_base_digit automatic d s p h = ground (arith, hex_prefix_digit d s p)
pick_base_digit hexadecimal d s p h = ground (arith, hex_prefix_digit d s p)

Reads-bounds : {base b : ℕ} → Reads base b → (2 ≤ b) × (b ≤ 36)
Reads-bounds decimal = omega arith
Reads-bounds automatic = omega arith
Reads-bounds hexadecimal = omega arith

magnitude_zero :
    {base b : ℕ} (r : Reads base b) (rest : Bytes)
    → Ends rest
    → magnitude base (b'0' ∷ rest) ≡ some (0, rest)
unfolding magnitude pick_base hex_prefix starts_zero magnitude_in starts_digit digit_of read_digits
magnitude_zero decimal rest h = rw (read_digits-Ends 10 0 rest h)
magnitude_zero automatic [] h = refl
magnitude_zero automatic (c ∷ []) h = ground arith
magnitude_zero automatic (c ∷ d ∷ s) h = ground arith
magnitude_zero hexadecimal [] h = refl
magnitude_zero hexadecimal (c ∷ []) h = ground arith
magnitude_zero hexadecimal (c ∷ d ∷ s) h = ground arith

magnitude_digit :
    {base b : ℕ} (r : Reads base b) (d : ℕ) (s : Bytes)
    → 0 < d
    → d < b
    → magnitude base (digit_char d ∷ s) ≡ some (read_digits b (digit_char d ∷ s) 0)
unfolding magnitude
magnitude_digit {b} r d s p h =
    let (lo, hi) = Reads-bounds r in rw (pick_base_digit r d s p h) (magnitude_in_digits b d s h hi)

pub magnitude-print_before :
    {base b : ℕ} (r : Reads base b) (n : ℕ) (rest : Bytes)
    → Ends rest
    → magnitude base (print_before b n rest) ≡ some (n, rest)
magnitude-print_before {b} r zero rest e =
    let (lo, hi) = Reads-bounds r in rw (print_before_zero b rest lo) (magnitude_zero r rest e)
magnitude-print_before {base} {b} r (suc n) rest e =
    let (lo, hi) = Reads-bounds r in
    let (d, s, same, pos, small) = print_before_first b (suc n) rest lo (omega arith) in
    rw same (
      magnitude_digit r d s pos small
      ∙ rw (← same) (
          ap some
            (read_digits-print_before b (suc n) rest lo hi ∙ read_digits-Ends b (suc n) rest e)))

signed_magnitude_digit :
    (base d : ℕ) (s : Bytes) {m : ℕ} {rest : Bytes}
    → d < 36
    → magnitude base (digit_char d ∷ s) ≡ some (m, rest)
    → signed_magnitude base (digit_char d ∷ s) ≡ some (false, m, rest)
unfolding signed_magnitude skip_space is_space sign
signed_magnitude_digit base d s h e = ground arith

pub signed_magnitude-print_before :
    {base b : ℕ} (r : Reads base b) (n : ℕ) (rest : Bytes)
    → Ends rest
    → signed_magnitude base (print_before b n rest) ≡ some (false, n, rest)
signed_magnitude-print_before {base} {b} r zero rest e =
    let (lo, hi) = Reads-bounds r in
    rw (print_before_zero b rest lo)
      (signed_magnitude_digit base 0 rest (omega arith) (magnitude_zero r rest e))
signed_magnitude-print_before {base} {b} r (suc n) rest e =
    let (lo, hi) = Reads-bounds r in
    let (d, s, same, pos, small) = print_before_first b (suc n) rest lo (omega arith) in
    rw same (
      signed_magnitude_digit base d s (omega arith)
        (rw same at (magnitude-print_before r (suc n) rest e)))

pub strtoul-print_before :
    {base b : ℕ} (r : Reads base b) (n : ℕ) (rest : Bytes)
    → Ends rest
    → n ≤ ulong_max
    → strtoul base (print_before b n rest)
      ≡ some (record { value = n; erange = false; rest = rest })
unfolding strtoul
strtoul-print_before r n rest e h = ground (arith, signed_magnitude-print_before r n rest e)

-- A minus sign in front.
pub signed_magnitude-minus :
    {base b : ℕ} (r : Reads base b) (n : ℕ) (rest : Bytes)
    → Ends rest
    → signed_magnitude base (b'-' ∷ print_before b n rest) ≡ some (true, n, rest)
unfolding signed_magnitude skip_space is_space sign
signed_magnitude-minus r n rest e = rw (magnitude-print_before r n rest e)

-- What `strtoul` and `strtol` can return.
pub strtoul-le-ulong_max :
    (base : ℕ) (s : Bytes) (p : Parsed) → strtoul base s ≡ some p → p.value ≤ ulong_max
unfolding strtoul
strtoul-le-ulong_max base s p e = ground arith

hex_prefix-two_digits :
    (h l : ℕ) (rest : Bytes)
    → h < 16
    → l < 16
    → hex_prefix (digit_char h ∷ digit_char l ∷ rest) ≡ none
unfolding hex_prefix
hex_prefix-two_digits h l rest hh hl = ground arith

magnitude-two_digits :
    (h l : ℕ) (rest : Bytes)
    → h < 16
    → l < 16
    → Ends rest
    → magnitude 16 (digit_char h ∷ digit_char l ∷ rest) ≡ some (h * 16 + l, rest)
unfolding magnitude pick_base
magnitude-two_digits h l rest hh hl e =
    let none_before : 0 * 16 + h ≡ h = omega arith in
    rw (hex_prefix-two_digits h l rest hh hl) (
      magnitude_in_digits 16 h (digit_char l ∷ rest) hh (omega arith)
      ∙ ap some (
          read_digit 16 h 0 (digit_char l ∷ rest) hh (omega arith)
          ∙ ap (read_digits 16 (digit_char l ∷ rest)) none_before
          ∙ read_digit 16 l h rest hl (omega arith)
          ∙ read_digits-Ends 16 (h * 16 + l) rest e))

-- Two hexadecimal digits, the first of which may be 0.
pub strtoul-two_digits :
    (h l : ℕ) (rest : Bytes)
    → h < 16
    → l < 16
    → Ends rest
    → strtoul 16 (digit_char h ∷ digit_char l ∷ rest)
      ≡ some (record { value = h * 16 + l; erange = false; rest = rest })
unfolding strtoul
strtoul-two_digits h l rest hh hl e = ground (
  arith,
  signed_magnitude_digit 16 h (digit_char l ∷ rest) (omega arith)
      (magnitude-two_digits h l rest hh hl e),
)

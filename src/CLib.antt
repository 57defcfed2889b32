-- ===== src/CLib.antt =====
-- What the sources use of the C standard library: `strtoul`, `strtol`, `%u` and `%x` of `snprintf`.
-- A C string is a list of bytes; `[]` stands for the terminating NUL. `long` has 64 bits.
pub mod Print
pub mod Parse
use libiproute.Prelude.{
  ℕ, zero, suc, ◌+◌, ◌-◌, ◌*◌, ◌/◌, ◌%◌, ◌^◌, ◌<◌, ◌≡◌, refl, Bool, true, false, ◌&&◌, ◌||◌, Option,
  none, some, List, [], ◌∷◌, ltb, leb, ◌==◌, if◌then◌else◌, ◌>>=◌, Bytes, codes,
}

abbrev pub ulong_max : ℕ
ulong_max = 2 ^ 64 - 1

abbrev pub long_max : ℕ
long_max = 2 ^ 63 - 1

-- The digit that a character is in a base, as `strtoul` reads it.
abbrev pub char_value : ℕ → Option ℕ
char_value c =
    if leb b'0' c && leb c b'9'
    then some (c - b'0')
    else if leb b'a' c && leb c b'z'
    then some (c - b'a' + 10)
    else if leb b'A' c && leb c b'Z'
    then some (c - b'A' + 10)
    else none

pub digit_of : ℕ → ℕ → Option ℕ
digit_of base c = do v ← char_value c; if ltb v base then some v else none

-- `isspace` in the C locale.
pub is_space : ℕ → Bool
is_space c = c == b' ' || (leb 9 c && leb c 13)

pub skip_space : Bytes → Bytes
skip_space [] = []
skip_space (c ∷ s) = if is_space c then skip_space s else c ∷ s

-- The digits at the front of a text, without a bound, and the text behind them.
pub read_digits : ℕ → Bytes → ℕ → ℕ × Bytes
read_digits base [] acc = (acc, [])
read_digits base (c ∷ s) acc = elim (digit_of base c) [
  | none ↦ (acc, c ∷ s)
  | some d ↦ read_digits base s (acc * base + d)
]

pub starts_digit : ℕ → Bytes → Bool
starts_digit base [] = false
starts_digit base (c ∷ s) = elim (digit_of base c) [ none ↦ false | some d ↦ true ]

-- `0x` counts as a prefix only before a hexadecimal digit.
pub hex_prefix : Bytes → Option Bytes
hex_prefix [] = none
hex_prefix (c ∷ []) = none
hex_prefix (c ∷ x ∷ s) =
    if c == b'0' && (x == b'x' || x == b'X') && starts_digit 16 s then some s else none

pub starts_zero : Bytes → Bool
starts_zero [] = false
starts_zero (c ∷ s) = c == b'0'

-- The base in force and the text of the digits.
pub pick_base : ℕ → Bytes → ℕ × Bytes
pick_base base s =
    if base == 16
    then elim (hex_prefix s) [ none ↦ (16, s) | some t ↦ (16, t) ]
    else if base == 0
    then elim (hex_prefix s) [ none ↦ if starts_zero s then (8, s) else (10, s) | some t ↦ (16, t) ]
    else (base, s)

-- The number that the digits spell and the text behind them; `none`: there is no digit.
pub magnitude_in : ℕ → Bytes → Option (ℕ × Bytes)
magnitude_in base s = if starts_digit base s then some (read_digits base s 0) else none

pub magnitude : ℕ → Bytes → Option (ℕ × Bytes)
magnitude base s = let (b, t) = pick_base base s in magnitude_in b t

-- A sign, and the text behind it.
pub sign : Bytes → Bool × Bytes
sign [] = (false, [])
sign (c ∷ s) = if c == b'-' then (true, s) else if c == b'+' then (false, s) else (false, c ∷ s)

unfoldable pub signed_magnitude : ℕ → Bytes → Option (Bool × ℕ × Bytes)
signed_magnitude base s = do
  let (neg, t) = sign (skip_space s)
  (m, rest) ← magnitude base t
  some (neg, m, rest)

-- What a call of `strtoul` yields: the value, whether it sets `errno` to ERANGE, and `*endptr`.
pub record Parsed : Type 0 where
  pub value : ℕ
  pub erange : Bool
  pub rest : Bytes

-- `none`: no conversion, `*endptr == nptr`, and the value is 0. A minus sign negates modulo 2^64.
unfoldable pub strtoul : ℕ → Bytes → Option Parsed
strtoul base s = do
  (neg, m, rest) ← signed_magnitude base s
  some (
      if ltb ulong_max m
      then (record { value = ulong_max; erange = true; rest = rest })
      else if neg
      then (record { value = (2 ^ 64 - m) % 2 ^ 64; erange = false; rest = rest })
      else (record { value = m; erange = false; rest = rest }))

-- `strtol`: the sign and the size of the value.
pub record ParsedLong : Type 0 where
  pub negative : Bool
  pub size : ℕ
  pub erange : Bool
  pub rest : Bytes

unfoldable pub strtol : ℕ → Bytes → Option ParsedLong
strtol base s = do
  (neg, m, rest) ← signed_magnitude base s
  let limit : ℕ = if neg then long_max + 1 else long_max
  some (
      if ltb limit m
      then (record { negative = neg; size = limit; erange = true; rest = rest })
      else (record { negative = neg; size = m; erange = false; rest = rest }))

abbrev pub digit_char : ℕ → ℕ
digit_char d = if ltb d 10 then b'0' + d else b'a' + d - 10

-- The digits of `n` before `out`; one round for each digit, and at most `n + 1` rounds.
pub print_loop : ℕ → ℕ → ℕ → Bytes → Bytes
print_loop zero base n out = out
print_loop (suc fuel) base n out =
    let out' = digit_char (n % base) ∷ out in
    let more = print_loop fuel base (n / base) out' in if n / base == 0 then out' else more

-- `%u` at base 10 and `%x` at base 16, before the text `out`.
unfoldable pub print_before : ℕ → ℕ → Bytes → Bytes
unfolding print_loop
print_before base n out = print_loop (suc n) base n out

unfoldable pub print_num : ℕ → ℕ → Bytes
print_num base n = print_before base n []

-- Opens this module for a run: a test says `unfolding run_clib`.
unfoldable pub run_clib : ℕ
unfolding strtoul strtol signed_magnitude sign skip_space is_space magnitude magnitude_in pick_base
    hex_prefix starts_zero starts_digit read_digits digit_of print_num print_before
run_clib = 0

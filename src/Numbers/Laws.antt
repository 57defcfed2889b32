-- ===== src/Numbers/Laws.antt =====
-- The number arguments of lib/utils.c, by the texts that they accept.
use libiproute.Prelude.{
  ℕ, ◌-◌, ◌%◌, ◌^◌, ◌≤◌, ◌<◌, ◌≡◌, refl, ◌∙◌, arith, Bool, true, false, ◌&&◌, Option, none, some,
  [], ◌∷◌, ltb, ◌==◌, if◌then◌else◌, ◌>>=◌, Bytes, suc,
}
use libiproute.Prelude.Int.{ℤ, pos, negsuc}
use libiproute.CLib.{strtoul, strtol, ulong_max, signed_magnitude, print_num, run_clib}
use libiproute.CLib.Parse.{Reads, signed_magnitude-print_before, signed_magnitude-minus}
use libiproute.Numbers.{
  ulong_arg, long_arg, get_unsigned, get_u64, get_u32, get_u16, get_u8, get_be16, get_integer,
  get_s32, get_s16, get_s8, no_more_than, within,
}

-- The unsigned number that a whole text spells, if it is below 2^64: a minus sign negates it
-- modulo 2^64. Overflow and `errno` play no part here.
unfoldable pub spelled : ℕ → Bytes → Option ℕ
spelled base s = do
  (neg, m, rest) ← signed_magnitude base s
  elim rest [
    | [] ↦ if ltb m (2 ^ 64) then some (if neg then (2 ^ 64 - m) % 2 ^ 64 else m) else none
    | c ∷ t ↦ none
  ]

-- The integer that a whole text spells, without a bound.
unfoldable pub spelled_int : ℕ → Bytes → Option (Bool × ℕ)
spelled_int base s = do
  (neg, m, rest) ← signed_magnitude base s
  elim rest [ [] ↦ some (neg, m) | c ∷ t ↦ none ]

signed_magnitude-nil : (base : ℕ) → signed_magnitude base [] ≡ none
unfolding run_clib
signed_magnitude-nil base = ground arith

ulong_arg-spelled :
    (stale : Bool) (base : ℕ) (s : Bytes)
    → ulong_arg stale base (some s)
      ≡ (do v ← spelled base s; if stale && (v == ulong_max) then none else some v)
unfolding ulong_arg strtoul spelled
ulong_arg-spelled stale base [] = rw (signed_magnitude-nil base)
ulong_arg-spelled stale base (c ∷ s) = ground arith

-- A narrow unsigned argument is accepted exactly if the text spells a number that fits, and the
-- result is that number; `errno` does not matter.
pub get_u32-spelled :
    (stale : Bool) (base : ℕ) (s : Bytes)
    → (get_u32 stale (some s) base ≡ (spelled base s >>= no_more_than (2 ^ 32 - 1)))
      × (get_unsigned stale (some s) base ≡ (spelled base s >>= no_more_than (2 ^ 32 - 1)))
      × (get_u16 stale (some s) base ≡ (spelled base s >>= no_more_than 0xffff))
      × (get_u8 stale (some s) base ≡ (spelled base s >>= no_more_than 0xff))
unfolding get_u32 get_unsigned get_u16 get_u8
get_u32-spelled stale base s =
    rw (ulong_arg-spelled stale base s) (ground arith, ground arith, ground arith, ground arith)

no_more_than-lt :
    (limit : ℕ) (o : Option ℕ) (v : ℕ) → (o >>= no_more_than limit) ≡ some v → v ≤ limit
no_more_than-lt limit none v h = cc
no_more_than-lt limit (some a) v h = ground arith

pub get_u32-lt :
    (stale : Bool) (arg : Option Bytes) (base v : ℕ) → get_u32 stale arg base ≡ some v → v < 2 ^ 32
unfolding get_u32
get_u32-lt stale arg base v h =
    omega (arith, no_more_than-lt (2 ^ 32 - 1) (ulong_arg stale base arg) v h)

-- A 64-bit argument is the number that the text spells, but 2^64 - 1 is refused where `errno` is
-- ERANGE from an earlier call.
pub get_u64-spelled :
    (stale : Bool) (base : ℕ) (s : Bytes)
    → get_u64 stale (some s) base
      ≡ (do v ← spelled base s; if stale && (v == ulong_max) then none else some v)
unfolding get_u64 spelled
get_u64-spelled stale base s = rw (ulong_arg-spelled stale base s) (ground arith)

long_arg-spelled :
    (stale : Bool) (base : ℕ) (s : Bytes) (half : ℕ)
    → half ≤ 2 ^ 31
    → (long_arg stale base (some s) >>= within half) ≡ (spelled_int base s >>= within half)
unfolding long_arg strtol spelled_int
long_arg-spelled stale base [] half h = rw (signed_magnitude-nil base)
long_arg-spelled stale base (c ∷ s) half h = ground arith

-- A signed argument is accepted exactly if the text spells an integer in the range of the type,
-- and the result is that integer, whatever `errno` was before.
pub get_s32-spelled_int :
    (stale : Bool) (base : ℕ) (s : Bytes)
    → (get_s32 stale (some s) base ≡ (spelled_int base s >>= within (2 ^ 31)))
      × (get_integer stale (some s) base ≡ (spelled_int base s >>= within (2 ^ 31)))
      × (get_s16 stale (some s) base ≡ (spelled_int base s >>= within 0x8000))
      × (get_s8 stale (some s) base ≡ (spelled_int base s >>= within 0x80))
unfolding get_s32 get_integer get_s16 get_s8
get_s32-spelled_int stale base s = (
  long_arg-spelled false base s (2 ^ 31) (omega arith),
  long_arg-spelled stale base s (2 ^ 31) (omega arith),
  long_arg-spelled stale base s 0x8000 (omega arith),
  long_arg-spelled stale base s 0x80 (omega arith),
)

pub spelled-print_num :
    {base b : ℕ} (r : Reads base b) (v : ℕ) → v < 2 ^ 64 → spelled base (print_num b v) ≡ some v
unfolding spelled print_num
spelled-print_num r v h = ground (arith, signed_magnitude-print_before r v [] tt)

-- Every unsigned argument that is printed in decimal or hexadecimal is read back, as far as it
-- fits the type.
pub get_u32-print_num :
    {base b : ℕ} (r : Reads base b) (stale : Bool) (v : ℕ)
    → v < 2 ^ 32
    → (get_u32 stale (some (print_num b v)) base ≡ some v)
      × (get_u64 stale (some (print_num b v)) base ≡ some v)
      × (get_u16 stale (some (print_num b v)) base ≡ no_more_than 0xffff v)
      × (get_u8 stale (some (print_num b v)) base ≡ no_more_than 0xff v)
get_u32-print_num {base} {b} r stale v h =
    let same = spelled-print_num r v (omega arith) in
    let (u32, unsigned, u16, u8) = get_u32-spelled stale base (print_num b v) in
    (
      u32 ∙ rw same (ground arith),
      get_u64-spelled stale base (print_num b v) ∙ rw same (ground arith),
      u16 ∙ rw same,
      u8 ∙ rw same,
    )

spelled_int-print :
    {base b : ℕ} (r : Reads base b) (n : ℕ)
    → (spelled_int base (print_num b n) ≡ some (false, n))
      × (spelled_int base (b'-' ∷ print_num b n) ≡ some (true, n))
unfolding spelled_int print_num
spelled_int-print r n =
    (rw (signed_magnitude-print_before r n [] tt), rw (signed_magnitude-minus r n [] tt))

abbrev pub print_int : ℕ → ℤ → Bytes
print_int b (pos n) = print_num b n
print_int b (negsuc n) = b'-' ∷ print_num b (suc n)

-- A value that fits a signed type of which half the values are negative.
abbrev pub fitting : ℕ → ℤ → Option ℤ
fitting half (pos n) = if ltb n half then some (pos n) else none
fitting half (negsuc n) = if ltb n half then some (negsuc n) else none

spelled_int-print_int :
    {base b : ℕ} (r : Reads base b) (half : ℕ) (z : ℤ)
    → 0 < half
    → (spelled_int base (print_int b z) >>= within half) ≡ fitting half z
spelled_int-print_int r half (pos n) h = rw ((spelled_int-print r n).0) (ground arith)
spelled_int-print_int r half (negsuc n) h = rw ((spelled_int-print r (suc n)).1) (ground arith)

-- An integer printed in decimal or hexadecimal with its sign is read back as a signed argument
-- if it fits the type, and refused if not.
pub get_s32-print_int :
    {base b : ℕ} (r : Reads base b) (stale : Bool) (z : ℤ)
    → (get_s32 stale (some (print_int b z)) base ≡ fitting (2 ^ 31) z)
      × (get_integer stale (some (print_int b z)) base ≡ fitting (2 ^ 31) z)
      × (get_s16 stale (some (print_int b z)) base ≡ fitting 0x8000 z)
      × (get_s8 stale (some (print_int b z)) base ≡ fitting 0x80 z)
get_s32-print_int {base} {b} r stale z =
    let (s32, integer, s16, s8) = get_s32-spelled_int stale base (print_int b z) in
    (
      s32 ∙ spelled_int-print_int r (2 ^ 31) z (omega arith),
      integer ∙ spelled_int-print_int r (2 ^ 31) z (omega arith),
      s16 ∙ spelled_int-print_int r 0x8000 z (omega arith),
      s8 ∙ spelled_int-print_int r 0x80 z (omega arith),
    )

signed_magnitude-bracket : (s : Bytes) → signed_magnitude 0 (b'[' ∷ s) ≡ none
unfolding run_clib
signed_magnitude-bracket [] = refl
signed_magnitude-bracket (c ∷ s) = refl

-- What starts with a bracket is no number.
pub get_be16-bracket : (stale : Bool) (s : Bytes) → get_be16 stale (some (b'[' ∷ s)) 0 ≡ none
unfolding get_be16 get_u16 ulong_arg strtoul
get_be16-bracket stale s = rw (signed_magnitude-bracket s) refl

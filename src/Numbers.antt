-- ===== src/Numbers.antt =====
-- The number arguments of the command line, in lib/utils.c: `get_unsigned`, `get_u64` to `get_u8`,
-- `get_integer`, `get_s32` to `get_s8`, `get_be64` to `get_be16`.
-- An argument is a C string or NULL (`none`); a result of 0 is `some` of the value stored through
-- the pointer, and -1 is `none`. `stale` says that `errno` is ERANGE when the function is entered,
-- since only `get_s32` clears it before the conversion.
pub mod Laws
mod Runs
use libiproute.Prelude.{
  ℕ, ◌+◌, ◌-◌, ◌*◌, ◌/◌, ◌%◌, ◌^◌, Bool, true, false, ◌&&◌, ◌||◌, Option, none, some, [], ◌∷◌, ltb,
  ◌==◌, if◌then◌else◌, ◌>>=◌, Bytes,
}
use libiproute.Prelude.Int.{ℤ, of_sign}
use libiproute.CLib.{Parsed, ParsedLong, strtoul, strtol, ulong_max, long_max}

abbrev pub CStr : Type 0
CStr = Option Bytes

-- `!arg || !*arg`
abbrev given : CStr → CStr
given none = none
given (some []) = none
given (some (c ∷ s)) = some (c ∷ s)

-- The whole text is one number, and it did not overflow.
abbrev whole_ulong : Bool → Parsed → Option ℕ
whole_ulong stale p = elim p.rest [
  | [] ↦ if (p.value == ulong_max) && (p.erange || stale) then none else some p.value
  | c ∷ s ↦ none
]

abbrev at_limit : ParsedLong → Bool
at_limit p = if p.negative then p.size == long_max + 1 else p.size == long_max

abbrev whole_long : Bool → ParsedLong → Option (Bool × ℕ)
whole_long stale p = elim p.rest [
  | [] ↦ if at_limit p && (p.erange || stale) then none else some (p.negative, p.size)
  | c ∷ s ↦ none
]

ulong_arg : Bool → ℕ → CStr → Option ℕ
ulong_arg stale base arg = do s ← given arg; p ← strtoul base s; whole_ulong stale p

long_arg : Bool → ℕ → CStr → Option (Bool × ℕ)
long_arg stale base arg = do s ← given arg; p ← strtol base s; whole_long stale p

abbrev no_more_than : ℕ → ℕ → Option ℕ
no_more_than limit v = if ltb limit v then none else some v

-- The range of a signed type with `half` negative values.
abbrev within : ℕ → Bool × ℕ → Option ℤ
within half (neg, size) =
    if (if neg then ltb half size else ltb (half - 1) size) then none else some (of_sign neg size)

unfoldable pub get_unsigned : Bool → CStr → ℕ → Option ℕ
unfolding ulong_arg
get_unsigned stale arg base = do v ← ulong_arg stale base arg; no_more_than (2 ^ 32 - 1) v

unfoldable pub get_u64 : Bool → CStr → ℕ → Option ℕ
unfolding ulong_arg
get_u64 stale arg base = do v ← ulong_arg stale base arg; no_more_than (2 ^ 64 - 1) v

unfoldable pub get_u32 : Bool → CStr → ℕ → Option ℕ
unfolding ulong_arg
get_u32 stale arg base = do v ← ulong_arg stale base arg; no_more_than (2 ^ 32 - 1) v

unfoldable pub get_u16 : Bool → CStr → ℕ → Option ℕ
unfolding ulong_arg
get_u16 stale arg base = do v ← ulong_arg stale base arg; no_more_than 0xffff v

unfoldable pub get_u8 : Bool → CStr → ℕ → Option ℕ
unfolding ulong_arg
get_u8 stale arg base = do v ← ulong_arg stale base arg; no_more_than 0xff v

unfoldable pub get_integer : Bool → CStr → ℕ → Option ℤ
unfolding long_arg
get_integer stale arg base = do v ← long_arg stale base arg; within (2 ^ 31) v

-- `errno = 0` comes first.
unfoldable pub get_s32 : Bool → CStr → ℕ → Option ℤ
unfolding long_arg
get_s32 stale arg base = do v ← long_arg false base arg; within (2 ^ 31) v

unfoldable pub get_s16 : Bool → CStr → ℕ → Option ℤ
unfolding long_arg
get_s16 stale arg base = do v ← long_arg stale base arg; within 0x8000 v

unfoldable pub get_s8 : Bool → CStr → ℕ → Option ℤ
unfolding long_arg
get_s8 stale arg base = do v ← long_arg stale base arg; within 0x80 v

-- A value in network byte order, as the bytes in memory.
abbrev pub be16 : ℕ → Bytes
be16 v = (v / 256 % 256) ∷ (v % 256) ∷ []

abbrev pub be32 : ℕ → Bytes
be32 v = (v / 2 ^ 24 % 256) ∷ (v / 2 ^ 16 % 256) ∷ be16 v

abbrev pub be64 : ℕ → Bytes
be64 v = (v / 2 ^ 56 % 256) ∷ (v / 2 ^ 48 % 256) ∷ (v / 2 ^ 40 % 256) ∷ (v / 2 ^ 32 % 256) ∷ be32 v

unfoldable pub get_be64 : Bool → CStr → ℕ → Option Bytes
unfolding get_u64
get_be64 stale arg base = do v ← get_u64 stale arg base; some (be64 v)

unfoldable pub get_be32 : Bool → CStr → ℕ → Option Bytes
unfolding get_u32
get_be32 stale arg base = do v ← get_u32 stale arg base; some (be32 v)

unfoldable pub get_be16 : Bool → CStr → ℕ → Option Bytes
unfolding get_u16
get_be16 stale arg base = do v ← get_u16 stale arg base; some (be16 v)

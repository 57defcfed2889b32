-- ===== src/Parts/Guid.antt =====
-- `get_guid` of lib/utils.c: eight bytes in hexadecimal with colons between them, as a number of 64 bits.
pub mod Laws
mod Runs
use Prim.Native.Nat.{bit_or}
use libiproute.Prelude.{
  ℕ, zero, suc, ◌+◌, ◌-◌, ◌*◌, ◌^◌, Bool, true, ◌&&◌, Option, none, some, ltb, ◌==◌, if◌then◌else◌,
  Bytes, length, drop, get_or,
}
use libiproute.CLib.{Parsed, strtoul}

-- The test of the colons, over the rounds left.
unfoldable pub columns : ℕ → ℕ → Bytes → Bool
columns zero i arg = true
columns (suc rounds) i arg = get_or arg (2 + i * 3) 0 == b':' && columns rounds (i + 1) arg

-- What `strtoul` reads at `arg + i * 3`, if it is a byte and `endptr` is two characters behind.
unfoldable pub guid_byte : ℕ → Bytes → Option ℕ
guid_byte i arg = elim (strtoul 16 (drop (i * 3) arg)) [
  | none ↦ none
  | some p ↦
      if length p.rest + 2 == length (drop (i * 3) arg)
      then (if ltb 255 p.value then none else some p.value)
      else none
]

unfoldable pub guid_loop : ℕ → ℕ → Bytes → ℕ → Option ℕ
guid_loop zero i arg guid = some guid
guid_loop (suc rounds) i arg guid = elim (guid_byte i arg) [
  | none ↦ none
  | some tmp ↦ guid_loop rounds (i + 1) arg (bit_or guid (tmp * 2 ^ (56 - 8 * i)))
]

unfoldable pub get_guid : Bytes → Option ℕ
unfolding columns guid_loop
get_guid arg =
    if length arg == 23 then (if columns 7 0 arg then guid_loop 8 0 arg 0 else none) else none

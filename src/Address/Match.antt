-- ===== src/Address/Match.antt =====
-- `inet_addr_match` and `inet_addr_match_rta` of lib/utils.c: do two addresses agree in their first
-- bits? `memcmp`, the words and the mask are taken in network order, in which the addresses lie.
pub mod Words
pub mod Laws
mod Runs
use Prim.Native.Nat.{bit_and, bit_xor}
use libiproute.Prelude.{
  ℕ, zero, suc, ◌+◌, ◌-◌, ◌*◌, ◌/◌, ◌%◌, ◌^◌, Bool, true, ◌&&◌, ◌||◌, not, Option, none, some, ltb,
  ◌==◌, if◌then◌else◌, Bytes, get_or,
}
use libiproute.Prelude.Int.{ℤ, pos, negsuc}
use libiproute.Address.{
  InetPrefix, RtaResult, ok, bad_length, wrong_family, af_unspec, word, get_addr_rta,
}

-- `memcmp(a, b, n) == 0`
pub mem_eq : ℕ → Bytes → Bytes → Bool
mem_eq zero a b = true
mem_eq (suc n) a b = mem_eq n a b && get_or a n 0 == get_or b n 0

-- `htonl((0xffffffff) << (0x20 - bits))` for 1 to 31 bits.
abbrev bits_mask : ℕ → ℕ
bits_mask bits = (2 ^ 32 - 1) * 2 ^ (32 - bits) % 2 ^ 32

-- 0: the bits agree. -1 and 1: they differ in the whole words, in the word behind them.
unfoldable pub inet_addr_match : Bytes → Bytes → ℕ → ℤ
unfolding mem_eq
inet_addr_match a b bits =
    let words = bits / 32 in
    let rest = bits % 32 in
    if not (words == 0) && not (mem_eq (words * 4) a b)
    then negsuc 0
    else if not (rest == 0)
        && not (bit_and (bit_xor (word a words) (word b words)) (bits_mask rest) == 0)
    then pos 1
    else pos 0

abbrev positive : ℤ → Option ℕ
positive (pos (suc n)) = some (suc n)
positive b = none

-- The second argument is the attribute's payload, or NULL.
unfoldable pub inet_addr_match_rta : InetPrefix → Option Bytes → ℤ
inet_addr_match_rta m none = pos 0
inet_addr_match_rta m (some payload) =
    if m.family == af_unspec then pos 0 else (elim (positive m.bitlen) [
      | none ↦ pos 0
      | some bits ↦ elim (get_addr_rta m payload m.family) [
        | ok dst ↦ inet_addr_match dst.data_bytes m.data_bytes bits
        | _ ↦ negsuc 0
      ]
    ])

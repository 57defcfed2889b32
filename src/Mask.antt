-- ===== src/Mask.antt =====
-- `mask2bits` of lib/utils.c: the prefix length that an IPv4 netmask stands for.
-- A netmask is the 32-bit value that `ntohl` gives.
pub mod Laws
mod Runs
use Prim.Native.Nat.{bit_and}
use libiproute.Prelude.{
  ℕ, zero, suc, ◌+◌, ◌-◌, ◌*◌, ◌%◌, ◌^◌, Option, none, some, ◌==◌, if◌then◌else◌, not,
}

-- `for (; mask; mask <<= 1) ++bits;` A 32-bit value is 0 after 32 shifts.
count_bits : ℕ → ℕ → ℕ → ℕ
count_bits zero mask bits = bits
count_bits (suc rounds) mask bits =
    let more = count_bits rounds (mask * 2 % 2 ^ 32) (bits + 1) in if mask == 0 then bits else more

-- `~mask` and the sum wrap at 32 bits. A result of -1 is `none`.
unfoldable pub mask2bits : ℕ → Option ℕ
unfolding count_bits
mask2bits mask =
    let host = 2 ^ 32 - 1 - mask in
    if not (bit_and host ((host + 1) % 2 ^ 32) == 0) then none else some (count_bits 33 mask 0)

-- ===== src/Netlink/Memory.antt =====
-- Bytes in memory, alignment, and the header of an attribute (`struct rtattr`: `rta_len`, then
-- `rta_type`, 16 bits each). An address is an offset, and the host is little-endian.
pub mod Laws
use libiproute.Prelude.{
  ℕ, zero, suc, ◌+◌, ◌-◌, ◌*◌, ◌/◌, ◌%◌, ◌^◌, ◌&&◌, List, [], ◌∷◌, leb, ltb, if◌then◌else◌, Bytes,
  length, get_or,
}

abbrev pub Memory : Type 0
Memory = ℕ → ℕ

-- memcpy(mem + off, bs, length bs)
unfoldable pub store : Memory → ℕ → Bytes → Memory
store mem off bs i = if leb off i && ltb i (off + length bs) then get_or bs (i - off) 0 else mem i

-- The `n` bytes from `off` on.
unfoldable pub load : Memory → ℕ → ℕ → Bytes
load mem off zero = []
load mem off (suc n) = mem off ∷ load mem (off + 1) n

unfoldable pub le16 : ℕ → Bytes
le16 v = (v % 256) ∷ (v / 256 % 256) ∷ []

unfoldable pub get16 : Memory → ℕ → ℕ
get16 mem off = mem off + 256 * mem (off + 1)

unfoldable pub get32 : Memory → ℕ → ℕ
unfolding get16
get32 mem off = get16 mem off + 2 ^ 16 * get16 mem (off + 2)

-- NLMSG_ALIGN and RTA_ALIGN, in 32 bits.
abbrev pub align4 : ℕ → ℕ
align4 len = (len + 3) % 2 ^ 32 / 4 * 4

-- RTA_LENGTH(len)
abbrev pub rta_length : ℕ → ℕ
rta_length len = 4 + len

unfoldable pub rta_len : Memory → ℕ → ℕ
rta_len mem rta = get16 mem rta

unfoldable pub rta_type : Memory → ℕ → ℕ
rta_type mem rta = get16 mem (rta + 2)

-- RTA_PAYLOAD(rta), for a length of 4 or more, and the bytes of RTA_DATA(rta).
abbrev pub rta_payload : Memory → ℕ → ℕ
rta_payload mem rta = rta_len mem rta - 4

abbrev pub rta_data : Memory → ℕ → Bytes
rta_data mem rta = load mem (rta + 4) (rta_payload mem rta)

-- ===== src/Address.antt =====
-- Network addresses of lib/utils.c (`inet_prefix`, `get_addr_1`, `get_prefix_1`, `get_addr_rta`,
-- `inet_addr_match`, `get_netmask`, the family names) and `ll_addr_a2n` of lib/ll_addr.c.
-- The array `data[64]` is the list of the bytes that were stored in it; those behind them are 0
-- after `memset`. IPv6 text goes to the C library's `inet_pton`, which is a parameter.
pub mod Text
pub mod Hosts
pub mod Match
use Prim.Native.Nat.{bit_and, bit_or}
use libiproute.Prelude.{
  ℕ, zero, suc, ◌+◌, ◌-◌, ◌*◌, ◌/◌, ◌%◌, ◌^◌, Bool, true, false, ◌&&◌, ◌||◌, not, Option, none,
  some, List, [], ◌∷◌, ◌++◌, ltb, leb, ◌==◌, if◌then◌else◌, ◌>>=◌, Bytes, codes, bytes_eq, length,
  drop, take, get_or,
}
use libiproute.Mpls.{af_mpls}
use libiproute.Dnet.{af_decnet}
use libiproute.Prelude.Int.{ℤ, pos, negsuc}

abbrev pub af_unspec : ℕ
af_unspec = 0

abbrev pub af_inet : ℕ
af_inet = 2

abbrev pub af_ipx : ℕ
af_ipx = 4

abbrev pub af_bridge : ℕ
af_bridge = 7

abbrev pub af_inet6 : ℕ
af_inet6 = 10

abbrev pub af_packet : ℕ
af_packet = 17

-- The flags of include/utils.h.
abbrev pub prefixlen_specified : ℕ
prefixlen_specified = 1

abbrev pub addrtype_inet : ℕ
addrtype_inet = 2

abbrev pub addrtype_inet_unspec : ℕ
addrtype_inet_unspec = 6

abbrev pub addrtype_inet_multi : ℕ
addrtype_inet_multi = 10

pub record InetPrefix : Type 0 where
  pub flags : ℕ
  pub bytelen : ℕ
  pub bitlen : ℤ
  pub family : ℕ
  pub data_bytes : Bytes

-- `ntohl(data[i])`
unfoldable pub word : Bytes → ℕ → ℕ
word bs i =
    get_or bs (4 * i) 0 * 2 ^ 24
    + get_or bs (4 * i + 1) 0 * 2 ^ 16
    + get_or bs (4 * i + 2) 0 * 2 ^ 8
    + get_or bs (4 * i + 3) 0

-- memcpy(dst->data, data, len): the bytes behind the copy stay.
abbrev pub overlay : Bytes → Bytes → Bytes
overlay bs old = bs ++ drop (length bs) old

unfoldable pub af_bit_len : ℕ → ℕ
af_bit_len af =
    if af == af_inet6
    then 128
    else if af == af_inet
    then 32
    else if af == af_decnet
    then 16
    else if af == af_ipx
    then 80
    else if af == af_mpls
    then 20
    else 0

unfoldable pub af_byte_len : ℕ → ℕ
unfolding af_bit_len
af_byte_len af = af_bit_len af / 8

pub all_zero : Bytes → Bool
all_zero [] = true
all_zero (b ∷ bs) = b == 0 && all_zero bs

-- IN_MULTICAST, IN6_IS_ADDR_UNSPECIFIED and IN6_IS_ADDR_MULTICAST.
abbrev in_multicast : ℕ → Bool
in_multicast a = bit_and a 0xf000_0000 == 0xe000_0000

abbrev type_flags : ℕ → Bytes → ℕ
type_flags af bs =
    if af == af_inet
    then (if word bs 0 == 0
        then addrtype_inet_unspec
        else if in_multicast (word bs 0)
        then addrtype_inet_multi
        else addrtype_inet)
    else if af == af_inet6
    then (if all_zero (take 16 bs)
        then addrtype_inet_unspec
        else if get_or bs 0 0 == 0xff
        then addrtype_inet_multi
        else addrtype_inet)
    else 0

unfoldable pub set_address_type : InetPrefix → InetPrefix
unfolding word all_zero
set_address_type addr = record addr {
  flags = bit_or addr.flags (type_flags addr.family addr.data_bytes);
}

-- The attribute's payload decides the family: -1 is `bad_length`, -2 is `wrong_family`.
pub data RtaResult : Type 0 where
  ok : InetPrefix → RtaResult
  bad_length wrong_family : RtaResult

abbrev rta_family : ℕ → Option ℕ
rta_family len =
    if len == 4
    then some af_inet
    else if len == 16
    then some af_inet6
    else if len == 2
    then some af_decnet
    else if len == 10
    then some af_ipx
    else none

unfoldable pub get_addr_rta : InetPrefix → Bytes → ℕ → RtaResult
unfolding set_address_type
get_addr_rta dst payload family = elim (rta_family (length payload)) [
  | none ↦ bad_length
  | some af ↦
      if not (family == af_unspec) && not (family == af)
      then wrong_family
      else ok (
          set_address_type (record {
            flags = 0;
            bytelen = length payload;
            bitlen = negsuc 0;
            family = af;
            data_bytes = overlay payload dst.data_bytes;
          }))
]

-- ===== src/Address/Text/Runs.antt =====
-- Concrete runs, and the theorems at concrete inputs. There is no IPv6 text in them.
use libiproute.Prelude.{◌≡◌, refl, false, none, some, [], ◌∷◌, Bytes, Option, codes}
use libiproute.Prelude.Int.{pos}
use libiproute.CLib.{run_clib}
use libiproute.Numbers.{get_unsigned}
use libiproute.Mask.{mask2bits}
use libiproute.Parts.{get_addr_ipv4}
use libiproute.Address.{InetPrefix, af_unspec, af_inet, set_address_type, af_byte_len}
use libiproute.Address.Text.{get_prefix_1, ll_addr_a2n, run_address}
use libiproute.Address.Text.Laws.{BitlenFits, get_prefix_1-BitlenFits}

abbrev no_ipv6 : Bytes → Option Bytes
no_ipv6 s = none

abbrev ten_slash_8 : InetPrefix
ten_slash_8 = record {
  flags = 3;
  bytelen = 4;
  bitlen = pos 8;
  family = af_inet;
  data_bytes = 10 ∷ [];
}

with_netmask : get_prefix_1 no_ipv6 false (codes "10/255.0.0.0") af_unspec ≡ some ten_slash_8
unfolding run_address run_clib set_address_type af_byte_len get_addr_ipv4 get_unsigned mask2bits
with_netmask = refl

with_default :
    get_prefix_1 no_ipv6 false (codes "default") af_inet
    ≡ some (record { flags = 7; bytelen = 4; bitlen = pos 0; family = af_inet; data_bytes = [] })
unfolding run_address set_address_type af_byte_len
with_default = refl

link_address : ll_addr_a2n no_ipv6 6 (codes "52:54:0:ff") ≡ some (4, 0x52 ∷ 0x54 ∷ 0 ∷ 0xff ∷ [])
unfolding run_address run_clib
link_address = refl

get_prefix_1-BitlenFits_example : BitlenFits ten_slash_8
get_prefix_1-BitlenFits_example =
    get_prefix_1-BitlenFits no_ipv6 false (codes "10/255.0.0.0") af_unspec ten_slash_8 with_netmask

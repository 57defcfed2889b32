-- ===== src/Address/Text/Names.antt =====
-- The names of the address families.
use libiproute.Prelude.{ℕ, Bool, ◌||◌, if◌then◌else◌, ◌≡◌, arith, bytes_eq, ◌==◌}
use libiproute.Mpls.{af_mpls}
use libiproute.Dnet.{af_decnet}
use libiproute.Address.{af_unspec, af_inet, af_inet6, af_ipx, af_bridge, af_packet}
use libiproute.Address.Text.{read_family, family_name}

-- The families that have a name.
abbrev pub has_name : ℕ → Bool
has_name af =
    af == af_inet
    || af == af_inet6
    || af == af_decnet
    || af == af_packet
    || af == af_ipx
    || af == af_mpls
    || af == af_bridge

-- Reading the name of a family gives the family if it has a name, and AF_UNSPEC if it has none.
pub read_family-family_name :
    (af : ℕ) → read_family (family_name af) ≡ (if has_name af then af else af_unspec)
unfolding read_family family_name bytes_eq
read_family-family_name af = ground arith

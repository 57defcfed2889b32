-- ===== src/RtNames/LlProto.antt =====
-- lib/ll_proto.c: the Ethernet protocols by number and by name, the numbers of
-- include/uapi/linux/if_ether.h. A name without its case is what `strcasecmp` compares in the C locale.
pub mod Laws
use Prim.Native.String.{String}
use libiproute.Prelude.{
  ℕ, zero, suc, ◌+◌, ◌-◌, ◌*◌, ◌%◌, ◌≡◌, Bool, true, false, ◌&&◌, Option, none, some, List, [], ◌∷◌,
  ◌++◌, ltb, leb, ◌==◌, if◌then◌else◌, Bytes, codes, bytes_eq, take,
}
use libiproute.Numbers.{be16, get_be16}
use libiproute.CLib.{print_num}

pub record LlProto : Type 0 where
  pub id : ℕ
  pub name : Bytes

abbrev protocol : ℕ → String → LlProto
protocol id name = record { id = id; name = codes name }

abbrev pub llproto_names : List LlProto
llproto_names =
    protocol 0x60 "loop"
    ∷ protocol 0x200 "pup"
    ∷ protocol 0x201 "pupat"
    ∷ protocol 0x800 "ip"
    ∷ protocol 0x805 "x25"
    ∷ protocol 0x806 "arp"
    ∷ protocol 0x8ff "bpq"
    ∷ protocol 0xa00 "ieeepup"
    ∷ protocol 0xa01 "ieeepupat"
    ∷ protocol 0x6000 "dec"
    ∷ protocol 0x6001 "dna_dl"
    ∷ protocol 0x6002 "dna_rc"
    ∷ protocol 0x6003 "dna_rt"
    ∷ protocol 0x6004 "lat"
    ∷ protocol 0x6005 "diag"
    ∷ protocol 0x6006 "cust"
    ∷ protocol 0x6007 "sca"
    ∷ protocol 0x8035 "rarp"
    ∷ protocol 0x809b "atalk"
    ∷ protocol 0x80f3 "aarp"
    ∷ protocol 0x8137 "ipx"
    ∷ protocol 0x86dd "ipv6"
    ∷ protocol 0x8863 "ppp_disc"
    ∷ protocol 0x8864 "ppp_ses"
    ∷ protocol 0x884c "atmmpoa"
    ∷ protocol 0x8884 "atmfate"
    ∷ protocol 0x1 "802_3"
    ∷ protocol 0x2 "ax25"
    ∷ protocol 0x3 "all"
    ∷ protocol 0x4 "802_2"
    ∷ protocol 0x5 "snap"
    ∷ protocol 0x6 "ddcmp"
    ∷ protocol 0x7 "wan_ppp"
    ∷ protocol 0x8 "ppp_mp"
    ∷ protocol 0x9 "localtalk"
    ∷ protocol 0xc "can"
    ∷ protocol 0x10 "ppptalk"
    ∷ protocol 0x11 "tr_802_2"
    ∷ protocol 0x15 "mobitex"
    ∷ protocol 0x16 "control"
    ∷ protocol 0x17 "irda"
    ∷ protocol 0x18 "econet"
    ∷ protocol 0x88ca "tipc"
    ∷ protocol 0x88a2 "aoe"
    ∷ protocol 0x8100 "802.1Q"
    ∷ protocol 0x88a8 "802.1ad"
    ∷ []

-- `tolower` in the C locale, of each byte.
abbrev pub lower : ℕ → ℕ
lower c = if leb b'A' c && leb c b'Z' then c + 32 else c

abbrev pub lower_case : Bytes → Bytes
lower_case [] = []
lower_case (c ∷ s) = lower c ∷ lower_case s

abbrev pub strcasecmp_eq : Bytes → Bytes → Bool
strcasecmp_eq a b = bytes_eq (lower_case a) (lower_case b)

-- The two loops.
unfoldable pub proto_name : List LlProto → ℕ → Option Bytes
proto_name [] id = none
proto_name (p ∷ names) id = if p.id == id then some p.name else proto_name names id

unfoldable pub proto_id : List LlProto → Bytes → Option ℕ
proto_id [] buf = none
proto_id (p ∷ names) buf = if strcasecmp_eq p.name buf then some p.id else proto_id names buf

abbrev pub name_or_number : Option Bytes → ℕ → ℕ → Bytes
name_or_number none id len = take (len - 1) (b'[' ∷ (print_num 10 id ++ (b']' ∷ [])))
name_or_number (some name) id len = name

abbrev be16_or : Option ℕ → Option Bytes → Option Bytes
be16_or none b = b
be16_or (some id) b = some (be16 id)

-- `ntohs` of the two bytes of a number in memory.
abbrev pub ntohs : Bytes → ℕ
ntohs [] = 0
ntohs (h ∷ []) = h
ntohs (h ∷ l ∷ s) = h * 256 + l

unfoldable pub ll_proto_n2a : Bytes → ℕ → Bytes
unfolding proto_name
ll_proto_n2a id len = name_or_number (proto_name llproto_names (ntohs id)) (ntohs id) len

unfoldable pub ll_proto_a2n : Bool → Bytes → Option Bytes
unfolding proto_id
ll_proto_a2n stale buf = be16_or (proto_id llproto_names buf) (get_be16 stale (some buf) 0)

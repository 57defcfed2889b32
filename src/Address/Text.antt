-- ===== src/Address/Text.antt =====
-- Addresses and prefixes as text: `get_addr_1`, `get_netmask`, `get_prefix_1`, `read_family` and
-- `family_name` of lib/utils.c, and `ll_addr_a2n` of lib/ll_addr.c.
pub mod Laws
pub mod LinkLayer
pub mod Names
pub mod Exits
pub mod Printer
mod Runs
use Prim.Native.Nat.{bit_and, bit_or}
use libiproute.Prelude.{
  ℕ, zero, suc, ◌+◌, ◌-◌, ◌*◌, ◌/◌, ◌%◌, ◌^◌, Bool, true, false, ◌&&◌, ◌||◌, not, Option, none,
  some, List, [], ◌∷◌, ◌++◌, ltb, leb, ◌==◌, if◌then◌else◌, ◌>>=◌, Bytes, codes, bytes_eq, length,
  take,
}
use libiproute.Prelude.Int.{ℤ, pos, negsuc}
use libiproute.CLib.{Parsed, strtoul}
use libiproute.Numbers.{get_unsigned, be32}
use libiproute.Mask.{mask2bits}
use libiproute.Parts.{get_addr_ipv4}
use libiproute.Mpls.{Pton, done, invalid, unsupported, mpls_pton, af_mpls, s_mask}
use libiproute.Dnet.{dnet_pton, af_decnet}
use libiproute.Address.{
  InetPrefix, af_unspec, af_inet, af_inet6, af_ipx, af_bridge, af_packet, af_bit_len, af_byte_len,
  prefixlen_specified, set_address_type, word,
}

-- strchr: the text before the first `c`, and what stands behind it, if there is one.
pub split_at : ℕ → Bytes → Bytes × Option Bytes
split_at c [] = ([], none)
split_at c (x ∷ s) =
    let (front, back) = split_at c s in if x == c then ([], some s) else (x ∷ front, back)

pub has_char : ℕ → Bytes → Bool
has_char c [] = false
has_char c (x ∷ s) = x == c || has_char c s

-- `sscanf(arg, "%x", &temp)` into an `int`, and the test of its range.
abbrev pub scan_byte : Bytes → Option ℕ
scan_byte s = do
  p ← strtoul 16 s
  if ltb 255 (p.value % 2 ^ 32) then none else some (p.value % 2 ^ 32)

abbrev pub count_on : ℕ → Option (ℕ × Bytes) → Option (ℕ × Bytes)
count_on b none = none
count_on b (some (n, bs)) = some (suc n, b ∷ bs)

-- The loop over `i < len`, from the rounds left: `i + 1` and the bytes stored. Where the loop runs
-- to `len`, the count is one more than the bytes.
pub ll_addr_loop : ℕ → Bytes → Option (ℕ × Bytes)
ll_addr_loop zero arg = some (1, [])
ll_addr_loop (suc rounds) arg =
    let (front, back) = split_at b':' arg in
    elim (scan_byte front) [
      | none ↦ none
      | some b ↦ elim back [
        | none ↦ some (1, b ∷ [])
        | some arg' ↦ count_on b (ll_addr_loop rounds arg')
      ]
    ]

-- The entries in memory, and how many bytes of them `__get_addr_1` counts.
pub label_bytes : List ℕ → Bytes
label_bytes [] = []
label_bytes (e ∷ es) = be32 e ++ label_bytes es

-- The loop over `i < maxlabels`: 4 bytes up to the first entry with the bottom-of-stack bit.
pub label_len : ℕ → ℕ → Bytes → ℕ
label_len zero i bs = 4
label_len (suc rounds) i bs =
    let more = label_len rounds (i + 1) bs in
    if bit_and (word bs i) s_mask == 0 then more else (i + 1) * 4

abbrev zero_prefix : ℕ → InetPrefix
zero_prefix af = record { flags = 0; bytelen = 0; bitlen = pos 0; family = af; data_bytes = [] }

module _ (inet_pton6 : Bytes → Option Bytes) where
  module _ (ll_addr : Bytes → Option (ℕ × Bytes)) where
    -- `__get_addr_1`, where `ll_addr` is its call of `ll_addr_a2n`.
    pub get_addr_text : Bytes → ℕ → Option InetPrefix
    get_addr_text name family =
        if bytes_eq name (codes "default")
        then (if family == af_decnet || family == af_mpls
            then none
            else some (record {
              flags = prefixlen_specified;
              bytelen = af_byte_len family;
              bitlen = negsuc 1;
              family = family;
              data_bytes = [];
            }))
        else if bytes_eq name (codes "all") || bytes_eq name (codes "any")
        then (if family == af_decnet || family == af_mpls
            then none
            else some (record (zero_prefix family) { bitlen = negsuc 1 }))
        else if family == af_packet
        then (do
          (len, bs) ← ll_addr name
          some (record {
            flags = 0;
            bytelen = len;
            bitlen = pos (len * 8);
            family = af_packet;
            data_bytes = bs;
          }))
        else if has_char b':' name
        then (if not (family == af_unspec) && not (family == af_inet6) then none else (do
          bs ← inet_pton6 name
          some (record {
            flags = 0;
            bytelen = 16;
            bitlen = negsuc 0;
            family = af_inet6;
            data_bytes = bs;
          })))
        else if family == af_decnet
        then (elim (dnet_pton af_decnet name) [
          | done a ↦ some (record {
            flags = 0;
            bytelen = 2;
            bitlen = negsuc 0;
            family = af_decnet;
            data_bytes = (a % 256) ∷ (a / 256 % 256) ∷ [];
          })
          | _ ↦ none
        ])
        else if family == af_mpls
        then (elim (mpls_pton af_mpls name 256) [
          | done es ↦ some (record {
            flags = 0;
            bytelen = label_len 64 0 (label_bytes es);
            bitlen = pos 20;
            family = af_mpls;
            data_bytes = label_bytes es;
          })
          | _ ↦ none
        ])
        else if not (family == af_unspec) && not (family == af_inet)
        then none
        else (do
          bs ← get_addr_ipv4 name
          some (record {
            flags = 0;
            bytelen = 4;
            bitlen = negsuc 0;
            family = af_inet;
            data_bytes = bs;
          }))

    pub get_addr_typed : Bytes → ℕ → Option InetPrefix
    get_addr_typed name family = do a ← get_addr_text name family; some (set_address_type a)

  -- An IPv4 address in dotted form, or bytes with colons between them: the count and the bytes.
  unfoldable pub ll_addr_a2n : ℕ → Bytes → Option (ℕ × Bytes)
  unfolding get_addr_typed get_addr_text
  ll_addr_a2n len arg =
      if has_char b'.' arg
      then (do
        pfx ← get_addr_typed (λ _. none) arg af_inet
        if ltb len 4 then none else some (4, take 4 (pfx.data_bytes ++ 0 ∷ 0 ∷ 0 ∷ 0 ∷ [])))
      else ll_addr_loop len arg

  -- `data` has room for 256 bytes.
  unfoldable pub get_addr_1 : Bytes → ℕ → Option InetPrefix
  get_addr_1 name family = get_addr_typed (ll_addr_a2n 256) name family

  -- A number of bits, or a dotted netmask.
  unfoldable pub get_netmask : Bool → Bytes → ℕ → Option ℕ
  get_netmask stale arg base = elim (get_unsigned stale (some arg) base) [
    | some v ↦ some v
    | none ↦ do
      addr ← get_addr_1 arg af_inet
      if addr.family == af_inet then mask2bits (word addr.data_bytes 0) else none
  ]

  abbrev unbounded : ℤ → Bool
  unbounded (negsuc (suc zero)) = true
  unbounded b = false

  -- What `get_prefix_1` does with the address and the text behind the slash, if there is one.
  with_length : Bool → InetPrefix → Option Bytes → Option InetPrefix
  with_length stale dst none =
      some (record dst {
        bitlen = if unbounded dst.bitlen then pos 0 else pos (af_bit_len dst.family);
      })
  with_length stale dst (some mask) =
      if unbounded dst.bitlen then none else (elim (get_netmask stale mask 0) [
        | none ↦ none
        | some plen ↦
            if ltb (af_bit_len dst.family) plen
            then none
            else some
                (record dst { flags = bit_or dst.flags prefixlen_specified; bitlen = pos plen })
      ])

  unfoldable pub get_prefix_1 : Bool → Bytes → ℕ → Option InetPrefix
  unfolding with_length
  get_prefix_1 stale arg family =
      let (name, mask) = split_at b'/' arg in
      (do dst ← get_addr_1 name family; with_length stale dst mask)

unfoldable pub read_family : Bytes → ℕ
read_family name =
    if bytes_eq name (codes "inet")
    then af_inet
    else if bytes_eq name (codes "inet6")
    then af_inet6
    else if bytes_eq name (codes "dnet")
    then af_decnet
    else if bytes_eq name (codes "link")
    then af_packet
    else if bytes_eq name (codes "ipx")
    then af_ipx
    else if bytes_eq name (codes "mpls")
    then af_mpls
    else if bytes_eq name (codes "bridge")
    then af_bridge
    else af_unspec

unfoldable pub family_name : ℕ → Bytes
family_name family =
    if family == af_inet
    then codes "inet"
    else if family == af_inet6
    then codes "inet6"
    else if family == af_decnet
    then codes "dnet"
    else if family == af_packet
    then codes "link"
    else if family == af_ipx
    then codes "ipx"
    else if family == af_mpls
    then codes "mpls"
    else if family == af_bridge
    then codes "bridge"
    else codes "???"

-- Opens this module for a run.
unfoldable pub run_address : ℕ
unfolding get_prefix_1 get_addr_1 get_netmask ll_addr_a2n get_addr_typed get_addr_text with_length
    split_at has_char ll_addr_loop label_bytes label_len read_family family_name bytes_eq
run_address = 0

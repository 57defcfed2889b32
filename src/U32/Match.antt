-- ===== src/U32/Match.antt =====
-- The matches of tc/f_u32.c by protocol: `parse_ip_addr`, `parse_ip6_addr`, `parse_ether_addr`,
-- `parse_ip`, `parse_ip6`, `parse_ether` and `parse_selector`. What `inet_pton` makes of an IPv6 text
-- and `sscanf` of an Ethernet address (six bytes) are parameters.
pub mod Laws
use libiproute.Prelude.{
  ℕ, zero, suc, ◌+◌, ◌*◌, ◌≡◌, Bool, ◌||◌, Option, none, some, List, [], ◌∷◌, ◌==◌, if◌then◌else◌,
  ◌>>=◌, Bytes, codes,
}
use libiproute.Prelude.Int.{ℤ, pos, negsuc, add_ℕ, bits_of}
use libiproute.Address.{af_inet, af_inet6, word}
use libiproute.Address.Text.{get_prefix_1}
use libiproute.Netlink.Build.{Msg}
use libiproute.U32.{Sel, pack_key, pack_key16, pack_key8}
use libiproute.U32.Parse.{
  Args, Outcome, left_over, is, fits, optional_at, parse_u32, parse_u16, parse_u8, prefix_mask,
  ip6_loop, parse_ip6_class, parse_udp, parse_icmp, parse_mark,
}

-- The six bytes of an address, one key for each.
unfoldable pub ether_loop : Bytes → ℕ → ℤ → ℤ → Sel → Option Sel
ether_loop [] i off offmask sel = some sel
ether_loop (b ∷ address) i off offmask sel = do
  sel' ← pack_key8 sel b 0xff (add_ℕ off i) offmask
  ether_loop address (i + 1) off offmask sel'

module _ (inet_pton6 : Bytes → Option Bytes) (read_ether : Bytes → Option Bytes)
    (stale : Bool) where
  unfoldable pub parse_ip_addr : Args → Sel → ℤ → Outcome
  parse_ip_addr [] sel off = none
  parse_ip_addr (a ∷ args) sel off = do
    addr ← get_prefix_1 inet_pton6 stale a af_inet
    (off', offmask, rest) ← optional_at stale args off (pos 0)
    left_over rest
        (pack_key sel (word addr.data_bytes 0) (prefix_mask (bits_of addr.bitlen)) off' offmask)

  unfoldable pub parse_ip6_addr : Args → Sel → ℤ → Outcome
  parse_ip6_addr [] sel off = none
  parse_ip6_addr (a ∷ args) sel off = do
    addr ← get_prefix_1 inet_pton6 stale a af_inet6
    (off', offmask, rest) ← optional_at stale args off (pos 0)
    left_over rest (ip6_loop 4 0 addr.data_bytes (bits_of addr.bitlen) off' offmask sel)

  unfoldable pub parse_ether_addr : Args → Sel → ℤ → Outcome
  parse_ether_addr [] sel off = none
  parse_ether_addr (a ∷ args) sel off = do
    addr ← read_ether a
    (off', offmask, rest) ← optional_at stale args off (pos 0)
    left_over rest (ether_loop addr 0 off' offmask sel)

  unfoldable pub parse_ip : Args → Sel → Outcome
  parse_ip (a ∷ b ∷ args) sel =
      if is a (codes "src")
      then parse_ip_addr (b ∷ args) sel (pos 12)
      else if is a (codes "dst")
      then parse_ip_addr (b ∷ args) sel (pos 16)
      else if is a (codes "tos") || fits a (codes "dsfield") || fits a (codes "precedence")
      then parse_u8 stale (b ∷ args) sel (pos 1) (pos 0)
      else if is a (codes "ihl")
      then parse_u8 stale (b ∷ args) sel (pos 0) (pos 0)
      else if is a (codes "protocol")
      then parse_u8 stale (b ∷ args) sel (pos 9) (pos 0)
      else if is a (codes "nofrag")
      then left_over (b ∷ args) (pack_key16 sel 0 0x3fff (pos 6) (pos 0))
      else if is a (codes "firstfrag")
      then left_over (b ∷ args) (pack_key16 sel 0x2000 0x3fff (pos 6) (pos 0))
      else if is a (codes "df")
      then left_over (b ∷ args) (pack_key16 sel 0x4000 0x4000 (pos 6) (pos 0))
      else if is a (codes "mf")
      then left_over (b ∷ args) (pack_key16 sel 0x2000 0x2000 (pos 6) (pos 0))
      else if is a (codes "dport")
      then parse_u16 stale (b ∷ args) sel (pos 22) (pos 0)
      else if is a (codes "sport")
      then parse_u16 stale (b ∷ args) sel (pos 20) (pos 0)
      else if is a (codes "icmp_type")
      then parse_u8 stale (b ∷ args) sel (pos 20) (pos 0)
      else if is a (codes "icmp_code")
      then parse_u8 stale (b ∷ args) sel (pos 21) (pos 0)
      else none
  parse_ip args sel = none

  -- The code of ICMPv6 is packed with `offmask` 1.
  unfoldable pub parse_ip6 : Args → Sel → Outcome
  parse_ip6 (a ∷ b ∷ args) sel =
      if is a (codes "src")
      then parse_ip6_addr (b ∷ args) sel (pos 8)
      else if is a (codes "dst")
      then parse_ip6_addr (b ∷ args) sel (pos 24)
      else if is a (codes "priority")
      then parse_ip6_class stale (b ∷ args) sel
      else if is a (codes "protocol")
      then parse_u8 stale (b ∷ args) sel (pos 6) (pos 0)
      else if is a (codes "flowlabel")
      then parse_u32 stale (b ∷ args) sel (pos 0) (pos 0)
      else if is a (codes "dport")
      then parse_u16 stale (b ∷ args) sel (pos 42) (pos 0)
      else if is a (codes "sport")
      then parse_u16 stale (b ∷ args) sel (pos 40) (pos 0)
      else if is a (codes "icmp_type")
      then parse_u8 stale (b ∷ args) sel (pos 40) (pos 0)
      else if is a (codes "icmp_code")
      then parse_u8 stale (b ∷ args) sel (pos 41) (pos 1)
      else none
  parse_ip6 args sel = none

  unfoldable pub parse_ether : Args → Sel → Outcome
  parse_ether (a ∷ b ∷ args) sel =
      if is a (codes "src")
      then parse_ether_addr (b ∷ args) sel (negsuc 7)
      else if is a (codes "dst")
      then parse_ether_addr (b ∷ args) sel (negsuc 13)
      else none
  parse_ether args sel = none

  abbrev pub same_message : Msg → Outcome → Option (Sel × Msg × Args)
  same_message n none = none
  same_message n (some (sel, args)) = some (sel, n, args)

  abbrev pub same_selector : Sel → Option (Msg × Args) → Option (Sel × Msg × Args)
  same_selector sel none = none
  same_selector sel (some (n, args)) = some (sel, n, args)

  -- NEXT_ARG is in each case; `tcp` is read as `udp` is. The number is what stands in the last word
  -- of the attribute of a mark.
  unfoldable pub parse_selector : ℕ → Args → Sel → Msg → Option (Sel × Msg × Args)
  parse_selector success (a ∷ b ∷ args) sel n =
      if fits a (codes "u32")
      then same_message n (parse_u32 stale (b ∷ args) sel (pos 0) (pos 0))
      else if fits a (codes "u16")
      then same_message n (parse_u16 stale (b ∷ args) sel (pos 0) (pos 0))
      else if fits a (codes "u8")
      then same_message n (parse_u8 stale (b ∷ args) sel (pos 0) (pos 0))
      else if fits a (codes "ip")
      then same_message n (parse_ip (b ∷ args) sel)
      else if fits a (codes "ip6")
      then same_message n (parse_ip6 (b ∷ args) sel)
      else if fits a (codes "udp") || fits a (codes "tcp")
      then same_message n (parse_udp stale (b ∷ args) sel)
      else if fits a (codes "icmp")
      then same_message n (parse_icmp stale (b ∷ args) sel)
      else if fits a (codes "mark")
      then same_selector sel (parse_mark stale success (b ∷ args) n)
      else if fits a (codes "ether")
      then same_message n (parse_ether (b ∷ args) sel)
      else none
  parse_selector success args sel n = none

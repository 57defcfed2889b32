-- ===== src/Address/Text/Printer.antt =====
-- `rt_addr_n2a_r` of lib/utils.c and `ll_addr_n2a` of lib/ll_addr.c: the bytes of an address as text, by
-- the printers of each family. `inet_ntop` is a parameter, of a family, an address and the size of the
-- buffer; `none` is NULL. Of an address whose bytes end too early the missing ones are taken as 0, but the
-- bytes of a link layer end there; a buffer has a byte at least.
pub mod Laws
pub mod ReadBack
mod Runs
use libiproute.Prelude.{
  ℕ, zero, suc, ◌+◌, ◌-◌, ◌*◌, ◌/◌, ◌%◌, ◌^◌, Bool, ◌&&◌, ◌||◌, Option, none, some, List, [], ◌∷◌,
  ◌++◌, ◌==◌, if◌then◌else◌, Bytes, codes, take, drop, get_or, length,
}
use libiproute.CLib.{digit_char}
use libiproute.Mpls.{af_mpls, Ntop, text, too_big, past_end, mpls_ntop}
use libiproute.Dnet.{af_decnet, DnetText, terminated, unterminated, dnet_ntop}
use libiproute.Ipx.{IpxAddr, Printed, open_text, full, ipx_ntop}
use libiproute.Address.{af_inet, af_inet6, af_ipx, af_bridge, af_packet, word}

-- A text with its NUL, NULL, a text that fills the buffer without a NUL, or a read behind the address.
pub data AddrText : Type 0 where
  shown : Bytes → AddrText
  null : AddrText
  no_nul : Bytes → AddrText
  beyond : AddrText

abbrev from_ntop : Option Bytes → AddrText
from_ntop none = null
from_ntop (some s) = shown s

abbrev pub from_mpls : Option Ntop → AddrText
from_mpls none = null
from_mpls (some (text s)) = shown s
from_mpls (some too_big) = null
from_mpls (some past_end) = beyond

abbrev pub from_dnet : Option DnetText → AddrText
from_dnet none = null
from_dnet (some (terminated s)) = shown s
from_dnet (some (unterminated s)) = no_nul s

abbrev from_ipx : Option Printed → AddrText
from_ipx none = null
from_ipx (some (open_text s)) = shown s
from_ipx (some (full s)) = no_nul s

-- ARPHRD_TUNNEL, ARPHRD_SIT and ARPHRD_IPGRE; ARPHRD_TUNNEL6 and ARPHRD_IP6GRE.
abbrev tunnel4 : ℕ → Bool
tunnel4 type = type == 768 || type == 776 || type == 778

abbrev tunnel6 : ℕ → Bool
tunnel6 type = type == 769 || type == 823

abbrev pub arphrd_void : ℕ
arphrd_void = 0xffff

-- "%02x"
abbrev pub byte_text : ℕ → Bytes
byte_text b = digit_char (b / 16) ∷ digit_char (b % 16) ∷ []

-- The loop, with `room` for blen - l.
unfoldable pub colon_bytes : ℕ → Bytes → Bytes
colon_bytes room [] = []
colon_bytes room (b ∷ addr) =
    let rest = colon_bytes (room - 3) addr in
    if room == 0 then [] else take (room - 1) (b':' ∷ byte_text b) ++ rest

abbrev pub hex_bytes : ℕ → ℕ → Bytes → AddrText
hex_bytes blen alen [] = beyond
hex_bytes blen alen (b ∷ addr) =
    shown (take (blen - 1) (byte_text b) ++ colon_bytes (blen - 2) (take (alen - 1) addr))

-- The entries of a label stack, in network order.
unfoldable pub words : Bytes → List ℕ
words (a ∷ b ∷ c ∷ d ∷ s) = word (a ∷ b ∷ c ∷ d ∷ []) 0 ∷ words s
words s = []

abbrev ipx_addr : Bytes → IpxAddr
ipx_addr s = record { ipx_net = word s 0; ipx_node = take 6 (drop 4 s) }

-- The number that `dn_ntohs` makes of the two bytes.
abbrev pub dn_number : Bytes → ℕ
dn_number s = get_or s 0 0 + 2 ^ 8 * get_or s 1 0

module _ (inet_ntop : ℕ → Bytes → ℕ → Option Bytes) where
  unfoldable pub ll_addr_n2a : Bytes → ℕ → ℕ → ℕ → AddrText
  unfolding colon_bytes
  ll_addr_n2a addr alen type blen =
      if alen == 4 && tunnel4 type
      then from_ntop (inet_ntop af_inet addr blen)
      else if alen == 16 && tunnel6 type
      then from_ntop (inet_ntop af_inet6 addr blen)
      else hex_bytes blen alen addr

  -- The address in a `sockaddr`, by the family in its first two bytes.
  abbrev bridge_addr : Bytes → ℕ → AddrText
  bridge_addr sa buflen =
      let family = get_or sa 0 0 + 2 ^ 8 * get_or sa 1 0 in
      if family == af_inet
      then from_ntop (inet_ntop af_inet (take 4 (drop 4 sa)) buflen)
      else if family == af_inet6
      then from_ntop (inet_ntop af_inet6 (take 16 (drop 8 sa)) buflen)
      else shown (codes "???")

  unfoldable pub rt_addr_n2a_r : ℕ → ℕ → Bytes → ℕ → AddrText
  unfolding ll_addr_n2a words
  rt_addr_n2a_r af len addr buflen =
      if af == af_inet || af == af_inet6
      then from_ntop (inet_ntop af addr buflen)
      else if af == af_mpls
      then from_mpls (mpls_ntop af (words addr) buflen)
      else if af == af_ipx
      then from_ipx (ipx_ntop af (ipx_addr addr) buflen)
      else if af == af_decnet
      then from_dnet (dnet_ntop af (dn_number addr) buflen)
      else if af == af_packet
      then ll_addr_n2a addr len arphrd_void buflen
      else if af == af_bridge
      then bridge_addr addr buflen
      else shown (codes "???")

  unfoldable pub rt_addr_n2a : ℕ → ℕ → Bytes → AddrText
  unfolding rt_addr_n2a_r
  rt_addr_n2a af len addr = rt_addr_n2a_r af len addr 256

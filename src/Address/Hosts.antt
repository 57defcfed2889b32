-- ===== src/Address/Hosts.antt =====
-- `resolve_address` and `format_host_r` of lib/utils.c, built with RESOLVE_HOSTNAMES: the names of hosts
-- are kept in a table, those that have none, too. What `gethostbyaddr` answers for an address, its
-- length and its family is a parameter; `malloc` and `strdup` have memory.
pub mod Laws
mod Runs
use libiproute.Prelude.{
  ℕ, zero, suc, ◌+◌, ◌-◌, ◌*◌, ◌%◌, ◌^◌, Bool, true, false, ◌&&◌, ◌||◌, not, Option, none, some,
  List, [], ◌∷◌, ◌++◌, leb, ◌==◌, if◌then◌else◌, Bytes, bytes_eq, length, take, drop, get_or,
}
use libiproute.Address.{af_inet, af_inet6, af_byte_len, word}
use libiproute.Address.Text.Printer.{AddrText, shown, rt_addr_n2a_r}

-- struct namerec
pub record NameRec : Type 0 where
  pub name : Option Bytes
  pub family : ℕ
  pub data_bytes : Bytes

abbrev pub HostTable : Type 0
HostTable = ℕ → List NameRec

-- An address with its family; a mapped one becomes the IPv4 address inside.
abbrev pub Host : Type 0
Host = ℕ × Bytes

abbrev is_mapped : ℕ → Bytes → Bool
is_mapped af addr = af == af_inet6 && word addr 0 == 0 && word addr 1 == 0 && word addr 2 == 0xffff

abbrev pub unmapped : ℕ → ℕ → Bytes → Host
unmapped af len addr =
    if is_mapped af addr then (af_inet, take 4 (drop 12 addr)) else (af, take len addr)

-- The last four bytes as a number of the host, modulo NHASH.
abbrev pub host_slot : Bytes → ℕ
host_slot d =
    let i = length d - 4 in
    (get_or d i 0
      + 2 ^ 8 * get_or d (i + 1) 0
      + 2 ^ 16 * get_or d (i + 2) 0
      + 2 ^ 24 * get_or d (i + 3) 0)
    % 257

abbrev pub is_host : NameRec → Host → Bool
is_host n (af, d) = n.family == af && length n.data_bytes == length d && bytes_eq n.data_bytes d

-- The loop over a chain: the name that is kept for the host, if the host is there.
unfoldable pub find_host : List NameRec → Host → Option (Option Bytes)
find_host [] host = none
find_host (n ∷ chain) host = if is_host n host then some n.name else find_host chain host

-- The name, or the address where there is none.
abbrev pub name_or_text : HostTable × Option Bytes → AddrText → HostTable × AddrText
name_or_text (nht, none) t = (nht, t)
name_or_text (nht, some name) t = (nht, shown name)

abbrev pub put_first : HostTable → ℕ → NameRec → HostTable
put_first nht slot n i = if i == slot then n ∷ nht i else nht i

module _ (gethostbyaddr : Host → Option Bytes) where
  -- The table afterwards, and the name.
  unfoldable pub resolve_address : HostTable → ℕ → ℕ → Bytes → HostTable × Option Bytes
  unfolding find_host
  resolve_address nht af len addr =
      let host = unmapped af len addr in
      let slot = host_slot host.1 in
      elim (find_host (nht slot) host) [
        | some name ↦ (nht, name)
        | none ↦
            let name = gethostbyaddr host in
            (
              put_first nht slot (record { name = name; family = host.0; data_bytes = host.1 }),
              name,
            )
      ]

  module _ (inet_ntop : ℕ → Bytes → ℕ → Option Bytes) where
    -- `len` is 0 where the code takes the length from the family; `resolve_hosts` is a switch.
    unfoldable pub format_host_r : Bool → HostTable → ℕ → ℕ → Bytes → ℕ → HostTable × AddrText
    unfolding resolve_address
    format_host_r resolve_hosts nht af len addr buflen =
        let len' : ℕ = if len == 0 then af_byte_len af else len in
        let resolved = resolve_address nht af len' addr in
        if resolve_hosts && not (len' == 0)
        then name_or_text resolved (rt_addr_n2a_r inet_ntop af len' addr buflen)
        else (nht, rt_addr_n2a_r inet_ntop af (if resolve_hosts then len' else len) addr buflen)

    unfoldable pub format_host : Bool → HostTable → ℕ → ℕ → Bytes → HostTable × AddrText
    unfolding format_host_r
    format_host resolve_hosts nht af len addr = format_host_r resolve_hosts nht af len addr 256

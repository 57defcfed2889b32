-- ===== src/SsFilter.antt =====
-- The filters of misc/ss.c: the tree that the grammar of misc/ssfilter.y builds, and `run_ssfilter`,
-- which decides in the program whether a socket is shown. SsFilter.Compile has the code that the
-- kernel runs. What other programs and the system tell is the record `System`: the text at an
-- address, `fnmatch`, and the range of /proc/sys/net/ipv4/ip_local_port_range.
pub mod Compile
pub mod Code
pub mod Patch
pub mod Moves
pub mod Machine
pub mod Exits
pub mod Laws
pub mod Whole
mod Runs
use Prim.Native.Nat.{bit_and}
use libiproute.Prelude.{
  ℕ, zero, suc, ◌+◌, ◌*◌, ◌^◌, Bool, true, false, ◌&&◌, ◌||◌, not, Option, none, some, List, [],
  ◌∷◌, ◌++◌, ltb, leb, ◌==◌, if◌then◌else◌, Bytes, codes, drop, get_or, length,
}
use libiproute.Prelude.Int.{ℤ, pos, negsuc, eq_int, le_int, bits_of}
use libiproute.Address.{InetPrefix, word, af_inet, af_inet6, af_packet}
use libiproute.Address.Match.{inet_addr_match}

abbrev pub af_unix : ℕ
af_unix = 1

abbrev pub af_netlink : ℕ
af_netlink = 16

abbrev pub af_vsock : ℕ
af_vsock = 40

-- What a filter reads of a socket. A port is an `int`.
pub record SockStat : Type 0 where
  pub local : InetPrefix
  pub remote : InetPrefix
  pub lport : ℤ
  pub rport : ℤ
  pub iface : ℕ
  pub mark : ℕ

-- One condition; the list that `next` makes is in the filter.
pub record AaFilter : Type 0 where
  pub addr : InetPrefix
  pub port : ℤ
  pub iface : ℕ
  pub mark : ℕ
  pub mask : ℕ

-- SSF_S_AUTO, SSF_DCOND, …; `conj`, `disj` and `neg` are SSF_AND, SSF_OR and SSF_NOT. A host
-- condition has the first address and those behind it.
pub data Filter : Type 0 where
  s_auto : Filter
  d_cond : AaFilter → List AaFilter → Filter
  s_cond : AaFilter → List AaFilter → Filter
  d_ge : AaFilter → Filter
  d_le : AaFilter → Filter
  s_ge : AaFilter → Filter
  s_le : AaFilter → Filter
  dev_cond : AaFilter → Filter
  mark_mask : AaFilter → Filter
  conj : Filter → Filter → Filter
  disj : Filter → Filter → Filter
  neg : Filter → Filter

-- `fnmatch` is whether the pattern fits; `port_range` is `none` where the file cannot be read.
pub record System : Type 0 where
  pub text_at : ℕ → Bytes
  pub fnmatch : Bytes → Bytes → Bool
  pub port_range : Option (ℤ × ℤ)

abbrev within : ℤ × ℤ → ℤ → Bool
within (min, max) port = le_int min port && le_int port max

is_ephemeral : Option (ℤ × ℤ) → ℤ → Bool
is_ephemeral none port = within (pos 1024, pos 4999) port
is_ephemeral (some r) port = within r port

-- The first word of the address becomes its fourth.
abbrev mapped : Bytes → Bytes
mapped a = get_or a 12 0 ∷ get_or a 13 0 ∷ get_or a 14 0 ∷ get_or a 15 0 ∷ drop 4 a

unfoldable pub inet2_addr_match : InetPrefix → InetPrefix → ℕ → Bool
inet2_addr_match a p plen =
    if eq_int (inet_addr_match a.data_bytes p.data_bytes plen) (pos 0)
    then true
    else if p.family == af_inet
        && a.family == af_inet6
        && word a.data_bytes 0 == 0
        && word a.data_bytes 1 == 0
        && word a.data_bytes 2 == 0xffff
    then eq_int (inet_addr_match (mapped a.data_bytes) p.data_bytes plen) (pos 0)
    else false

-- The pointer in the first 8 bytes of the data.
abbrev pub pointer : Bytes → ℕ
pointer d =
    get_or d 0 0
    + 2 ^ 8 * get_or d 1 0
    + 2 ^ 16 * get_or d 2 0
    + 2 ^ 24 * get_or d 3 0
    + 2 ^ 32 * get_or d 4 0
    + 2 ^ 40 * get_or d 5 0
    + 2 ^ 48 * get_or d 6 0
    + 2 ^ 56 * get_or d 7 0

unfoldable pub unix_match : System → InetPrefix → InetPrefix → Bool
unix_match sys a p =
    if pointer p.data_bytes == 0
    then true
    else sys.fnmatch (sys.text_at (pointer p.data_bytes))
        (if pointer a.data_bytes == 0 then [] else sys.text_at (pointer a.data_bytes))

abbrev hex_digits : Bytes → Bool
hex_digits [] = true
hex_digits (c ∷ s) = ((leb b'0' c && leb c b'9') || (leb b'a' c && leb c b'f')) && hex_digits s

-- `p[0] == '@' && strlen(p) == 6 && strspn(p+1, "0123456789abcdef") == 5`
auto_name : Bytes → Bool
auto_name [] = false
auto_name (c ∷ s) = c == b'@' && length s == 5 && hex_digits s

-- SSF_S_AUTO.
auto_bound : System → SockStat → Bool
unfolding is_ephemeral auto_name
auto_bound sys s =
    let p = pointer s.local.data_bytes in
    if s.local.family == af_unix
    then p == 0 || auto_name (sys.text_at p)
    else if s.local.family == af_packet
    then eq_int s.lport (pos 0) && word s.local.data_bytes 0 == 0
    else if s.local.family == af_netlink
    then not (le_int (pos 0) s.lport)
    else if s.local.family == af_vsock
    then not (le_int s.lport (pos 1023))
    else is_ephemeral sys.port_range s.lport

-- The loop over the addresses.
any_addr : InetPrefix → List AaFilter → Bool
any_addr host [] = false
any_addr host (a ∷ rest) =
    (if inet2_addr_match host a.addr (bits_of a.addr.bitlen) then true else any_addr host rest)

-- SSF_DCOND and SSF_SCOND, on the remote and on the local address.
host_cond : System → InetPrefix → ℤ → AaFilter → List AaFilter → Bool
unfolding any_addr
host_cond sys host port a rest =
    if a.addr.family == af_unix
    then unix_match sys host a.addr
    else if not (eq_int a.port (negsuc 0)) && not (eq_int a.port port)
    then false
    else if not (eq_int a.addr.bitlen (pos 0))
    then any_addr host (a ∷ rest)
    else true

unfoldable pub run_ssfilter : System → SockStat → Filter → Bool
unfolding auto_bound host_cond
run_ssfilter sys s s_auto = auto_bound sys s
run_ssfilter sys s (d_cond a rest) = host_cond sys s.remote s.rport a rest
run_ssfilter sys s (s_cond a rest) = host_cond sys s.local s.lport a rest
run_ssfilter sys s (d_ge a) = le_int a.port s.rport
run_ssfilter sys s (d_le a) = le_int s.rport a.port
run_ssfilter sys s (s_ge a) = le_int a.port s.lport
run_ssfilter sys s (s_le a) = le_int s.lport a.port
run_ssfilter sys s (dev_cond a) = s.iface == a.iface
run_ssfilter sys s (mark_mask a) = bit_and s.mark a.mask == a.mark
run_ssfilter sys s (conj f g) = run_ssfilter sys s f && run_ssfilter sys s g
run_ssfilter sys s (disj f g) = run_ssfilter sys s f || run_ssfilter sys s g
run_ssfilter sys s (neg f) = not (run_ssfilter sys s f)

-- Opens this module for a run.
unfoldable pub run_filters : ℕ
unfolding run_ssfilter auto_bound host_cond any_addr is_ephemeral auto_name inet2_addr_match
    unix_match
run_filters = 0

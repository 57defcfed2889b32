-- ===== src/Address/Text/Exits.antt =====
-- `get_addr`, `get_prefix` and `get_addr32` of lib/utils.c, which end the program with a message where an
-- argument is no address: `none` is the exit with status 1.
use libiproute.Prelude.{
  ℕ, ◌+◌, ◌*◌, ◌^◌, get_or, Bool, Option, none, some, ◌>>=◌, ◌==◌, if◌then◌else◌, Bytes,
}
use libiproute.Address.{InetPrefix, af_inet, af_packet}
use libiproute.Address.Text.{get_addr_1, get_prefix_1}

module _ (inet_pton6 : Bytes → Option Bytes) where
  unfoldable pub get_addr : Bytes → ℕ → Option InetPrefix
  get_addr arg family = get_addr_1 inet_pton6 arg family

  -- `stale` is the state of `errno`.
  unfoldable pub get_prefix : Bool → Bytes → ℕ → Option InetPrefix
  get_prefix stale arg family =
      if family == af_packet then none else get_prefix_1 inet_pton6 stale arg family

  -- `addr.data[0]`, a number of the host.
  unfoldable pub get_addr32 : Bytes → Option ℕ
  get_addr32 name = do
    addr ← get_addr_1 inet_pton6 name af_inet
    let d = addr.data_bytes
    some (get_or d 0 0 + 2 ^ 8 * get_or d 1 0 + 2 ^ 16 * get_or d 2 0 + 2 ^ 24 * get_or d 3 0)

-- ===== src/Parts.antt =====
-- Addresses that are numbers with separators, in lib/utils.c: `get_addr_ipv4` (which also reads
-- `10.8` as 10.8.0.0), `get_addr64` and `addr64_n2a`.
pub mod Guid
pub mod Laws
mod Runs
use libiproute.Prelude.{
  ℕ, zero, suc, ◌+◌, Bool, ◌||◌, not, Option, none, some, List, [], ◌∷◌, ◌++◌, ltb, ◌==◌,
  if◌then◌else◌, Bytes,
}
use libiproute.CLib.{Parsed, strtoul, print_num}

abbrev before : ℕ → Option (List ℕ) → Option (List ℕ)
before n none = none
before n (some ns) = some (n ∷ ns)

-- The loop that the two parsers share, over the rounds that `i` has left: a number of at most
-- `limit`, then the end or, before the last round, the separator.
module _ (sep base limit : ℕ) where
  parts_loop : ℕ → Bytes → Option (List ℕ)
  parts_loop zero cp = none
  parts_loop (suc rounds) cp = elim (strtoul base cp) [
    | none ↦ none
    | some p ↦
        let more = λ (cp' : Bytes). before p.value (parts_loop rounds cp') in
        if ltb limit p.value then none else (elim p.rest [
          | [] ↦ some (p.value ∷ [])
          | c ∷ cp' ↦ if rounds == 0 || not (c == sep) then none else more cp'
        ])
  ]

-- The bytes that are stored from `ap[0]` on; the caller has cleared those behind them.
unfoldable pub get_addr_ipv4 : Bytes → Option (List ℕ)
unfolding parts_loop
get_addr_ipv4 cp = parts_loop b'.' 0 255 4 cp

-- The 16-bit words that are stored; those behind them are left as they were, and `val` is not
-- initialised.
unfoldable pub get_addr64 : Bytes → Option (List ℕ)
unfolding parts_loop
get_addr64 cp = parts_loop b':' 16 0xffff 4 cp

-- The words of `addr` in the order of their bytes, the separator behind each but the last.
pub addr64_n2a : List ℕ → Bytes
addr64_n2a [] = []
addr64_n2a (v ∷ []) = print_num 16 v
addr64_n2a (v ∷ w ∷ ws) = print_num 16 v ++ b':' ∷ addr64_n2a (w ∷ ws)

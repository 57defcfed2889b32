-- ===== src/Netlink/Parse.antt =====
-- Parsing a stream of attributes: `parse_rtattr`, `parse_rtattr_flags`, `parse_rtattr_byindex`,
-- `parse_rtattr_one` and `__parse_rtattr_nested_compat`.
pub mod Laws
pub mod Stream
mod Runs
use Prim.Native.Nat.{bit_and}
use libiproute.Prelude.{
  ℕ, zero, suc, ◌+◌, ◌-◌, ◌*◌, ◌/◌, ◌%◌, ◌^◌, Bool, true, false, not, ◌&&◌, Option, none, some,
  List, [], ◌∷◌, ltb, leb, ◌==◌, if◌then◌else◌, length,
}
use libiproute.Netlink.Memory.{Memory, align4, rta_len, rta_type, get16, store}

-- RTA_OK(rta, len)
unfoldable pub rta_ok : Memory → ℕ → ℕ → Bool
rta_ok mem rta len = leb 4 len && leb 4 (rta_len mem rta) && leb (rta_len mem rta) len

-- The attributes that `while (RTA_OK(rta, len)) { …; rta = RTA_NEXT(rta, len); }` visits, and
-- whether `len` is not 0 behind the loop. An attribute whose padding would stand behind the end
-- makes `len` negative, which ends the loop. The bodies change neither `rta` nor `len`.
pub record Walk : Type 0 where
  pub visited : List ℕ
  pub deficit : Bool

abbrev pub visit : ℕ → Walk → Walk
visit rta w = record { visited = rta ∷ w.visited; deficit = w.deficit }

walk_fuel : ℕ → Memory → ℕ → ℕ → Walk
walk_fuel zero mem rta len = record { visited = []; deficit = not (len == 0) }
walk_fuel (suc fuel) mem rta len =
    let size = align4 (rta_len mem rta) in
    let rest = walk_fuel fuel mem (rta + size) (len - size) in
    if rta_ok mem rta len
    then (if leb size len then visit rta rest else record { visited = rta ∷ []; deficit = true })
    else record { visited = []; deficit = not (len == 0) }

-- Each round takes a byte at least.
unfoldable pub walk : Memory → ℕ → ℕ → Walk
unfolding walk_fuel
walk mem rta len = walk_fuel len mem rta len

-- `tb` by its index; NULL is `none`.
abbrev pub Table : Type 0
Table = ℕ → Option ℕ

abbrev pub empty : Table
empty t = none

-- `if ((type <= max) && (!tb[type])) tb[type] = rta;`
abbrev pub enter : ℕ → ℕ → ℕ → Table → Table
enter max type rta tb t = elim (tb t) [
  | none ↦ if leb type max && type == t then some rta else none
  | some o ↦ some o
]

unfoldable pub fill : Memory → ℕ → ℕ → List ℕ → Table → Table
fill mem max flags [] tb = tb
fill mem max flags (rta ∷ rest) tb =
    fill mem max flags rest (enter max (bit_and (rta_type mem rta) (0xffff - flags)) rta tb)

-- The table, and whether a deficit is reported.
unfoldable pub parse_rtattr_flags : Memory → ℕ → ℕ → ℕ → ℕ → Table × Bool
parse_rtattr_flags mem max rta len flags =
    let w = walk mem rta len in (fill mem max flags w.visited empty, w.deficit)

unfoldable pub parse_rtattr : Memory → ℕ → ℕ → ℕ → Table × Bool
parse_rtattr mem max rta len = parse_rtattr_flags mem max rta len 0

-- The entries `tb[0]` to `tb[i - 1]`; the first number is `max - i`.
unfoldable pub collect : Memory → ℕ → ℕ → List ℕ → List ℕ
collect mem max room [] = []
collect mem max zero (rta ∷ rest) = []
collect mem max (suc room) (rta ∷ rest) =
    let taken = collect mem max room rest in
    let skipped = collect mem max (suc room) rest in
    if leb (rta_type mem rta) max then rta ∷ taken else skipped

unfoldable pub parse_rtattr_byindex : Memory → ℕ → ℕ → ℕ → List ℕ × Bool
parse_rtattr_byindex mem max rta len =
    let w = walk mem rta len in (collect mem max max w.visited, w.deficit)

unfoldable pub find_type : Memory → ℕ → List ℕ → Option ℕ
find_type mem type [] = none
find_type mem type (rta ∷ rest) =
    if rta_type mem rta == type then some rta else find_type mem type rest

unfoldable pub parse_rtattr_one : Memory → ℕ → ℕ → ℕ → Option ℕ
parse_rtattr_one mem type rta len = find_type mem type (walk mem rta len).visited

-- `none` is -1. A payload of `len` bytes and no room for an attribute behind it: no table.
unfoldable pub parse_rtattr_nested_compat : Memory → ℕ → ℕ → ℕ → Option Table
parse_rtattr_nested_compat mem max rta len =
    if ltb (rta_len mem rta) (4 + len)
    then none
    else if leb (4 + align4 len + 4) (rta_len mem rta)
    then some
        (parse_rtattr mem max (rta + 4 + align4 len + 4) (rta_len mem (rta + 4 + align4 len) - 4)).0
    else some empty

-- For the runs.
unfoldable pub run_parse : ℕ
unfolding walk walk_fuel rta_ok fill parse_rtattr_flags parse_rtattr collect parse_rtattr_byindex
    find_type parse_rtattr_one parse_rtattr_nested_compat rta_len rta_type get16 store
run_parse = 0

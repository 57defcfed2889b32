-- ===== src/TcSize.antt =====
-- Sizes on the link layer, in tc/tc_core.c: `tc_align_to_atm`, `tc_adjust_size`, the table of
-- `tc_calc_rtable` and `tc_calc_size_table`. `unsigned` has 32 bits, and products wrap.
pub mod Laws
mod Runs
use libiproute.Prelude.{
  ℕ, zero, suc, ◌+◌, ◌-◌, ◌*◌, ◌/◌, ◌%◌, ◌^◌, Bool, true, false, not, ◌&&◌, Option, none, some,
  List, [], ◌∷◌, leb, ltb, ◌==◌, if◌then◌else◌,
}
use libiproute.Prelude.Int.{ℤ, pos, negsuc}

abbrev pub linklayer_ethernet : ℕ
linklayer_ethernet = 1

abbrev pub linklayer_atm : ℕ
linklayer_atm = 2

-- ATM cells of 53 bytes with 48 bytes of payload.
unfoldable pub tc_align_to_atm : ℕ → ℕ
tc_align_to_atm size =
    let cells = size / 48 in (if ltb 0 (size % 48) then cells + 1 else cells) * 53 % 2 ^ 32

unfoldable pub tc_adjust_size : ℕ → ℕ → ℕ → ℕ
tc_adjust_size sz mpu linklayer =
    let sz' = if ltb sz mpu then mpu else sz in
    if linklayer == linklayer_atm then tc_align_to_atm sz' else sz'

-- `(i + 1) << cell_log`, adjusted.
abbrev pub cell_size : ℕ → ℕ → ℕ → ℕ → ℕ
cell_size cell_log mpu linklayer i = tc_adjust_size ((i + 1) * 2 ^ cell_log % 2 ^ 32) mpu linklayer

-- `while ((mtu >> cell_log) > limit) cell_log++;` from `cell_log` on.
unfoldable pub log_loop : ℕ → ℕ → ℕ → ℕ → ℕ
log_loop zero mtu limit cell_log = cell_log
log_loop (suc rounds) mtu limit cell_log =
    let more = log_loop rounds mtu limit (cell_log + 1) in
    if ltb limit (mtu / 2 ^ cell_log) then more else cell_log

-- 32 shifts clear 32 bits.
abbrev pub find_log : ℕ → ℕ → ℕ
find_log mtu limit = log_loop 32 mtu limit 0

-- `struct tc_sizespec`
pub record SizeSpec : Type 0 where
  pub cell_log : ℕ
  pub size_log : ℕ
  pub cell_align : ℤ
  pub overhead : ℤ
  pub linklayer : ℕ
  pub mpu : ℕ
  pub mtu : ℕ
  pub tsize : ℕ

-- `int i = tsize - 1`: how many entries the loop comes to; from 2^31 on, `i` is negative at once.
unfoldable pub rounds_from : ℕ → ℕ
rounds_from tsize = let i = tsize - 1 in if leb (2 ^ 31) i then 0 else i + 1

-- The loop over `i` down, with `i + 1` rounds left: the entries behind `i` are there. `none`: an entry
-- does not fit 16 bits. The sum `i + 1` wraps at 32 bits.
unfoldable pub fill_down : SizeSpec → ℕ → List ℕ → Option (List ℕ)
fill_down s zero done = some done
fill_down s (suc i) done =
    let v = cell_size s.cell_log s.mpu s.linklayer i / 2 ^ s.size_log in
    let rest = fill_down s i (v ∷ done) in if ltb 0xffff v then none else rest

-- The results of `tc_calc_size_table`: the entries of a table are those that are written, from the
-- first on; `endless` is no result of the code.
pub data SizeTable : Type 0 where
  no_table no_memory endless : SizeSpec → SizeTable
  table : SizeSpec → List ℕ → SizeTable

-- The table if it is filled, and else `next`.
abbrev pub table_or : SizeSpec → SizeTable → Option (List ℕ) → SizeTable
table_or s next (some entries) = table (record s { cell_align = negsuc 0 }) entries
table_or s next none = next

-- From the label `again` on. `size_log` has 8 bits.
unfoldable pub again : ℕ → SizeSpec → SizeTable
unfolding rounds_from
again zero s = endless s
again (suc rounds) s =
    table_or s (again rounds (record s { size_log = (s.size_log + 1) % 256 }))
      (fill_down s (rounds_from s.tsize) [])

-- `mtu` and `tsize` with their defaults, and the least `cell_log` for them.
abbrev pub with_defaults : SizeSpec → SizeSpec
with_defaults s =
    let mtu' = if s.mtu == 0 then 2047 else s.mtu in
    let tsize' = if s.tsize == 0 then 512 else s.tsize in
    record s { mtu = mtu'; tsize = tsize'; cell_log = find_log mtu' (tsize' - 1) }

-- `has_memory`: `malloc` succeeds. 32-bit sizes need 16 rounds at most.
unfoldable pub tc_calc_size_table : Bool → SizeSpec → SizeTable
tc_calc_size_table has_memory s =
    if leb s.linklayer linklayer_ethernet && s.mpu == 0
    then no_table (record s { mtu = 0; tsize = 0; cell_log = 0; cell_align = pos 0 })
    else if has_memory
    then again 17 (with_defaults s)
    else no_memory (with_defaults s)

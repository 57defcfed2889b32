-- ===== src/TcHandle.antt =====
-- Handles of queueing disciplines and classes, in tc/tc_util.c: `get_qdisc_handle`,
-- `get_tc_classid` and `print_tc_classid`. A handle has 32 bits, 16 of each number.
pub mod Laws
mod Runs
use Prim.Native.Nat.{bit_and, bit_or}
use libiproute.Prelude.{
  ℕ, zero, suc, ◌+◌, ◌-◌, ◌*◌, ◌/◌, ◌%◌, ◌^◌, Bool, true, false, ◌&&◌, ◌||◌, not, Option, none,
  some, List, [], ◌∷◌, ◌++◌, leb, ◌==◌, if◌then◌else◌, Bytes, codes, bytes_eq, take,
}
use libiproute.CLib.{Parsed, strtoul, print_num}

-- TC_H_ROOT and TC_H_UNSPEC
abbrev pub tc_h_root : ℕ
tc_h_root = 0xffff_ffff

abbrev pub tc_h_unspec : ℕ
tc_h_unspec = 0

-- TC_H_MAJ(h) and TC_H_MIN(h)
abbrev pub tc_h_maj : ℕ → ℕ
tc_h_maj h = bit_and h 0xffff_0000

abbrev pub tc_h_min : ℕ → ℕ
tc_h_min h = bit_and h 0xffff

-- `*p == ':'` or, for `end`, `*p == 0`.
abbrev colon_or_end : Bytes → Bool
colon_or_end [] = true
colon_or_end (c ∷ s) = c == b':'

-- The number that `strtoul` yields is stored in 32 bits. `none` is -1.
unfoldable pub get_qdisc_handle : Bytes → Option ℕ
get_qdisc_handle str =
    if bytes_eq str (codes "none") then some tc_h_unspec else (elim (strtoul 16 str) [
      | none ↦ none
      | some p ↦
          let maj = p.value % 2 ^ 32 in
          if leb (2 ^ 16) maj || not (colon_or_end p.rest) then none else some (maj * 2 ^ 16)
    ])

-- What follows the colon: no digits at all stand for 0.
abbrev pub minor : ℕ → Bytes → Option ℕ
minor maj str = elim (strtoul 16 str) [
  | none ↦ elim str [ [] ↦ some (maj * 2 ^ 16) | c ∷ s ↦ none ]
  | some p ↦ elim p.rest [
    | [] ↦
        let min = p.value % 2 ^ 32 in
        if leb (2 ^ 16) min then none else some (bit_or (maj * 2 ^ 16) min)
    | c ∷ s ↦ none
  ]
]

-- What follows the first number.
abbrev pub major : ℕ → Bytes → Option ℕ
major maj [] = some maj
major maj (c ∷ s) = if c == b':' then (if leb (2 ^ 16) maj then none else minor maj s) else none

abbrev colon_first : Bytes → Option ℕ
colon_first [] = none
colon_first (c ∷ s) = if c == b':' then major 0 (c ∷ s) else none

unfoldable pub get_tc_classid : Bytes → Option ℕ
get_tc_classid str =
    if bytes_eq str (codes "root")
    then some tc_h_root
    else if bytes_eq str (codes "none")
    then some tc_h_unspec
    else (elim (strtoul 16 str) [
      | none ↦ colon_first str
      | some p ↦ major (p.value % 2 ^ 32) p.rest
    ])

unfoldable pub handle_text : ℕ → Bytes
handle_text h =
    if h == tc_h_root
    then codes "root"
    else if h == tc_h_unspec
    then codes "none"
    else if tc_h_maj h == 0
    then b':' ∷ print_num 16 (tc_h_min h)
    else if tc_h_min h == 0
    then print_num 16 (tc_h_maj h / 2 ^ 16) ++ b':' ∷ []
    else print_num 16 (tc_h_maj h / 2 ^ 16) ++ b':' ∷ print_num 16 (tc_h_min h)

-- The text in `buf`, cut to `blen - 1` bytes; `name` is what `id_to_name` finds, if names are used.
unfoldable pub print_tc_classid : ℕ → Option Bytes → ℕ → Bytes
print_tc_classid blen none h = take (blen - 1) (handle_text h)
print_tc_classid blen (some clname) h = take (blen - 1) (clname ++ b'#' ∷ handle_text h)

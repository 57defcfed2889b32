-- ===== src/Dnet.antt =====
-- DECnet addresses as text: lib/dnet_pton.c and lib/dnet_ntop.c. An address is the 16-bit word
-- `area << 10 | node`; its two bytes in memory are little-endian, which `dn_htons` and `dn_ntohs`
-- keep, so that a word stands for them here.
pub mod Print
pub mod Laws
pub mod Wrap
mod Runs
use Prim.Native.Nat.{bit_and, bit_or}
use libiproute.Prelude.{
  ℕ, zero, suc, ◌+◌, ◌-◌, ◌*◌, ◌/◌, ◌%◌, ◌^◌, Bool, true, false, ◌||◌, not, Option, none, some, [],
  ◌∷◌, ◌++◌, ltb, ◌==◌, if◌then◌else◌, Bytes, length, drop,
}
use libiproute.Mpls.{Pton, done, invalid, unsupported}

abbrev pub af_decnet : ℕ
af_decnet = 12

-- The count of digits and the `u_int16_t` that they spell, which wraps.
pub num_loop : Bytes → ℕ → ℕ → ℕ × ℕ
num_loop [] rv dst = (rv, dst)
num_loop (c ∷ src) rv dst =
    let more = num_loop src (rv + 1) ((dst * 10 % 2 ^ 16 + (c - b'0')) % 2 ^ 16) in
    if ltb c b'0' || ltb b'9' c then (rv, dst) else more

pub dnet_num : Bytes → ℕ × ℕ
dnet_num src = num_loop src 0 0

-- `*(src + pos) != '.'`
abbrev no_dot : Bytes → Bool
no_dot [] = true
no_dot (c ∷ s) = not (c == b'.')

pub dnet_pton1 : Bytes → Option ℕ
dnet_pton1 src =
    let (pos, area) = dnet_num src in
    if pos == 0 || ltb 63 area || no_dot (drop pos src)
    then none
    else (let (pos', node) = dnet_num (drop (pos + 1) src) in
        if pos' == 0 || ltb 1023 node then none else some (bit_or (area * 2 ^ 10) node))

unfoldable pub dnet_pton : ℕ → Bytes → Pton ℕ
dnet_pton af src =
    if af == af_decnet
    then elim (dnet_pton1 src) [ none ↦ invalid | some addr ↦ done addr ]
    else unsupported

-- The variables of `dnet_ntop1`: the bytes written, the rest of the number, and `started`.
-- `full` is the result 1 of `do_digit`: the buffer ended.
pub record Digits : Type 0 where
  pub str : Bytes
  pub addr : ℕ
  pub started : Bool
  pub full : Bool

do_digit : ℕ → ℕ → Digits → Digits
do_digit len scale d =
    let tmp = d.addr / scale in
    if length d.str == len
    then record d { full = true }
    else if ltb 0 tmp || d.started || scale == 1
    then (record d {
      str = d.str ++ (tmp + b'0') ∷ [];
      addr = d.addr - tmp * scale;
      started = true;
    })
    else d

-- `if (do_digit(…)) return str;`
abbrev then_digit : ℕ → ℕ → Digits → Digits
then_digit len scale d = if d.full then d else do_digit len scale d

-- The text and whether the NUL behind it was written, which it is not where the buffer ends.
pub data DnetText : Type 0 where
  terminated unterminated : Bytes → DnetText

finish : ℕ → Digits → DnetText
finish len d = if d.full || length d.str == len then unterminated d.str else terminated d.str

print_area : ℕ → ℕ → Digits
unfolding do_digit
print_area len area =
    then_digit len 1
      (do_digit len 10 (record { str = []; addr = area; started = false; full = false }))

print_node : ℕ → Bytes → ℕ → Digits
unfolding do_digit
print_node len str addr = then_digit len 1 (
    then_digit len 10 (
      then_digit len 100
        (do_digit len 1000 (record { str = str; addr = addr; started = false; full = false }))))

dnet_ntop1 : ℕ → ℕ → DnetText
dnet_ntop1 addr len =
    let area = print_area len (addr / 2 ^ 10) in
    if len == 0
    then unterminated []
    else if area.full || length area.str == len
    then unterminated area.str
    else finish len (print_node len (area.str ++ b'.' ∷ []) (bit_and addr 0x3ff))

unfoldable pub dnet_ntop : ℕ → ℕ → ℕ → Option DnetText
unfolding dnet_ntop1 print_area print_node finish
dnet_ntop af addr len = if af == af_decnet then some (dnet_ntop1 addr len) else none

-- Opens this module for a run.
unfoldable pub run_dnet : ℕ
unfolding dnet_pton dnet_pton1 dnet_num num_loop dnet_ntop
run_dnet = 0

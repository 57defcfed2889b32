-- ===== src/U32/Handle.antt =====
-- The handles of u32 filters in tc/f_u32.c, `get_u32_handle` and `sprint_u32_handle`: 12 bits for the
-- hash table, 8 for the bucket and 12 for the node, in hexadecimal with colons. The buffer of
-- `sprint_u32_handle` has room for all of them.
pub mod Laws
use Prim.Native.Nat.{bit_and, bit_or}
use libiproute.Prelude.{
  ℕ, zero, suc, ◌+◌, ◌-◌, ◌*◌, ◌/◌, ◌%◌, ◌^◌, Bool, true, false, ◌&&◌, ◌||◌, not, Option, none,
  some, List, [], ◌∷◌, ◌++◌, leb, ◌==◌, if◌then◌else◌, Bytes, codes, bytes_eq, take, length,
  replicate,
}
use libiproute.CLib.{Parsed, strtoul, print_num}
use libiproute.Numbers.{get_u32}

unfoldable pub has_colon : Bytes → Bool
has_colon [] = false
has_colon (c ∷ s) = c == b':' || has_colon s

-- What `strtoul(str, &tmp, 16)` stores in 32 bits, `tmp`, and whether it moved.
unfoldable pub hex_number : Bytes → ℕ × Bytes × Bool
hex_number str = elim (strtoul 16 str) [
  | none ↦ (0, str, false)
  | some p ↦ (p.value % 2 ^ 32, p.rest, true)
]

-- `tmp == str && *str != ':' && *str != 0`, where `tmp` did not move.
abbrev pub no_number : Bytes → Bool
no_number [] = false
no_number (c ∷ s) = not (c == b':')

-- (htid << 20) | (hash << 12) | nodeid
abbrev pub joined : ℕ → ℕ → ℕ → ℕ
joined htid hash nodeid = bit_or (bit_or (htid * 2 ^ 20) (hash * 2 ^ 12)) nodeid

-- What follows the second number; the character behind it is not looked at, and neither is what
-- stands behind the third.
unfoldable pub node_part : ℕ → ℕ → Bytes → Option ℕ
unfolding hex_number
node_part htid hash [] = some (joined htid hash 0)
node_part htid hash (c ∷ str) =
    let (nodeid, tmp, moved) = hex_number str in
    if not moved && not (length str == 0)
    then none
    else if leb 0x1000 nodeid
    then none
    else some (joined htid hash nodeid)

unfoldable pub hash_part : ℕ → Bytes → Option ℕ
unfolding hex_number node_part
hash_part htid [] = some (joined htid 0 0)
hash_part htid (c ∷ str) =
    let (hash, tmp, moved) = hex_number str in
    if not moved && no_number str
    then none
    else if leb 0x100 hash
    then none
    else node_part htid hash tmp

-- All of a text with a colon.
unfoldable pub table_part : Bytes → Option ℕ
unfolding hex_number hash_part
table_part str =
    let (htid, tmp, moved) = hex_number str in
    if not moved && no_number str
    then none
    else if leb 0x1000 htid
    then none
    else hash_part htid tmp

-- `none` is -1.
unfoldable pub get_u32_handle : Bool → Bytes → Option ℕ
unfolding has_colon table_part
get_u32_handle stale str =
    if has_colon str
    then table_part str
    else if bytes_eq (take 2 str) (codes "0x")
    then get_u32 stale (some str) 16
    else none

-- TC_U32_HTID(h), TC_U32_HASH(h) and TC_U32_NODE(h)
abbrev pub tc_u32_htid : ℕ → ℕ
tc_u32_htid h = bit_and h 0xfff0_0000

abbrev pub tc_u32_hash : ℕ → ℕ
tc_u32_hash h = bit_and (h / 2 ^ 12) 0xff

abbrev pub tc_u32_node : ℕ → ℕ
tc_u32_node h = bit_and h 0xfff

-- "%08x"
abbrev eight_digits : ℕ → Bytes
eight_digits h = replicate (8 - length (print_num 16 h)) b'0' ++ print_num 16 h

-- `raw` is `show_raw`.
unfoldable pub sprint_u32_handle : Bool → ℕ → Bytes
sprint_u32_handle raw h =
    let htid = tc_u32_htid h in
    let hash = tc_u32_hash h in
    let nodeid = tc_u32_node h in
    if h == 0
    then codes "none"
    else (if htid == 0 then [] else print_num 16 (htid / 2 ^ 20) ++ b':' ∷ [])
      ++ ((if hash == 0 then [] else print_num 16 hash)
          ++ ((if nodeid == 0 then [] else b':' ∷ print_num 16 nodeid)
              ++ (if raw then b'[' ∷ (eight_digits h ++ codes "] ") else [])))

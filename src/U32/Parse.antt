-- ===== src/U32/Parse.antt =====
-- The selectors of tc/f_u32.c as arguments: `parse_u32` to `parse_selector`, `parse_offset` and
-- `parse_hashkey`. The arguments are a list; the result is what is left of them. `none`: -1, or the
-- program ends for lack of arguments (NEXT_ARG). IPv6 and link-layer addresses go to other code, by
-- parameters, and so does `sscanf` for an Ethernet address; `stale` is `errno` at each number.
pub mod Laws
use Prim.Native.Nat.{bit_and, bit_or}
use libiproute.Prelude.{
  ℕ, zero, suc, ◌+◌, ◌-◌, ◌*◌, ◌/◌, ◌%◌, ◌^◌, Bool, true, false, ◌&&◌, ◌||◌, not, Option, none,
  some, List, [], ◌∷◌, ◌++◌, ltb, leb, ◌==◌, if◌then◌else◌, ◌>>=◌, Bytes, codes, bytes_eq, length,
  take, drop,
}
use libiproute.Prelude.Int.{ℤ, pos, negsuc, eq_int, wrapped, int16, add_ℕ}
use libiproute.Numbers.{get_u32, get_integer, get_be16, get_be32}
use libiproute.Strings.{matches}
use libiproute.Address.{af_inet, af_inet6, word}
use libiproute.Address.Text.{get_prefix_1}
use libiproute.Netlink.Build.{Msg, addattr_l, le32}
use libiproute.U32.{Key, Sel, pack_key, pack_key32, pack_key16, pack_key8, low_two}

abbrev pub Args : Type 0
Args = List Bytes

-- The selector and the arguments behind it.
abbrev pub Outcome : Type 0
Outcome = Option (Sel × Args)

abbrev pub left_over : Args → Option Sel → Outcome
left_over args none = none
left_over args (some sel) = some (sel, args)

-- `if (bad) return -1;`
abbrev pub refuse_if {ℓ} : {A : Type ℓ} → Bool → Option A → Option A
refuse_if bad rest = if bad then none else rest

-- `strcmp(arg, word) == 0` and `matches(arg, word) == 0`
abbrev pub is : Bytes → Bytes → Bool
is arg word = bytes_eq arg word

abbrev pub fits : Bytes → Bytes → Bool
fits arg word = eq_int (matches arg word) (pos 0)

abbrev nexthdr : Bytes
nexthdr = codes "nexthdr+"

-- 0xFFFFFFFF << (32 - bits), in 32 bits, for 1 to 32 bits, and 0 for none.
abbrev pub prefix_mask : ℕ → ℕ
prefix_mask zero = 0
prefix_mask (suc n) = (2 ^ 32 - 1) * 2 ^ (31 - n) % 2 ^ 32

-- The words of an IPv6 address from number `i` on; there are no more than four.
unfoldable pub ip6_loop : ℕ → ℕ → Bytes → ℕ → ℤ → ℤ → Sel → Option Sel
ip6_loop zero i address plen off offmask sel = some sel
ip6_loop (suc rounds) i address plen off offmask sel =
    let mask : ℕ = if ltb (32 * i + 31) plen then 0xffff_ffff else prefix_mask (plen - 32 * i) in
    let rest : Option Sel = do
      sel' ← pack_key sel (word address i) mask (add_ℕ off (4 * i)) offmask
      ip6_loop rounds (i + 1) address plen off offmask sel'
    in if ltb (32 * i) plen then rest else some sel

abbrev with_flags : ℕ → Sel → Sel
with_flags flags sel = record sel { flags = bit_or sel.flags flags }

abbrev odd : ℤ → Bool
odd z = low_two z % 2 == 1

module _ (stale : Bool) where
  -- The offset, `offmask` and the arguments behind them.
  unfoldable pub parse_at : Args → ℤ → Option (ℤ × ℤ × Args)
  parse_at [] offmask = none
  parse_at (p ∷ args) offmask =
      if ltb (length nexthdr) (length p) && bytes_eq (take (length nexthdr) p) nexthdr
      then (do
        off ← get_integer stale (some (drop (length nexthdr) p)) 0
        some (off, negsuc 0, args))
      else if fits p nexthdr
      then (elim args [
        | [] ↦ none
        | q ∷ args' ↦ do off ← get_integer stale (some q) 0; some (off, negsuc 0, args')
      ])
      else (do off ← get_integer stale (some p) 0; some (off, offmask, args))

  -- `if (argc > 0 && strcmp(argv[0], "at") == 0) { NEXT_ARG(); if (parse_at(…)) return -1; }`
  unfoldable pub optional_at : Args → ℤ → ℤ → Option (ℤ × ℤ × Args)
  unfolding parse_at
  optional_at [] off offmask = some (off, offmask, [])
  optional_at (a ∷ args) off offmask =
      if is a (codes "at") then parse_at args offmask else some (off, offmask, a ∷ args)

  -- The two numbers in front.
  abbrev key_and_mask : Args → Option (ℕ × ℕ × Args)
  key_and_mask (k ∷ m ∷ args) = do
    key ← get_u32 stale (some k) 0
    mask ← get_u32 stale (some m) 16
    some (key, mask, args)
  key_and_mask args = none

  unfoldable pub parse_u32 : Args → Sel → ℤ → ℤ → Outcome
  parse_u32 args sel off offmask = do
    (key, mask, rest) ← key_and_mask args
    (off', offmask', rest') ← optional_at rest off offmask
    left_over rest' (pack_key32 sel key mask off' offmask')

  unfoldable pub parse_u16 : Args → Sel → ℤ → ℤ → Outcome
  parse_u16 args sel off offmask = do
    (key, mask, rest) ← key_and_mask args
    (off', offmask', rest') ← optional_at rest off offmask
    left_over rest' (pack_key16 sel key mask off' offmask')

  unfoldable pub parse_u8 : Args → Sel → ℤ → ℤ → Outcome
  parse_u8 args sel off offmask = do
    (key, mask, rest) ← key_and_mask args
    refuse_if (ltb 0xff key || ltb 0xff mask) do
      (off', offmask', rest') ← optional_at rest off offmask
      left_over rest' (pack_key8 sel key mask off' offmask')

  -- The flow class, in the bits 20 to 27 of the first word.
  unfoldable pub parse_ip6_class : Args → Sel → Outcome
  parse_ip6_class args sel = do
    (key, mask, rest) ← key_and_mask args
    refuse_if (ltb 0xff key || ltb 0xff mask)
        (left_over rest (pack_key sel (key * 2 ^ 20) (mask * 2 ^ 20) (pos 0) (pos 0)))

  unfoldable pub parse_udp : Args → Sel → Outcome
  parse_udp (a ∷ b ∷ args) sel =
      if is a (codes "src")
      then parse_u16 (b ∷ args) sel (pos 0) (negsuc 0)
      else if is a (codes "dst")
      then parse_u16 (b ∷ args) sel (pos 2) (negsuc 0)
      else none
  parse_udp args sel = none

  unfoldable pub parse_icmp : Args → Sel → Outcome
  parse_icmp (a ∷ b ∷ args) sel =
      if is a (codes "type")
      then parse_u8 (b ∷ args) sel (pos 0) (negsuc 0)
      else if is a (codes "code")
      then parse_u8 (b ∷ args) sel (pos 1) (negsuc 0)
      else none
  parse_icmp args sel = none

  -- The last word of the attribute, `success`, holds what is on the stack.
  unfoldable pub parse_mark : ℕ → Args → Msg → Option (Msg × Args)
  parse_mark success (v ∷ m ∷ args) n = do
    val ← get_u32 stale (some v) 0
    mask ← get_u32 stale (some m) 0
    elim args [
      | [] ↦ none
      | a ∷ rest ↦
          refuse_if (not (bit_and val mask == val))
            (some ((addattr_l n 16384 10 (le32 val ++ (le32 mask ++ le32 success))).0, a ∷ rest))
    ]
  parse_mark success args n = none

  -- TC_U32_OFFSET is 2, TC_U32_VAROFFSET 4 and TC_U32_EAT 8.
  unfoldable pub parse_offset : Args → Sel → Outcome
  parse_offset [] sel = some (sel, [])
  parse_offset (a ∷ []) sel =
      if fits a (codes "plus")
        || fits a (codes "at")
        || fits a (codes "mask")
        || fits a (codes "shift")
      then none
      else if fits a (codes "eat")
      then some (with_flags 8 sel, [])
      else some (sel, a ∷ [])
  parse_offset (a ∷ b ∷ args) sel =
      let plus : Outcome = do
        off ← get_integer stale (some b) 0
        parse_offset args (with_flags 2 (record sel { off_base = wrapped 16 off }))
      in let at_off : Outcome = do
        off ← get_integer stale (some b) 0
        refuse_if (odd off) (parse_offset args (with_flags 4 (record sel { offoff = int16 off })))
        in let mask : Outcome = do
          m ← get_be16 stale (some b) 16
          parse_offset args (with_flags 4 (record sel { var_mask = m }))
          in let shift : Outcome = do
            s ← get_integer stale (some b) 0
            parse_offset args (with_flags 4 (record sel { offshift = wrapped 8 s }))
            in let eat : Outcome = parse_offset (b ∷ args) (with_flags 8 sel) in
              if fits a (codes "plus")
              then plus
              else if fits a (codes "at")
              then at_off
              else if fits a (codes "mask")
              then mask
              else if fits a (codes "shift")
              then shift
              else if fits a (codes "eat")
              then eat
              else some (sel, a ∷ b ∷ args)

  unfoldable pub parse_hashkey : Args → Sel → Outcome
  parse_hashkey [] sel = some (sel, [])
  parse_hashkey (a ∷ []) sel =
      if fits a (codes "mask") || fits a (codes "at") then none else some (sel, a ∷ [])
  parse_hashkey (a ∷ b ∷ args) sel =
      let mask : Outcome = do
        m ← get_be32 stale (some b) 16
        parse_hashkey args (record sel { hmask = m })
      in let at_off : Outcome = do
        num ← get_integer stale (some b) 0
        refuse_if (not (low_two num == 0))
            (parse_hashkey args (record sel { hash_off = int16 num }))
        in if fits a (codes "mask")
          then mask
          else if fits a (codes "at")
          then at_off
          else some (sel, a ∷ b ∷ args)

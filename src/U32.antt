-- ===== src/U32.antt =====
-- The selector of the u32 classifier, tc/f_u32.c: `pack_key` and its kin put a key for a word of the
-- packet into `struct tc_u32_sel` of include/uapi/linux/pkt_cls.h. A word in network order is given
-- by the number that `ntohl` makes of it. An offset is an `int`; -1 is `none`.
pub mod Handle
pub mod Parse
pub mod Match
pub mod Laws
pub mod Fields
pub mod Room
mod Runs
use Prim.Native.Nat.{bit_and, bit_or, bit_xor}
use libiproute.Prelude.{
  ℕ, zero, suc, ◌+◌, ◌-◌, ◌*◌, ◌/◌, ◌%◌, ◌^◌, Bool, true, false, ◌&&◌, ◌||◌, not, Option, none,
  some, List, [], ◌∷◌, ◌++◌, ltb, leb, ◌==◌, if◌then◌else◌, ◌>>=◌, Bytes, length,
}
use libiproute.Prelude.Int.{ℤ, pos, negsuc, eq_int}

-- struct tc_u32_key
pub record Key : Type 0 where
  pub mask : ℕ
  pub val : ℕ
  pub off : ℤ
  pub offmask : ℤ

-- struct tc_u32_sel; `nkeys` is the length of the keys. `off_base` is the field `off`, `hash_off` is
-- `hoff`, and `var_mask` is `offmask`.
pub record Sel : Type 0 where
  pub flags : ℕ
  pub offshift : ℕ
  pub var_mask : Bytes
  pub off_base : ℕ
  pub offoff : ℤ
  pub hash_off : ℤ
  pub hmask : Bytes
  pub keys : List Key

-- A key with this offset takes the new bits in, or refuses them.
abbrev same_place : Key → ℤ → ℤ → Bool
same_place k off offmask = eq_int k.off off && eq_int k.offmask offmask

-- The loop over the keys: `none` where no key has the offset, and then -1 or the keys.
unfoldable pub merge_key : List Key → ℕ → ℕ → ℤ → ℤ → Option (Option (List Key))
merge_key [] key mask off offmask = none
merge_key (k ∷ keys) key mask off offmask =
    let rest = merge_key keys key mask off offmask in
    if same_place k off offmask
    then some (
        if bit_and (bit_xor key k.val) (bit_and mask k.mask) == 0
        then some (record k { val = bit_or k.val key; mask = bit_or k.mask mask } ∷ keys)
        else none)
    else (elim rest [
      | none ↦ none
      | some none ↦ some none
      | some (some keys') ↦ some (some (k ∷ keys'))
    ])

-- `off % 4`, which is 0 or not, and `off & 3`.
abbrev pub low_two : ℤ → ℕ
low_two (pos n) = n % 4
low_two (negsuc n) = 3 - n % 4

-- `off & ~3`
abbrev pub aligned : ℤ → ℤ
aligned (pos n) = pos (n / 4 * 4)
aligned (negsuc n) = negsuc (n / 4 * 4 + 3)

unfoldable pub pack_key : Sel → ℕ → ℕ → ℤ → ℤ → Option Sel
unfolding merge_key
pack_key sel key mask off offmask = elim (merge_key sel.keys (bit_and key mask) mask off offmask) [
  | some none ↦ none
  | some (some keys) ↦ some (record sel { keys = keys })
  | none ↦
      if leb 128 (length sel.keys)
      then none
      else if not (low_two off == 0)
      then none
      else some (record sel {
        keys =
            sel.keys
            ++ record { mask = mask; val = bit_and key mask; off = off; offmask = offmask } ∷ [];
      })
]

unfoldable pub pack_key32 : Sel → ℕ → ℕ → ℤ → ℤ → Option Sel
pack_key32 sel key mask off offmask = pack_key sel key mask off offmask

unfoldable pub pack_key16 : Sel → ℕ → ℕ → ℤ → ℤ → Option Sel
pack_key16 sel key mask off offmask =
    if ltb 0xffff key || ltb 0xffff mask
    then none
    else if low_two off == 0
    then pack_key sel (key * 2 ^ 16) (mask * 2 ^ 16) (aligned off) offmask
    else pack_key sel key mask (aligned off) offmask

unfoldable pub pack_key8 : Sel → ℕ → ℕ → ℤ → ℤ → Option Sel
pack_key8 sel key mask off offmask =
    if ltb 0xff key || ltb 0xff mask
    then none
    else if low_two off == 0
    then pack_key sel (key * 2 ^ 24) (mask * 2 ^ 24) (aligned off) offmask
    else if low_two off == 1
    then pack_key sel (key * 2 ^ 16) (mask * 2 ^ 16) (aligned off) offmask
    else if low_two off == 2
    then pack_key sel (key * 2 ^ 8) (mask * 2 ^ 8) (aligned off) offmask
    else pack_key sel key mask (aligned off) offmask

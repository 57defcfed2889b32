-- ===== src/U32/Room.antt =====
-- `pack_key` and its kin in tc/f_u32.c never leave more than 128 keys.
use Prim.Native.Nat.{bit_and, bit_xor}
use libiproute.Prelude.{
  ℕ, suc, ◌*◌, ◌^◌, ◌<◌, ◌≤◌, ◌≡◌, refl, ap, arith, Bool, true, false, ◌||◌, not, Option, none,
  some, List, [], ◌∷◌, ◌++◌, ltb, leb, ◌==◌, if◌then◌else◌, length, length-append, Bool-cases, inl,
  inr,
}
use libiproute.Prelude.Int.{ℤ}
use libiproute.U32.{
  Key, Sel, same_place, merge_key, pack_key, pack_key16, pack_key8, low_two, aligned,
}

abbrev pub Room : Sel → Option Sel → Type 0
Room sel none = Unit
Room sel (some sel') = length sel.keys ≤ 128 → length sel'.keys ≤ 128

abbrev SameLength : List Key → Option (Option (List Key)) → Type 0
SameLength keys none = Unit
SameLength keys (some none) = Unit
SameLength keys (some (some keys')) = length keys' ≡ length keys

behind :
    (k : Key) (keys : List Key) (r : Option (Option (List Key)))
    → SameLength keys r
    → SameLength (k ∷ keys) (elim r [
      | none ↦ none
      | some none ↦ some none
      | some (some keys') ↦ some (some (k ∷ keys'))
    ])
behind k keys none h = tt
behind k keys (some none) h = tt
behind k keys (some (some keys')) h = ap suc h

merge_key-SameLength :
    (keys : List Key) (key mask : ℕ) (off offmask : ℤ)
    → SameLength keys (merge_key keys key mask off offmask)
unfolding merge_key
merge_key-SameLength [] key mask off offmask = tt
merge_key-SameLength (k ∷ keys) key mask off offmask =
    elim (Bool-cases (same_place k off offmask)) [
      | inl e ↦ elim (Bool-cases (bit_and (bit_xor key k.val) (bit_and mask k.mask) == 0)) [
        | inl f ↦ rw (e, f) refl
        | inr f ↦ rw (e, f) tt
      ]
      | inr e ↦ rw e (
          behind k keys (merge_key keys key mask off offmask)
            (merge_key-SameLength keys key mask off offmask))
    ]

one_more : (keys : List Key) (k : Key) → length keys < 128 → length (keys ++ k ∷ []) ≤ 128
one_more keys k h = omega (arith, length-append keys (k ∷ []))

module _ (sel : Sel) where
  pub pack_key-Room :
      (key mask : ℕ) (off offmask : ℤ) → Room sel (pack_key sel key mask off offmask)
  unfolding pack_key
  pack_key-Room key mask off offmask =
      by_merge (merge_key sel.keys (bit_and key mask) mask off offmask)
        (merge_key-SameLength sel.keys (bit_and key mask) mask off offmask)
    where
      by_merge :
          (r : Option (Option (List Key)))
          → SameLength sel.keys r
          → Room sel (elim r [
            | some none ↦ none
            | some (some keys) ↦ some (record sel { keys = keys })
            | none ↦
                if leb 128 (length sel.keys)
                then none
                else if not (low_two off == 0)
                then none
                else some (record sel {
                  keys =
                      sel.keys
                      ++ record {
                        mask = mask;
                        val = bit_and key mask;
                        off = off;
                        offmask = offmask;
                      }
                        ∷ [];
                })
          ])
      by_merge (some none) h = tt
      by_merge (some (some keys)) h = λ few. omega (arith, h)
      by_merge none h = elim (Bool-cases (leb 128 (length sel.keys))) [
        | inl e ↦ rw e tt
        | inr e ↦ elim (Bool-cases (low_two off == 0)) [
          | inl a ↦ rw (e, a) (λ few. one_more sel.keys _ (ground arith))
          | inr a ↦ rw (e, a) tt
        ]
      ]

  if-Room : (b : Bool) (x y : Option Sel) → Room sel x → Room sel y → Room sel (if b then x else y)
  if-Room true x y hx hy = hx
  if-Room false x y hx hy = hy

  pub pack_key16-Room :
      (key mask : ℕ) (off offmask : ℤ) → Room sel (pack_key16 sel key mask off offmask)
  unfolding pack_key16
  pack_key16-Room key mask off offmask = if-Room (ltb 0xffff key || ltb 0xffff mask) _ _ tt (
      if-Room (low_two off == 0) _ _
        (pack_key-Room (key * 2 ^ 16) (mask * 2 ^ 16) (aligned off) offmask)
        (pack_key-Room key mask (aligned off) offmask))

  pub pack_key8-Room :
      (key mask : ℕ) (off offmask : ℤ) → Room sel (pack_key8 sel key mask off offmask)
  unfolding pack_key8
  pack_key8-Room key mask off offmask = if-Room (ltb 0xff key || ltb 0xff mask) _ _ tt (
      if-Room (low_two off == 0) _ _
        (pack_key-Room (key * 2 ^ 24) (mask * 2 ^ 24) (aligned off) offmask)
        (if-Room (low_two off == 1) _ _
          (pack_key-Room (key * 2 ^ 16) (mask * 2 ^ 16) (aligned off) offmask)
          (if-Room (low_two off == 2) _ _
            (pack_key-Room (key * 2 ^ 8) (mask * 2 ^ 8) (aligned off) offmask)
            (pack_key-Room key mask (aligned off) offmask))))

-- ===== src/U32/Laws.antt =====
-- The packets that a selector of tc/f_u32.c matches, before and after a key is packed.
use Prim.Native.Nat.{bit_and, bit_or, bit_xor}
use libiproute.Prelude.{
  ℕ, ◌^◌, ◌≤◌, ◌<◌, ◌≡◌, ◌≢◌, ◌↔◌, ◌⊎◌, inl, inr, arith, true, false, not, Option, none, some, List,
  [], ◌∷◌, ◌++◌, leb, leb→le, ==→eq, ◌==◌, if◌then◌else◌, length, All, Bool-cases,
}
use libiproute.Prelude.Int.{ℤ, eq_int→eq}
use libiproute.Prelude.Masks.{merge_words, bit_and-lt, bit_or-lt, bit_and_masked, bit_or_masked}
use libiproute.U32.{Key, Sel, same_place, merge_key, low_two, pack_key}

-- The word of a packet at an offset.
abbrev pub Packet : Type 0
Packet = ℤ → ℤ → ℕ

abbrev pub Holds : Packet → Key → Type 0
Holds w k = bit_and (w k.off k.offmask) k.mask ≡ k.val

abbrev pub Matches : Packet → List Key → Type 0
Matches w keys = All (Holds w) keys

-- A key has its bits inside its mask, and a mask has 32 bits.
pub record IsKey (k : Key) : Type 0 where
  pub mask_lt : k.mask < 2 ^ 32
  pub val_lt : k.val < 2 ^ 32
  pub inside : bit_and k.val k.mask ≡ k.val

module _ (w : Packet) (key mask : ℕ) (off offmask : ℤ) where
  -- The key that is packed.
  abbrev New : Type 0
  New = bit_and (w off offmask) mask ≡ key

  abbrev merged : Key → Key
  merged k = record k { val = bit_or k.val key; mask = bit_or k.mask mask }

  -- What the loop over the keys yields.
  abbrev Merges : List Key → Option (Option (List Key)) → Type 0
  Merges keys none = Unit
  Merges keys (some none) = Matches w keys → ¬ New
  Merges keys (some (some keys')) = All IsKey keys' × (Matches w keys' ↔ (Matches w keys × New))

module _ (w : Packet) (words : (off offmask : ℤ) → w off offmask < 2 ^ 32) (key mask : ℕ)
    (off offmask : ℤ) (small : key < 2 ^ 32) (small' : mask < 2 ^ 32)
    (inside : bit_and key mask ≡ key) where
  place : (k : Key) → same_place k off offmask ≡ true → (k.off ≡ off) × (k.offmask ≡ offmask)
  place k h = (eq_int→eq k.off off (ground arith), eq_int→eq k.offmask offmask (ground arith))

  both :
      (k : Key)
      → IsKey k
      → same_place k off offmask ≡ true
      → (Holds w k × New w key mask off offmask) ↔ (
          (bit_and (bit_xor key k.val) (bit_and mask k.mask) ≡ 0)
          × Holds w (merged w key mask off offmask k))
  both k ik h =
      let (eo, em) = place k h in
      rw (← eo, ← em)
        (merge_words 32 (w k.off k.offmask) k.mask k.val mask key (words k.off k.offmask) ik.mask_lt
          ik.val_lt small' small ik.inside inside)

  merged-IsKey : (k : Key) → IsKey k → IsKey (merged w key mask off offmask k)
  merged-IsKey k ik = record {
    mask_lt = bit_or-lt 32 k.mask mask ik.mask_lt small';
    val_lt = bit_or-lt 32 k.val key ik.val_lt small;
    inside = bit_or_masked 32 k.mask k.val mask key ik.val_lt small ik.inside inside;
  }

  merge_behind :
      (k : Key) (keys : List Key) (r : Option (Option (List Key)))
      → IsKey k
      → Merges w key mask off offmask keys r
      → Merges w key mask off offmask (k ∷ keys) (elim r [
        | none ↦ none
        | some none ↦ some none
        | some (some keys') ↦ some (some (k ∷ keys'))
      ])
  merge_behind k keys none ik h = tt
  merge_behind k keys (some none) ik h = λ m. h m.1
  merge_behind k keys (some (some keys')) ik (ks, same) =
      ((ik, ks), (λ m. ((m.0, (same.0 m.1).0), (same.0 m.1).1), λ m. (m.0.0, same.1 (m.0.1, m.1))))

  merge_here :
      (k : Key) (keys : List Key)
      → IsKey k
      → All IsKey keys
      → same_place k off offmask ≡ true
      → Merges w key mask off offmask (k ∷ keys) (
          some (
            if bit_and (bit_xor key k.val) (bit_and mask k.mask) == 0
            then some (merged w key mask off offmask k ∷ keys)
            else none))
  merge_here k keys ik iks h =
      elim (Bool-cases (bit_and (bit_xor key k.val) (bit_and mask k.mask) == 0)) [
        | inl e ↦
            let z = ==→eq (bit_and (bit_xor key k.val) (bit_and mask k.mask)) 0 e in
            rw e (
              (merged-IsKey k ik, iks),
              (
                λ m. let (a, b) = (both k ik h).1 (z, m.0) in ((a, m.1), b),
                λ m. (((both k ik h).0 (m.0.0, m.1)).1, m.0.1),
              ),
            )
        | inr e ↦ rw e (λ m n. clash e ((both k ik h).0 (m.0, n)).0)
      ]
    where
      clash :
          (bit_and (bit_xor key k.val) (bit_and mask k.mask) == 0) ≡ false
          → ¬ (bit_and (bit_xor key k.val) (bit_and mask k.mask) ≡ 0)
      clash e z = ground arith

  merge_key-Merges :
      (keys : List Key)
      → All IsKey keys
      → Merges w key mask off offmask keys (merge_key keys key mask off offmask)
  unfolding merge_key
  merge_key-Merges [] h = tt
  merge_key-Merges (k ∷ keys) (ik, iks) = elim (Bool-cases (same_place k off offmask)) [
    | inl e ↦ rw e (merge_here k keys ik iks e)
    | inr e ↦
        rw e
          (merge_behind k keys (merge_key keys key mask off offmask) ik (merge_key-Merges keys iks))
  ]

-- What a selector is packed to, for one packet.
abbrev pub Packs : Packet → Sel → ℕ → ℕ → ℤ → ℤ → Option Sel → Type 0
Packs w sel key mask off offmask none =
    (Matches w sel.keys → bit_and (w off offmask) mask ≢ bit_and key mask)
    ⊎ (128 ≤ length sel.keys)
    ⊎ (low_two off ≢ 0)
Packs w sel key mask off offmask (some sel') =
    All IsKey sel'.keys
    × (Matches w sel'.keys
        ↔ (Matches w sel.keys × (bit_and (w off offmask) mask ≡ bit_and key mask)))

module _ (w : Packet) (words : (off offmask : ℤ) → w off offmask < 2 ^ 32) where
  pack_merged :
      (sel : Sel) (key mask : ℕ) (off offmask : ℤ) (r : Option (Option (List Key)))
      → mask < 2 ^ 32
      → All IsKey sel.keys
      → Merges w (bit_and key mask) mask off offmask sel.keys r
      → Packs w sel key mask off offmask (elim r [
        | some none ↦ none
        | some (some keys) ↦ some (record sel { keys = keys })
        | none ↦
            if leb 128 (length sel.keys)
            then none
            else if not (low_two off == 0)
            then none
            else some (record sel {
              keys =
                  sel.keys
                  ++ record { mask = mask; val = bit_and key mask; off = off; offmask = offmask }
                    ∷ [];
            })
      ])
  pack_merged sel key mask off offmask (some none) k iks m = inl m
  pack_merged sel key mask off offmask (some (some keys)) k iks m = m
  pack_merged sel key mask off offmask none k iks m =
      elim (Bool-cases (leb 128 (length sel.keys))) [
        | inl e ↦ rw e (inr (inl (leb→le 128 (length sel.keys) e)))
        | inr e ↦ elim (Bool-cases (low_two off == 0)) [
          | inl a ↦ rw (e, a) (appended sel.keys iks)
          | inr a ↦ rw (e, a) (inr (inr (λ z. odd a z)))
        ]
      ]
    where
      odd : (low_two off == 0) ≡ false → ¬ (low_two off ≡ 0)
      odd a z = ground arith

      new : Key
      new = record { mask = mask; val = bit_and key mask; off = off; offmask = offmask }

      new-IsKey : IsKey new
      new-IsKey = record {
        mask_lt = k;
        val_lt = bit_and-lt 32 key mask k;
        inside = bit_and_masked 32 key mask k;
      }

      appended :
          (keys : List Key)
          → All IsKey keys
          → All IsKey (keys ++ new ∷ [])
            × (Matches w (keys ++ new ∷ []) ↔ (Matches w keys × Holds w new))
      appended [] ik = ((new-IsKey, tt), (λ m. (tt, m.0), λ m. (m.1, tt)))
      appended (x ∷ keys) (ix, ik) =
          let (all, same) = appended keys ik in
          (
            (ix, all),
            (λ m. ((m.0, (same.0 m.1).0), (same.0 m.1).1), λ m. (m.0.0, same.1 (m.0.1, m.1))),
          )

  -- Packing a key into a selector of well-formed keys, for every packet of 32-bit words: if it works,
  -- the new selector is well-formed, too, and matches exactly the packets that the old one matches and
  -- whose word at the offset agrees with the key in the bits of the mask. It is refused only if no
  -- packet does both, or there are 128 keys, or the offset is no multiple of 4.
  pub pack_key-Packs :
      (sel : Sel) (key mask : ℕ) (off offmask : ℤ)
      → mask < 2 ^ 32
      → All IsKey sel.keys
      → Packs w sel key mask off offmask (pack_key sel key mask off offmask)
  unfolding pack_key
  pack_key-Packs sel key mask off offmask k iks =
      pack_merged sel key mask off offmask (merge_key sel.keys (bit_and key mask) mask off offmask)
        k iks
        (merge_key-Merges w words (bit_and key mask) mask off offmask (bit_and-lt 32 key mask k) k
          (bit_and_masked 32 key mask k) sel.keys iks)

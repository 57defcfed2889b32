-- ===== src/U32/Fields.antt =====
-- Keys of a byte and of 16 bits in tc/f_u32.c: `pack_key8` and `pack_key16` look at the field of the
-- packet that stands at their offset.
use Prim.Native.Nat.{bit_and}
use native.Mathlib.Nat.{mul-one}
use libiproute.Prelude.{
  ℕ, zero, suc, ◌-◌, ◌*◌, ◌/◌, ◌%◌, ◌^◌, ◌≤◌, ◌<◌, ◌≡◌, ◌≢◌, ◌↔◌, ◌⊎◌, inl, inr, refl, arith,
  Option, none, some, ltb, ltb→lt, ◌==◌, if◌then◌else◌, length, All, Bool-cases,
}
use libiproute.Prelude.Int.{ℤ, pos, negsuc}
use libiproute.Prelude.Masks.{shifted_field}
use libiproute.U32.{Sel, low_two, aligned, pack_key, pack_key8, pack_key16}
use libiproute.U32.Laws.{Packet, Matches, IsKey, Packs, pack_key-Packs}

-- The byte of the packet at an offset, in a word in network order, and the 16 bits: those in front
-- at an offset that is a multiple of 4, and else those behind.
abbrev pub byte_at : Packet → ℤ → ℤ → ℕ
byte_at w off offmask = w (aligned off) offmask / 2 ^ (8 * (3 - low_two off)) % 2 ^ 8

abbrev pub half_at : Packet → ℤ → ℤ → ℕ
half_at w off offmask = w (aligned off) offmask / 2 ^ (if low_two off == 0 then 16 else 0) % 2 ^ 16

-- What becomes of a selector whose packing asks that `field` of the packet agrees with a key.
abbrev pub PacksField : Packet → Sel → ℕ → ℕ → ℕ → ℕ → Option Sel → Type 0
PacksField w sel field limit key mask none =
    (Matches w sel.keys → bit_and field mask ≢ bit_and key mask)
    ⊎ (128 ≤ length sel.keys)
    ⊎ (limit < key)
    ⊎ (limit < mask)
PacksField w sel field limit key mask (some sel') =
    All IsKey sel'.keys
    × (Matches w sel'.keys ↔ (Matches w sel.keys × (bit_and field mask ≡ bit_and key mask)))

aligned_low : (off : ℤ) → low_two (aligned off) ≡ 0
aligned_low (pos n) = omega arith
aligned_low (negsuc n) = omega arith

four_cases : (n : ℕ) → n < 4 → (n ≡ 0) ⊎ (n ≡ 1) ⊎ (n ≡ 2) ⊎ (n ≡ 3)
four_cases zero h = inl refl
four_cases (suc zero) h = inr (inl refl)
four_cases (suc (suc zero)) h = inr (inr (inl refl))
four_cases (suc (suc (suc n))) h = inr (inr (inr (omega arith)))

low_two-cases :
    (off : ℤ) → (low_two off ≡ 0) ⊎ (low_two off ≡ 1) ⊎ (low_two off ≡ 2) ⊎ (low_two off ≡ 3)
low_two-cases (pos n) = four_cases (n % 4) (omega arith)
low_two-cases (negsuc n) = four_cases (3 - n % 4) (omega arith)

module _ (w : Packet) (words : (off offmask : ℤ) → w off offmask < 2 ^ 32) (sel : Sel)
    (keys : All IsKey sel.keys) where
  of_word :
      (b k limit key mask : ℕ) (off offmask : ℤ) (r : Option Sel)
      → low_two off ≡ 0
      → mask < 2 ^ b
      → Packs w sel (key * 2 ^ k) (mask * 2 ^ k) off offmask r
      → PacksField w sel (w off offmask / 2 ^ k % 2 ^ b) limit key mask r
  of_word b k limit key mask off offmask none z h (inl never) =
      inl (λ m e. never m ((shifted_field b k (w off offmask) key mask h).1 e))
  of_word b k limit key mask off offmask none z h (inr (inl full)) = inr (inl full)
  of_word b k limit key mask off offmask none z h (inr (inr odd)) = absurd (odd z)
  of_word b k limit key mask off offmask (some sel') z h (ik, same) = (
    ik,
    (
      λ m. ((same.0 m).0, (shifted_field b k (w off offmask) key mask h).0 (same.0 m).1),
      λ m. same.1 (m.0, (shifted_field b k (w off offmask) key mask h).1 m.1),
    ),
  )

  pack_field :
      (b k limit key mask : ℕ) (off offmask : ℤ)
      → low_two off ≡ 0
      → mask < 2 ^ b
      → mask * 2 ^ k < 2 ^ 32
      → PacksField w sel
          (w off offmask / 2 ^ k % 2 ^ b)
          limit
          key
          mask
          (pack_key sel (key * 2 ^ k) (mask * 2 ^ k) off offmask)
  pack_field b k limit key mask off offmask z h small =
      of_word b k limit key mask off offmask (pack_key sel (key * 2 ^ k) (mask * 2 ^ k) off offmask)
        z h (pack_key-Packs w words sel (key * 2 ^ k) (mask * 2 ^ k) off offmask small keys)

  pack_unshifted :
      (b limit key mask : ℕ) (off offmask : ℤ)
      → low_two off ≡ 0
      → mask < 2 ^ b
      → mask < 2 ^ 32
      → PacksField w sel
          (w off offmask / 2 ^ 0 % 2 ^ b)
          limit
          key
          mask
          (pack_key sel key mask off offmask)
  pack_unshifted b limit key mask off offmask z h small =
      rw (mul-one key, mul-one mask) at
        (pack_field b 0 limit key mask off offmask z h (omega arith))

  -- A byte is packed into a selector of well-formed keys, for every packet of 32-bit words: the new
  -- selector matches exactly the packets that the old one matches and whose byte at the offset agrees
  -- with the key in the bits of the mask. It is refused only if no packet does both, there are 128
  -- keys, or the key or the mask has more than 8 bits.
  pub pack_key8-PacksField :
      (key mask : ℕ) (off offmask : ℤ)
      → PacksField w sel (byte_at w off offmask) 0xff key mask (pack_key8 sel key mask off offmask)
  unfolding pack_key8
  pack_key8-PacksField key mask off offmask = elim (Bool-cases (ltb 0xff key)) [
    | inl e ↦ rw e (inr (inr (inl (ltb→lt 0xff key e))))
    | inr e ↦ elim (Bool-cases (ltb 0xff mask)) [
      | inl f ↦ rw (e, f) (inr (inr (inr (ltb→lt 0xff mask f))))
      | inr f ↦ rw (e, f) (at_place (low_two-cases off) (ground arith))
    ]
  ]
    where
      at_place :
          (low_two off ≡ 0) ⊎ (low_two off ≡ 1) ⊎ (low_two off ≡ 2) ⊎ (low_two off ≡ 3)
          → mask < 2 ^ 8
          → PacksField w sel (byte_at w off offmask) 0xff key mask (
              if low_two off == 0
              then pack_key sel (key * 2 ^ 24) (mask * 2 ^ 24) (aligned off) offmask
              else if low_two off == 1
              then pack_key sel (key * 2 ^ 16) (mask * 2 ^ 16) (aligned off) offmask
              else if low_two off == 2
              then pack_key sel (key * 2 ^ 8) (mask * 2 ^ 8) (aligned off) offmask
              else pack_key sel key mask (aligned off) offmask)
      at_place (inl g) small = rw g (
          pack_field 8 24 0xff key mask (aligned off) offmask (aligned_low off) small (omega arith))
      at_place (inr (inl g)) small = rw g (
          pack_field 8 16 0xff key mask (aligned off) offmask (aligned_low off) small (omega arith))
      at_place (inr (inr (inl g))) small =
          rw g (
            pack_field 8 8 0xff key mask (aligned off) offmask (aligned_low off) small
              (omega arith))
      at_place (inr (inr (inr g))) small = rw g (
          pack_unshifted 8 0xff key mask (aligned off) offmask (aligned_low off) small
            (omega arith))

  -- Two bytes at an offset, the last two of a word where it is no multiple of 4, are packed as one byte
  -- is, and refused if the key or the mask has more than 16 bits.
  pub pack_key16-PacksField :
      (key mask : ℕ) (off offmask : ℤ)
      → PacksField w sel
          (half_at w off offmask)
          0xffff
          key
          mask
          (pack_key16 sel key mask off offmask)
  unfolding pack_key16
  pack_key16-PacksField key mask off offmask = elim (Bool-cases (ltb 0xffff key)) [
    | inl e ↦ rw e (inr (inr (inl (ltb→lt 0xffff key e))))
    | inr e ↦ elim (Bool-cases (ltb 0xffff mask)) [
      | inl f ↦ rw (e, f) (inr (inr (inr (ltb→lt 0xffff mask f))))
      | inr f ↦
          let small : mask < 2 ^ 16 = ground arith in
          elim (Bool-cases (low_two off == 0)) [
            | inl g ↦
                rw (e, f, g)
                  (pack_field 16 16 0xffff key mask (aligned off) offmask (aligned_low off) small
                    (omega arith))
            | inr g ↦
                rw (e, f, g)
                  (pack_unshifted 16 0xffff key mask (aligned off) offmask (aligned_low off) small
                    (omega arith))
          ]
    ]
  ]

-- ===== src/Mask/Laws.antt =====
-- `mask2bits` of lib/utils.c and the contiguous masks.
use Prim.Native.Nat.{bit_and}
use native.Mathlib.Nat.{pow-suc}
use libiproute.Prelude.{
  ℕ, zero, suc, ◌+◌, ◌-◌, ◌*◌, ◌/◌, ◌%◌, ◌^◌, ◌≤◌, ◌<◌, ◌≡◌, ◌≢◌, ◌↔◌, refl, arith, Option, none,
  some, ◌==◌, ==→eq, true, false, Bool-cases, inl, inr, ap, ◌∙◌, Bool,
}
use libiproute.Prelude.Bits.{bit_and_step, bit_and_self}
use libiproute.Prelude.Tables.{all_below, all_below→at}
use libiproute.Mask.{mask2bits}

-- The mask of a prefix of `b` bits.
abbrev pub prefix_mask : ℕ → ℕ
prefix_mask b = 2 ^ 32 - 2 ^ (32 - b)

-- A number that has no bit in common with its successor is one less than a power of two.
same : (h : ℕ) → h % 2 ≡ 0 → (h + 1) / 2 ≡ h / 2
same h e = omega arith

next : (h : ℕ) → h % 2 ≢ 0 → h / 2 + 1 ≡ (h + 1) / 2
next h e = omega arith

odd_half : (h : ℕ) → h % 2 ≢ 0 → h + 1 ≡ 2 * (h / 2 + 1)
odd_half h e = omega arith

no_common_bit : (n h : ℕ) → h < 2 ^ n → bit_and h (h + 1) ≡ 0 → (k : ℕ) × (k ≤ n) × (h + 1 ≡ 2 ^ k)
no_common_bit zero h lt e = (0, omega arith, omega arith)
no_common_bit (suc n) h lt e = elim (Bool-cases (h % 2 == 0)) [
  | inl even ↦ (
    0,
    omega arith,
    omega (
      arith,
      bit_and_step h (h + 1),
      ==→eq _ _ even,
      bit_and_self (h / 2),
      ap (bit_and (h / 2)) (same h (==→eq _ _ even)),
    ),
  )
  | inr odd ↦
      let (k, le, eq) =
        no_common_bit n (h / 2) (omega (arith, pow-suc 2 n))
          (omega (arith, bit_and_step h (h + 1), ap (bit_and (h / 2)) (next h (ground arith)))) in
      (suc k, omega arith, omega (arith, pow-suc 2 k, odd_half h (ground arith)))
]

is_length : Option ℕ → ℕ → Bool
is_length none b = false
is_length (some c) b = c == b

is_length→eq : (o : Option ℕ) (b : ℕ) → is_length o b ≡ true → o ≡ some b
unfolding is_length
is_length→eq none b h = cc
is_length→eq (some c) b h = ap some (==→eq c b h)

prefix_table : all_below 33 (λ b. is_length (mask2bits (prefix_mask b)) b) ≡ true
unfolding all_below is_length mask2bits
prefix_table = refl

mask2bits-prefix_mask : (b : ℕ) → b ≤ 32 → mask2bits (prefix_mask b) ≡ some b
mask2bits-prefix_mask b h = is_length→eq _ b (all_below→at 33 _ b prefix_table (omega arith))

small : (m : ℕ) → m < 2 ^ 32 → m ≢ 0 → 2 ^ 32 - 1 - m + 1 ≡ (2 ^ 32 - 1 - m + 1) % 2 ^ 32
small m h e = omega arith

twice : (k : ℕ) → k ≤ 32 → 32 - (32 - k) ≡ k
twice k h = omega arith

contiguous :
    (m : ℕ)
    → m < 2 ^ 32
    → bit_and (2 ^ 32 - 1 - m) ((2 ^ 32 - 1 - m + 1) % 2 ^ 32) ≡ 0
    → (b : ℕ) × (b ≤ 32) × (m ≡ prefix_mask b)
contiguous m h e = elim (Bool-cases (m == 0)) [
  | inl empty ↦ (0, omega arith, ==→eq m 0 empty)
  | inr more ↦
      let (k, le, eq) =
        no_common_bit 32 (2 ^ 32 - 1 - m) (omega arith)
          (ap (bit_and (2 ^ 32 - 1 - m)) (small m h (ground arith)) ∙ e) in
      (32 - k, omega arith, omega (arith, ap (λ (t : ℕ). 2 ^ t) (twice k le)))
]

no_host_bit :
    (m b : ℕ) → mask2bits m ≡ some b → bit_and (2 ^ 32 - 1 - m) ((2 ^ 32 - 1 - m + 1) % 2 ^ 32) ≡ 0
unfolding mask2bits
no_host_bit m b e = ground arith

mask2bits_sound : (m b : ℕ) → m < 2 ^ 32 → mask2bits m ≡ some b → (b ≤ 32) × (m ≡ prefix_mask b)
mask2bits_sound m b h e =
    let (c, le, eq) = contiguous m h (no_host_bit m b e) in
    let same_length : c ≡ b = cc (mask2bits-prefix_mask c le, ap mask2bits eq, e) in
    (omega arith, eq ∙ ap prefix_mask same_length)

-- Of a 32-bit value, `mask2bits` finds a length exactly if it is the mask of a prefix of 0 to 32
-- bits, and the length is that of the prefix.
pub mask2bits_iff :
    (m b : ℕ) → m < 2 ^ 32 → (mask2bits m ≡ some b) ↔ ((b ≤ 32) × (m ≡ prefix_mask b))
mask2bits_iff m b h = (mask2bits_sound m b h, λ (le, e). rw e (mask2bits-prefix_mask b le))

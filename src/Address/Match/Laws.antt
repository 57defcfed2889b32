-- ===== src/Address/Match/Laws.antt =====
-- `inet_addr_match` of lib/utils.c, by the bits of the two addresses.
use Prim.Native.Nat.{bit_and, bit_xor}
use native.Mathlib.Nat.{add-zero}
use libiproute.Prelude.{
  ℕ, zero, suc, ◌+◌, ◌-◌, ◌*◌, ◌/◌, ◌%◌, ◌^◌, ◌≤◌, ◌<◌, ◌≡◌, ◌↔◌, inl, inr, refl, ap, ◌∙◌, arith,
  true, ◌==◌, ==→eq, Bool-cases, Bytes, ltb, get_or,
}
use libiproute.Prelude.Int.{pos}
use libiproute.Prelude.Tables.{all_below, all_below→at}
use libiproute.Prelude.Bits.{bit_and-zero}
use libiproute.Address.{word}
use libiproute.Address.Match.{mem_eq, bits_mask, inet_addr_match}
use libiproute.Address.Match.Words.{bit, bits_from, masked}

abbrev pub IsBytes : Bytes → Type 0
IsBytes bs = (i : ℕ) → get_or bs i 0 < 256

-- Bit `i` of an address, in the order of the network.
abbrev pub address_bit : Bytes → ℕ → ℕ
address_bit bs i = bit (31 - i % 32) (word bs (i / 32))

word-lt : (bs : Bytes) (i : ℕ) → IsBytes bs → word bs i < 2 ^ 32
unfolding word
word-lt bs i h = omega (arith, h (4 * i), h (4 * i + 1), h (4 * i + 2), h (4 * i + 3))

mem_eq→byte :
    (n : ℕ) (a b : Bytes) → mem_eq n a b ≡ true → (i : ℕ) → i < n → get_or a i 0 ≡ get_or b i 0
unfolding mem_eq
mem_eq→byte zero a b h i lt = absurd (omega arith)
mem_eq→byte (suc n) a b h i lt = elim (Bool-cases (i == n)) [
  | inl e ↦ rw (==→eq i n e) (ground arith)
  | inr e ↦ mem_eq→byte n a b (ground arith) i (ground arith)
]

byte→mem_eq :
    (n : ℕ) (a b : Bytes) → ((i : ℕ) → i < n → get_or a i 0 ≡ get_or b i 0) → mem_eq n a b ≡ true
unfolding mem_eq
byte→mem_eq zero a b same = refl
byte→mem_eq (suc n) a b same =
    ground (arith, same n (omega arith), byte→mem_eq n a b (λ i lt. same i (omega arith)))

mem_eq-word :
    (n : ℕ) (a b : Bytes) → mem_eq (n * 4) a b ≡ true → (i : ℕ) → i < n → word a i ≡ word b i
unfolding word
mem_eq-word n a b h i lt =
    let at = mem_eq→byte (n * 4) a b h in
    omega (
      arith,
      at (4 * i) (omega arith),
      at (4 * i + 1) (omega arith),
      at (4 * i + 2) (omega arith),
      at (4 * i + 3) (omega arith),
    )

-- The digits of a word.
same_digits :
    (a b c d a' b' c' d' : ℕ)
    → (b < 256) × (c < 256) × (d < 256) × (b' < 256) × (c' < 256) × (d' < 256)
    → a * 2 ^ 24 + b * 2 ^ 16 + c * 2 ^ 8 + d ≡ a' * 2 ^ 24 + b' * 2 ^ 16 + c' * 2 ^ 8 + d'
    → (a ≡ a') × (b ≡ b') × (c ≡ c') × (d ≡ d')
same_digits a b c d a' b' c' d' h e = omega arith

word_bytes :
    (a b : Bytes) (i : ℕ)
    → IsBytes a
    → IsBytes b
    → word a i ≡ word b i
    → (c : ℕ) → c < 4
    → get_or a (4 * i + c) 0 ≡ get_or b (4 * i + c) 0
unfolding word
word_bytes a b i ha hb e = four (
    same_digits _ _ _ _ _ _ _ _
      (
        ha (4 * i + 1),
        ha (4 * i + 2),
        ha (4 * i + 3),
        hb (4 * i + 1),
        hb (4 * i + 2),
        hb (4 * i + 3),
      )
      e)
  where
    at : ℕ → Type 0
    at c = get_or a c 0 ≡ get_or b c 0

    four :
        at (4 * i) × at (4 * i + 1) × at (4 * i + 2) × at (4 * i + 3)
        → (c : ℕ) → c < 4
        → at (4 * i + c)
    four h zero lt = rw add-zero (h.0)
    four h (suc zero) lt = h.1
    four h (suc (suc zero)) lt = h.2
    four h (suc (suc (suc zero))) lt = h.3
    four h (suc (suc (suc (suc c)))) lt = absurd (omega arith)

word-mem_eq :
    (n : ℕ) (a b : Bytes)
    → IsBytes a
    → IsBytes b
    → ((i : ℕ) → i < n → word a i ≡ word b i)
    → mem_eq (n * 4) a b ≡ true
word-mem_eq n a b ha hb same = byte→mem_eq (n * 4) a b λ i lt.
    rw (whole i) (word_bytes a b (i / 4) ha hb (same (i / 4) (omega arith)) (i % 4) (omega arith))
  where
    whole : (i : ℕ) → i ≡ 4 * (i / 4) + i % 4
    whole i = omega arith

mask_table : all_below 32 (λ r. bits_mask r == 2 ^ 32 - 2 ^ (32 - r)) ≡ true
unfolding all_below
mask_table = refl

bits_mask_lem : (r : ℕ) → r < 32 → bits_mask r ≡ 2 ^ (32 - r + r) - 2 ^ (32 - r)
bits_mask_lem r h =
    ==→eq _ _ (all_below→at 32 _ r mask_table h) ∙ ap (λ (t : ℕ). 2 ^ t - 2 ^ (32 - r)) whole
  where
    whole : 32 ≡ 32 - r + r
    whole = omega arith

rest_agrees :
    (r x y : ℕ)
    → r < 32
    → x < 2 ^ 32
    → y < 2 ^ 32
    → (bit_and (bit_xor x y) (bits_mask r) ≡ 0)
      ↔ ((j : ℕ) → 32 - r ≤ j → j < 32 → bit j x ≡ bit j y)
rest_agrees r x y h hx hy =
    let whole : 32 ≡ 32 - r + r = omega arith in
    let (there, back) = masked (32 - r) r x y (rw (← whole) hx) (rw (← whole) hy) in
    let (down, up) = bits_from (32 - r) 32 x y (omega arith) hx hy in
    rw (bits_mask_lem r h) (λ e. down (there e), λ same. back (up same))

-- The word and the bit in which bit `j` of word `w` lies.
place : (w j : ℕ) → j < 32 → ((32 * w + (31 - j)) / 32 ≡ w) × (31 - (32 * w + (31 - j)) % 32 ≡ j)
place w j h = omega arith

module _ (a b : Bytes) (ha : IsBytes a) (hb : IsBytes b) where
  bit_of_word :
      (bits w j : ℕ)
      → ((i : ℕ) → i < bits → address_bit a i ≡ address_bit b i)
      → j < 32
      → 32 * w + (31 - j) < bits
      → bit j (word a w) ≡ bit j (word b w)
  bit_of_word bits w j same h lt =
      let (in_word, in_bit) = place w j h in rw (in_word, in_bit) at (same (32 * w + (31 - j)) lt)

  whole_word :
      (bits w : ℕ)
      → ((i : ℕ) → i < bits → address_bit a i ≡ address_bit b i)
      → w < bits / 32
      → word a w ≡ word b w
  whole_word bits w same h =
      let (down, up) =
        bits_from 0 32 (word a w) (word b w) (omega arith) (word-lt a w ha) (word-lt b w hb) in
      omega (arith, up (λ j lo hi. bit_of_word bits w j same hi (omega arith)))

  Agrees : ℕ → Type 0
  Agrees bits =
      ((i : ℕ) → i < bits / 32 → word a i ≡ word b i)
      × (bit_and (bit_xor (word a (bits / 32)) (word b (bits / 32))) (bits_mask (bits % 32)) ≡ 0)

  match-mem_eq :
      (bits : ℕ)
      → inet_addr_match a b bits ≡ pos 0
      → 0 < bits / 32
      → mem_eq (bits / 32 * 4) a b ≡ true
  unfolding inet_addr_match
  match-mem_eq bits e h = ground arith

  match-rest :
      (bits : ℕ)
      → inet_addr_match a b bits ≡ pos 0
      → bit_and (bit_xor (word a (bits / 32)) (word b (bits / 32))) (bits_mask (bits % 32)) ≡ 0
  unfolding inet_addr_match
  match-rest bits e = elim (Bool-cases (bits % 32 == 0)) [
    | inl none_left ↦ rw (==→eq _ _ none_left) (bit_and-zero _)
    | inr some_left ↦ ground arith
  ]

  match-Agrees : (bits : ℕ) → inet_addr_match a b bits ≡ pos 0 → Agrees bits
  unfolding Agrees
  match-Agrees bits e = (
    λ i lt. mem_eq-word (bits / 32) a b (match-mem_eq bits e (omega arith)) i lt,
    match-rest bits e,
  )

  Agrees-match : (bits : ℕ) → Agrees bits → inet_addr_match a b bits ≡ pos 0
  unfolding inet_addr_match Agrees
  Agrees-match bits (same, rest) = ground (arith, word-mem_eq (bits / 32) a b ha hb same)

  -- For two addresses of bytes, the answer is 0 exactly if their first `bits` bits agree, one by one.
  pub inet_addr_match_iff :
      (bits : ℕ)
      → (inet_addr_match a b bits ≡ pos 0)
        ↔ ((i : ℕ) → i < bits → address_bit a i ≡ address_bit b i)
  unfolding Agrees
  inet_addr_match_iff bits = (
    λ e i lt.
        (let (same, rest) = match-Agrees bits e in
          elim (Bool-cases (ltb (i / 32) (bits / 32))) [
            | inl inside ↦ ap (bit (31 - i % 32)) (same (i / 32) (ground arith))
            | inr last ↦
                let at : i / 32 ≡ bits / 32 = ground arith in
                rw at (
                  (rest_agrees (bits % 32) _ _ (omega arith) (word-lt a _ ha) (word-lt b _ hb)).0
                    rest (31 - i % 32) (omega arith) (omega arith))
          ]),
    λ same. Agrees-match bits (
      λ w h. whole_word bits w same h,
      (rest_agrees (bits % 32) _ _ (omega arith) (word-lt a _ ha) (word-lt b _ hb)).1
          (λ j lo hi. bit_of_word bits (bits / 32) j same hi (omega arith)),
    ),
  )

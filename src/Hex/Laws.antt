-- ===== src/Hex/Laws.antt =====
-- The readers of hexadecimal bytes in lib/utils.c on the texts of `hexstring_n2a`.
use Prim.Native.Nat.{bit_or}
use libiproute.Prelude.{
  ℕ, zero, suc, ◌-◌, ◌*◌, ◌/◌, ◌%◌, ◌<◌, ◌≤◌, ◌≡◌, refl, arith, Bool, true, false, Option, none,
  some, [], ◌∷◌, ltb, ◌==◌, Bytes, take, take-nil, length, All, Bool-cases, inl, inr,
}
use libiproute.Prelude.Bits.{bit_or_fields}
use libiproute.Prelude.Tables.{all_below, all_below→at}
use libiproute.CLib.{run_clib, digit_char}
use libiproute.Hex.{get_hex, hexstring_n2a, two_chars, a2n_loop, hexstring_a2n, hex2mem}

abbrev is_byte : ℕ → Option ℕ → Bool
is_byte b none = false
is_byte b (some v) = v == b

-- All bytes, one by one.
abbrev reads_byte : ℕ → Bool
reads_byte b = is_byte b (two_chars (digit_char (b / 16)) (digit_char (b % 16)))

byte_table : all_below 256 reads_byte ≡ true
unfolding all_below two_chars run_clib
byte_table = refl

is_byte→eq : (b : ℕ) (o : Option ℕ) → is_byte b o ≡ true → o ≡ some b
is_byte→eq b none h = ground arith
is_byte→eq b (some v) h = ground arith

two_chars-digit_char :
    (b : ℕ) → b < 256 → two_chars (digit_char (b / 16)) (digit_char (b % 16)) ≡ some b
two_chars-digit_char b h = is_byte→eq b _ (all_below→at 256 reads_byte b byte_table h)

get_hex-digit_char : (d : ℕ) → d < 16 → get_hex (digit_char d) ≡ some d
unfolding get_hex
get_hex-digit_char d h = ground arith

nibbles : (b : ℕ) → b < 256 → bit_or (b / 16 * 16 % 256) (b % 16) ≡ b
nibbles b h =
    let whole : b / 16 * 16 % 256 ≡ b / 16 * 16 = omega arith in
    rw whole (omega (arith, bit_or_fields 4 (b / 16) (b % 16) (omega arith)))

length-hexstring_n2a : (bs : Bytes) (blen : ℕ) → length (hexstring_n2a bs blen) % 2 ≡ 0
unfolding hexstring_n2a
length-hexstring_n2a [] blen = refl
length-hexstring_n2a (b ∷ bs) blen = ground (arith, length-hexstring_n2a bs (blen - 2))

a2n_loop-hexstring_n2a :
    (bs : Bytes) (blen room : ℕ)
    → All (λ (b : ℕ). b < 256) bs
    → a2n_loop room (hexstring_n2a bs blen) ≡ some (take room (take ((blen - 1) / 2) bs))
unfolding a2n_loop hexstring_n2a
a2n_loop-hexstring_n2a bs blen zero h = refl
a2n_loop-hexstring_n2a [] blen (suc room) h = rw (take-nil ((blen - 1) / 2)) refl
a2n_loop-hexstring_n2a (b ∷ bs) blen (suc room) (h, hs) = elim (Bool-cases (ltb blen 3)) [
  | inl full ↦
      let none_fits : (blen - 1) / 2 ≡ 0 = ground (arith, full) in rw (full, none_fits) refl
  | inr fits ↦
      let one_more : (blen - 1) / 2 ≡ suc ((blen - 2 - 1) / 2) = ground (arith, fits) in
      rw (fits, one_more, two_chars-digit_char b h, a2n_loop-hexstring_n2a bs (blen - 2) room hs)
        refl
]

-- Of a list of bytes, `hexstring_n2a` prints as many whole bytes as fit `blen - 1` characters, and `hexstring_a2n` reads
-- them back in order, as many as it has room for.
pub hexstring_a2n-hexstring_n2a :
    (bs : Bytes) (blen room : ℕ)
    → All (λ (b : ℕ). b < 256) bs
    → hexstring_a2n (hexstring_n2a bs blen) room ≡ some (take room (take ((blen - 1) / 2) bs))
unfolding hexstring_a2n
hexstring_a2n-hexstring_n2a bs blen room h =
    rw (length-hexstring_n2a bs blen) (a2n_loop-hexstring_n2a bs blen room h)

-- `hex2mem` reads back as many bytes as it is told, where `hexstring_n2a` printed that many.
pub hex2mem-hexstring_n2a :
    (bs : Bytes) (blen count : ℕ)
    → All (λ (b : ℕ). b < 256) bs
    → count ≤ length bs
    → 2 * count < blen
    → hex2mem (hexstring_n2a bs blen) count ≡ some (take count bs)
unfolding hex2mem hexstring_n2a
hex2mem-hexstring_n2a bs blen zero h enough room = refl
hex2mem-hexstring_n2a [] blen (suc count) h enough room = absurd (omega arith)
hex2mem-hexstring_n2a (b ∷ bs) blen (suc count) (h, hs) enough room =
    let fits : ltb blen 3 ≡ false = ground arith in
    rw
      (
        fits,
        get_hex-digit_char (b / 16) (omega arith),
        get_hex-digit_char (b % 16) (omega arith),
        hex2mem-hexstring_n2a bs (blen - 2) count hs (omega arith) (omega arith),
        nibbles b h,
      )
      refl

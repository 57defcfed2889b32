-- ===== src/Parts/Guid/Laws.antt =====
-- `get_guid` of lib/utils.c on the texts that `rt_addr_n2a_r` shows of eight bytes.
use Prim.Native.Nat.{bit_or}
use libiproute.Prelude.{
  ℕ, ◌≤◌, zero, suc, ◌+◌, ◌-◌, ◌*◌, ◌/◌, ◌%◌, ◌^◌, ◌<◌, ◌≡◌, ◌∙◌, refl, sym, ap, arith, true,
  Option, none, some, [], ◌∷◌, ◌==◌, Bytes, length, drop, get_or,
}
use native.Mathlib.Nat.{suc-add, add-suc, one-le-pow, mul-lt-mul_of_pos_right}
use libiproute.Prelude.Bits.{bit_or_fields, pow-add}
use libiproute.CLib.Print.{Ends}
use libiproute.CLib.Parse.{strtoul-two_digits}
use libiproute.Address.{af_packet}
use libiproute.Address.Text.Printer.{shown, rt_addr_n2a_r}
use libiproute.Address.Text.Printer.Laws.{AllBytes, colon_rest, colon_text}
use libiproute.Address.Text.Printer.ReadBack.{ll_addr_n2a-colon_text}
use libiproute.Parts.Guid.{columns, guid_byte, guid_loop, get_guid}

-- The number whose bytes these are, the most significant one first, behind `q`.
unfoldable pub big_endian : ℕ → Bytes → ℕ
big_endian q [] = q
big_endian q (b ∷ bs) = big_endian (q * 256 + b) bs

Ends-colon_rest : (bs : Bytes) → Ends (colon_rest bs)
unfolding colon_rest
Ends-colon_rest [] = tt
Ends-colon_rest (b ∷ bs) = refl

guid_byte-colon_text :
    (i : ℕ) (arg : Bytes) (b : ℕ) (bs : Bytes)
    → b < 256
    → drop (i * 3) arg ≡ colon_text b bs
    → guid_byte i arg ≡ some b
unfolding guid_byte
guid_byte-colon_text i arg b bs h e =
    let value : b / 16 * 16 + b % 16 ≡ b = omega arith in
    let read =
      strtoul-two_digits (b / 16) (b % 16) (colon_rest bs) (omega arith) (omega arith)
        (Ends-colon_rest bs) in
    let two : (length (colon_rest bs) + 2 == suc (suc (length (colon_rest bs)))) ≡ true =
      ground arith in
    rw (guid_byte, e, read, value) (ground (arith, two))

-- A byte behind the bytes of `q`.
bytes_or :
    (q b n : ℕ)
    → b < 256
    → bit_or (q * 2 ^ (8 * suc n)) (b * 2 ^ (8 * n)) ≡ (q * 256 + b) * 2 ^ (8 * n)
bytes_or q b n h =
    let p : 2 ^ (8 * suc n) ≡ 256 * 2 ^ (8 * n) =
      ap (λ (k : ℕ). 2 ^ k) (omega arith) ∙ pow-add 8 (8 * n) in
    let low : b * 2 ^ (8 * n) < 2 ^ (8 * suc n) =
      rw p (mul-lt-mul_of_pos_right h (one-le-pow (8 * n) 2 (omega arith))) in
    let high : q * 2 ^ (8 * suc n) ≡ q * 256 * 2 ^ (8 * n) =
      ap (λ (t : ℕ). q * t) p ∙ omega arith in
    bit_or_fields (8 * suc n) q (b * 2 ^ (8 * n)) low ∙ omega (arith, high)

drop_more : (n : ℕ) (s : Bytes) → drop (n + 3) s ≡ drop 3 (drop n s)
drop_more zero s = refl
drop_more (suc n) [] = rw suc-add refl
drop_more (suc n) (c ∷ s) = rw suc-add (drop_more n s)

drop_third : (i : ℕ) (arg : Bytes) → drop ((i + 1) * 3) arg ≡ drop 3 (drop (i * 3) arg)
drop_third i arg = ap (λ (n : ℕ). drop n arg) (omega arith) ∙ drop_more (i * 3) arg

drop_byte : (b c : ℕ) (bs : Bytes) → drop 3 (colon_text b (c ∷ bs)) ≡ colon_text c bs
unfolding colon_rest
drop_byte b c bs = refl

colon_third : (b c : ℕ) (bs : Bytes) → get_or (colon_text b (c ∷ bs)) 2 0 ≡ b':'
unfolding colon_rest
colon_third b c bs = refl

length-colon_rest : (bs : Bytes) → length (colon_rest bs) ≡ 3 * length bs
unfolding colon_rest
length-colon_rest [] = refl
length-colon_rest (b ∷ bs) = omega (arith, length-colon_rest bs)

guid_loop_step :
    (rounds i guid q b n : ℕ) (arg : Bytes)
    → b < 256
    → guid_byte i arg ≡ some b
    → 56 - 8 * i ≡ 8 * n
    → guid ≡ q * 2 ^ (8 * suc n)
    → guid_loop (suc rounds) i arg guid ≡ guid_loop rounds (i + 1) arg ((q * 256 + b) * 2 ^ (8 * n))
unfolding guid_loop
guid_loop_step rounds i guid q b n arg h e shift same =
    let or : bit_or guid (b * 2 ^ (56 - 8 * i)) ≡ (q * 256 + b) * 2 ^ (8 * n) =
      rw (shift, same) (bytes_or q b n h) in
    rw (guid_loop, e) (ap (guid_loop rounds (i + 1) arg) or)

guid_loop-colon_text :
    (i q : ℕ) (arg : Bytes) (b : ℕ) (bs : Bytes)
    → AllBytes (b ∷ bs)
    → drop (i * 3) arg ≡ colon_text b bs
    → i + length (b ∷ bs) ≡ 8
    → guid_loop (length (b ∷ bs)) i arg (q * 2 ^ (8 * length (b ∷ bs)))
      ≡ some (big_endian q (b ∷ bs))
unfolding guid_loop big_endian AllBytes
guid_loop-colon_text i q arg b [] (h, hs) e last =
    guid_loop_step 0 i (q * 2 ^ (8 * 1)) q b 0 arg h (guid_byte-colon_text i arg b [] h e)
      (omega (arith, last)) refl
    ∙ ap some (omega arith)
guid_loop-colon_text i q arg b (c ∷ bs) (h, hs) e more =
    let n = suc (length bs) in
    let there : drop ((i + 1) * 3) arg ≡ colon_text c bs =
      drop_third i arg ∙ ap (λ (s : Bytes). drop 3 s) e ∙ drop_byte b c bs in
    guid_loop_step n i (q * 2 ^ (8 * suc n)) q b n arg h (guid_byte-colon_text i arg b (c ∷ bs) h e)
      (omega (arith, more)) refl
    ∙ guid_loop-colon_text (i + 1) (q * 256 + b) arg c bs hs there (omega (arith, more))

get_or-drop : (n : ℕ) (s : Bytes) → get_or s (2 + n) 0 ≡ get_or (drop n s) 2 0
get_or-drop zero s = refl
get_or-drop (suc n) [] = refl
get_or-drop (suc n) (c ∷ s) = rw add-suc (get_or-drop n s)

columns-colon_text :
    (i : ℕ) (arg : Bytes) (b : ℕ) (bs : Bytes)
    → drop (i * 3) arg ≡ colon_text b bs
    → columns (length bs) i arg ≡ true
unfolding columns
columns-colon_text i arg b [] e = refl
columns-colon_text i arg b (c ∷ bs) e =
    let there = drop_third i arg ∙ ap (λ (s : Bytes). drop 3 s) e ∙ drop_byte b c bs in
    let colon : get_or arg (2 + i * 3) 0 ≡ b':' =
      get_or-drop (i * 3) arg ∙ ap (λ (s : Bytes). get_or s 2 0) e ∙ colon_third b c bs in
    rw (colon, columns-colon_text (i + 1) arg c bs there) refl

get_guid-colon_text :
    (b : ℕ) (bs : Bytes)
    → AllBytes (b ∷ bs)
    → length (b ∷ bs) ≡ 8
    → get_guid (colon_text b bs) ≡ some (big_endian 0 (b ∷ bs))
unfolding get_guid
get_guid-colon_text b bs h eight =
    let arg = colon_text b bs in
    let len : length arg ≡ 23 = omega (arith, length-colon_rest bs, eight) in
    let seven : length bs ≡ 7 = omega (arith, eight) in
    let start : 0 * 2 ^ (8 * length (b ∷ bs)) ≡ 0 = omega arith in
    let cols : columns 7 0 arg ≡ true =
      ap (λ (n : ℕ). columns n 0 arg) (sym seven) ∙ columns-colon_text 0 arg b bs refl in
    let read : guid_loop 8 0 arg 0 ≡ some (big_endian 0 (b ∷ bs)) =
      ap (λ (n : ℕ). guid_loop n 0 arg 0) (sym eight)
      ∙ ap (guid_loop (length (b ∷ bs)) 0 arg) (sym start)
      ∙ guid_loop-colon_text 0 0 arg b bs h refl (omega (arith, eight)) in
    rw (get_guid, len, cols) read

-- Eight bytes in a buffer of 24 or more: rt_addr_n2a_r shows them as an address of the link layer in a
-- text that get_guid reads as the number with these bytes, the most significant one first.
pub get_guid-rt_addr_n2a_r :
    (inet_ntop : ℕ → Bytes → ℕ → Option Bytes) (buflen b : ℕ) (bs : Bytes)
    → AllBytes (b ∷ bs)
    → length (b ∷ bs) ≡ 8
    → 24 ≤ buflen
    → (s : Bytes) × (rt_addr_n2a_r inet_ntop af_packet 8 (b ∷ bs) buflen ≡ shown s)
      × (get_guid s ≡ some (big_endian 0 (b ∷ bs)))
unfolding rt_addr_n2a_r
get_guid-rt_addr_n2a_r inet_ntop buflen b bs h eight room = (
  colon_text b bs,
  ap (λ (n : ℕ). rt_addr_n2a_r inet_ntop af_packet n (b ∷ bs) buflen) (sym eight)
      ∙ ll_addr_n2a-colon_text inet_ntop (λ s. none) b bs buflen (omega (arith, eight)),
  get_guid-colon_text b bs h eight,
)

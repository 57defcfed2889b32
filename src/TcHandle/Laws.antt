-- ===== src/TcHandle/Laws.antt =====
-- The handles of tc/tc_util.c, printed and read.
use libiproute.Prelude.{
  ℕ, zero, suc, ◌+◌, ◌-◌, ◌*◌, ◌/◌, ◌%◌, ◌^◌, ◌<◌, ◌≡◌, refl, arith, false, none, some, [], ◌∷◌,
  Bytes, codes, bytes_eq, take-whole, length, inl, inr, Option-cases,
}
use libiproute.Prelude.Bits.{bit_and-low_mask, bit_and-high_mask, bit_or_fields}
use libiproute.CLib.{strtoul, run_clib, print_num, print_before, digit_char}
use libiproute.CLib.Print.{Ends, print_before_first, print_before_zero, print_num-append}
use libiproute.CLib.Parse.{hexadecimal, strtoul-print_before}
use libiproute.TcHandle.{
  minor, major, tc_h_root, tc_h_unspec, tc_h_maj, tc_h_min, get_qdisc_handle, get_tc_classid,
  handle_text, print_tc_classid,
}

-- A text that starts with a hexadecimal digit.
first_digit :
    (n : ℕ) (rest : Bytes)
    → (d : ℕ) × (s : Bytes) × (print_before 16 n rest ≡ digit_char d ∷ s) × (d < 16)
first_digit zero rest = (0, rest, print_before_zero 16 rest (omega arith), omega arith)
first_digit (suc n) rest =
    let (d, s, same, pos, small) = print_before_first 16 (suc n) rest (omega arith) (omega arith) in
    (d, s, same, small)

no_word :
    (n : ℕ) (rest : Bytes)
    → (bytes_eq (print_before 16 n rest) (codes "root") ≡ false)
      × (bytes_eq (print_before 16 n rest) (codes "none") ≡ false)
unfolding bytes_eq
no_word n rest =
    let (d, s, same, small) = first_digit n rest in rw same (ground arith, ground arith)

strtoul-colon : (s : Bytes) → strtoul 16 (b':' ∷ s) ≡ none
unfolding run_clib
strtoul-colon [] = refl
strtoul-colon (c ∷ s) = refl

strtoul-empty : strtoul 16 [] ≡ none
unfolding run_clib
strtoul-empty = refl

fields : (h : ℕ) → h < 2 ^ 32 → (tc_h_maj h ≡ h / 2 ^ 16 * 2 ^ 16) × (tc_h_min h ≡ h % 2 ^ 16)
fields h small = (bit_and-high_mask 16 16 h small, bit_and-low_mask 16 h)

-- One of the two numbers of a handle with what stands around it.
read_number :
    (n : ℕ) (rest : Bytes)
    → n < 2 ^ 16
    → Ends rest
    → strtoul 16 (print_before 16 n rest) ≡ some (record { value = n; erange = false; rest = rest })
read_number n rest small e = strtoul-print_before hexadecimal n rest e (omega arith)

read_minor :
    (n : ℕ)
    → n < 2 ^ 16
    → strtoul 16 (print_num 16 n) ≡ some (record { value = n; erange = false; rest = [] })
unfolding print_num
read_minor n small = read_number n [] small tt

both_numbers :
    (maj min : ℕ)
    → maj < 2 ^ 16
    → min < 2 ^ 16
    → get_tc_classid (print_before 16 maj (b':' ∷ print_num 16 min)) ≡ some (maj * 2 ^ 16 + min)
unfolding get_tc_classid
both_numbers maj min small small' = ground (
  arith,
  no_word maj (b':' ∷ print_num 16 min),
  read_number maj (b':' ∷ print_num 16 min) small refl,
  read_minor min small',
  bit_or_fields 16 maj min small',
)

major_alone :
    (maj : ℕ)
    → maj < 2 ^ 16
    → (get_tc_classid (print_before 16 maj (b':' ∷ [])) ≡ some (maj * 2 ^ 16))
      × (get_qdisc_handle (print_before 16 maj (b':' ∷ [])) ≡ some (maj * 2 ^ 16))
unfolding get_tc_classid get_qdisc_handle
major_alone maj small = (
  ground (arith, no_word maj (b':' ∷ []), read_number maj (b':' ∷ []) small refl, strtoul-empty),
  ground (arith, no_word maj (b':' ∷ []), read_number maj (b':' ∷ []) small refl),
)

minor_alone : (min : ℕ) → min < 2 ^ 16 → get_tc_classid (b':' ∷ print_num 16 min) ≡ some min
unfolding get_tc_classid bytes_eq
minor_alone min small =
    ground
      (arith, strtoul-colon (print_num 16 min), read_minor min small, bit_or_fields 16 0 min small)

words_read :
    (get_tc_classid (codes "root") ≡ some tc_h_root)
    × (get_tc_classid (codes "none") ≡ some tc_h_unspec)
unfolding get_tc_classid bytes_eq
words_read = (refl, refl)

text_read : (h : ℕ) → h < 2 ^ 32 → get_tc_classid (handle_text h) ≡ some h
unfolding handle_text
text_read h small =
    let (maj, min) = fields h small in
    let whole : h / 2 ^ 16 * 2 ^ 16 / 2 ^ 16 ≡ h / 2 ^ 16 = omega arith in
    rw (maj, min, whole)
      (ground (
        arith,
        words_read,
        print_num-append 16 (h / 2 ^ 16) (b':' ∷ []),
        print_num-append 16 (h / 2 ^ 16) (b':' ∷ print_num 16 (h % 2 ^ 16)),
        both_numbers (h / 2 ^ 16) (h % 2 ^ 16),
        (major_alone (h / 2 ^ 16) (omega arith)).0,
        minor_alone (h % 2 ^ 16),
      ))

-- Every 32-bit handle that `print_tc_classid` prints whole and without a name is read back by
-- `get_tc_classid`.
pub get_tc_classid-print_tc_classid :
    (blen h : ℕ)
    → h < 2 ^ 32
    → length (handle_text h) < blen
    → get_tc_classid (print_tc_classid blen none h) ≡ some h
unfolding print_tc_classid
get_tc_classid-print_tc_classid blen h small room =
    rw (take-whole (blen - 1) (handle_text h) (omega arith)) (text_read h small)

qdisc_text_read :
    (maj : ℕ) → maj < 2 ^ 16 → get_qdisc_handle (handle_text (maj * 2 ^ 16)) ≡ some (maj * 2 ^ 16)
unfolding handle_text
qdisc_text_read maj small =
    let (high, low) = fields (maj * 2 ^ 16) (omega arith) in
    let whole : maj * 2 ^ 16 / 2 ^ 16 * 2 ^ 16 / 2 ^ 16 ≡ maj = omega arith in
    let none_left : maj * 2 ^ 16 % 2 ^ 16 ≡ 0 = omega arith in
    rw (high, low, whole, none_left)
      (ground (arith, none_read, print_num-append 16 maj (b':' ∷ []), (major_alone maj small).1))
  where
    none_read : get_qdisc_handle (codes "none") ≡ some tc_h_unspec
    none_read = unfold get_qdisc_handle bytes_eq in refl

-- The handle of a queueing discipline, whose second number is 0, is read back by
-- `get_qdisc_handle`.
pub get_qdisc_handle-print_tc_classid :
    (blen maj : ℕ)
    → maj < 2 ^ 16
    → length (handle_text (maj * 2 ^ 16)) < blen
    → get_qdisc_handle (print_tc_classid blen none (maj * 2 ^ 16)) ≡ some (maj * 2 ^ 16)
unfolding print_tc_classid
get_qdisc_handle-print_tc_classid blen maj small room =
    rw (take-whole (blen - 1) (handle_text (maj * 2 ^ 16)) (omega arith))
      (qdisc_text_read maj small)

minor-lt : (maj : ℕ) (s : Bytes) (h : ℕ) → maj < 2 ^ 16 → minor maj s ≡ some h → h < 2 ^ 32
minor-lt maj s h small e = elim (Option-cases (strtoul 16 s)) [
  | inl empty ↦ ground arith
  | inr (p, found) ↦ ground (arith, bit_or_fields 16 maj (p.value % 2 ^ 32))
]

major-lt : (maj : ℕ) (s : Bytes) (h : ℕ) → maj < 2 ^ 32 → major maj s ≡ some h → h < 2 ^ 32
major-lt maj [] h small e = ground arith
major-lt maj (c ∷ s) h small e = ground (arith, minor-lt maj s h)

classid-lt : (s : Bytes) (h : ℕ) → get_tc_classid s ≡ some h → h < 2 ^ 32
unfolding get_tc_classid
classid-lt s h e = elim (Option-cases (strtoul 16 s)) [
  | inl empty ↦ ground (arith, major-lt 0 s h)
  | inr (p, found) ↦ ground (arith, major-lt (p.value % 2 ^ 32) p.rest h)
]

-- What `get_tc_classid` and `get_qdisc_handle` accept has 32 bits, and a handle of a queueing
-- discipline has the second number 0.
pub get_tc_classid-lt :
    (s t : Bytes) (h q : ℕ)
    → get_tc_classid s ≡ some h
    → get_qdisc_handle t ≡ some q
    → (h < 2 ^ 32) × (q < 2 ^ 32) × (q % 2 ^ 16 ≡ 0)
unfolding get_qdisc_handle
get_tc_classid-lt s t h q e f = (classid-lt s h e, ground arith, ground arith)

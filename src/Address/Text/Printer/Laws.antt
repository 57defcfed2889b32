-- ===== src/Address/Text/Printer/Laws.antt =====
-- The texts that the printers of addresses in lib/utils.c and lib/ll_addr.c show, by their characters.
use libiproute.Prelude.{
  ℕ, zero, suc, ◌-◌, ◌*◌, ◌/◌, ◌%◌, ◌^◌, ◌<◌, take-whole, ◌≡◌, ◌≢◌, refl, ap, ◌∙◌, arith, Bool,
  true, false, Option, none, some, List, [], ◌∷◌, ◌++◌, ◌==◌, Bytes, codes, bytes_eq, bytes_eq→eq,
  take, length, All, Bool-cases, inl, inr,
}
use mathlib.Core.Path.{subst}
use libiproute.Prelude.Tables.{all_below, all_below→at}
use libiproute.CLib.{digit_char, run_clib}
use libiproute.Address.Text.{split_at, has_char, scan_byte, count_on, ll_addr_loop, label_bytes}
use libiproute.Address.Text.LinkLayer.{split_at-NoColon, NoColon}
use libiproute.Address.Text.Printer.{byte_text, colon_bytes, words}
use libiproute.Numbers.{be32}
use libiproute.Address.{word}

-- Bytes in hexadecimal, two digits each, with colons between them.
unfoldable pub colon_rest : Bytes → Bytes
colon_rest [] = []
colon_rest (b ∷ bs) = b':' ∷ (byte_text b ++ colon_rest bs)

abbrev pub colon_text : ℕ → Bytes → Bytes
colon_text b bs = byte_text b ++ colon_rest bs

abbrev is_byte : ℕ → Option ℕ → Bool
is_byte b none = false
is_byte b (some v) = v == b

is_byte→eq : (b : ℕ) (o : Option ℕ) → is_byte b o ≡ true → o ≡ some b
is_byte→eq b none h = ground arith
is_byte→eq b (some v) h = ground arith

-- All bytes, one by one.
abbrev reads_back : ℕ → Bool
reads_back b = is_byte b (scan_byte (byte_text b))

byte_table : all_below 256 reads_back ≡ true
unfolding all_below run_clib
byte_table = refl

scan_byte-byte_text : (b : ℕ) → b < 256 → scan_byte (byte_text b) ≡ some b
scan_byte-byte_text b h = is_byte→eq b _ (all_below→at 256 reads_back b byte_table h)

byte_text-NoColon : (b : ℕ) → b < 256 → All NoColon (byte_text b)
unfolding NoColon
byte_text-NoColon b h = (ground arith, (ground arith, tt))

pub colon_bytes-colon_rest :
    (room : ℕ) (bs : Bytes) → 3 * length bs < room → colon_bytes room bs ≡ colon_rest bs
unfolding colon_bytes colon_rest
colon_bytes-colon_rest room [] h = refl
colon_bytes-colon_rest room (b ∷ bs) h =
    let some_room : (room == 0) ≡ false = ground arith in
    let whole : take (room - 1) (b':' ∷ byte_text b) ≡ b':' ∷ byte_text b =
      take-whole (room - 1) (b':' ∷ byte_text b) (omega arith) in
    rw (some_room, whole, colon_bytes-colon_rest (room - 3) bs (omega arith)) refl

unfoldable pub AllBytes : Bytes → Type 0
AllBytes [] = Unit
AllBytes (b ∷ bs) = (b < 256) × AllBytes bs

ll_addr_loop_last :
    (len b : ℕ) (s front : Bytes)
    → split_at b':' s ≡ (front, none)
    → scan_byte front ≡ some b
    → ll_addr_loop (suc len) s ≡ some (1, b ∷ [])
unfolding ll_addr_loop
ll_addr_loop_last len b s front e f = ground arith

ll_addr_loop_more :
    (len b : ℕ) (s front rest : Bytes)
    → split_at b':' s ≡ (front, some rest)
    → scan_byte front ≡ some b
    → ll_addr_loop (suc len) s ≡ count_on b (ll_addr_loop len rest)
unfolding ll_addr_loop
ll_addr_loop_more len b s front rest e f = ground arith

pub ll_addr_loop-colon_text :
    (len b : ℕ) (bs : Bytes)
    → AllBytes (b ∷ bs)
    → length bs < len
    → ll_addr_loop len (colon_text b bs) ≡ some (length (b ∷ bs), b ∷ bs)
unfolding colon_rest AllBytes
ll_addr_loop-colon_text zero b bs h room = absurd (omega arith)
ll_addr_loop-colon_text (suc len) b [] (h, hs) room =
    let (cut, whole) = split_at-NoColon (byte_text b) [] (byte_text-NoColon b h) in
    ll_addr_loop_last len b (byte_text b) (byte_text b) whole (scan_byte-byte_text b h)
ll_addr_loop-colon_text (suc len) b (c ∷ bs) (h, hs) room =
    let (cut, whole) = split_at-NoColon (byte_text b) (colon_text c bs) (byte_text-NoColon b h) in
    ll_addr_loop_more len b (byte_text b ++ b':' ∷ colon_text c bs) (byte_text b) (colon_text c bs)
      cut (scan_byte-byte_text b h)
    ∙ ap (count_on b) (ll_addr_loop-colon_text len c bs hs (omega arith))

-- What the text of an address is made of.
abbrev pub AddrChar : ℕ → Type 0
AddrChar c = c < b'g'

AddrChar-ne-word : (s word : Bytes) → All AddrChar s → ¬ All AddrChar word → bytes_eq s word ≡ false
AddrChar-ne-word s word h other = elim (Bool-cases (bytes_eq s word)) [
  | inr e ↦ e
  | inl e ↦ absurd (other (subst (All AddrChar) (bytes_eq→eq s word e) h))
]

unfoldable pub Lacks : ℕ → ℕ → Type 0
Lacks c x = x ≢ c

pub has_char-Lacks : (c : ℕ) (s : Bytes) → All (Lacks c) s → has_char c s ≡ false
unfolding has_char Lacks
has_char-Lacks c [] h = refl
has_char-Lacks c (x ∷ s) (h, hs) = ground (arith, has_char-Lacks c s hs)

-- A text without the letters of "default", "all" and "any".
pub AddrChar-not_words :
    (s : Bytes)
    → All AddrChar s
    → (bytes_eq s (codes "default") ≡ false)
      × (bytes_eq s (codes "all") ≡ false)
      × (bytes_eq s (codes "any") ≡ false)
AddrChar-not_words s h = (
  AddrChar-ne-word s (codes "default") h (λ z. omega (arith, z.1.1.1.1.0)),
  AddrChar-ne-word s (codes "all") h (λ z. omega (arith, z.1.0)),
  AddrChar-ne-word s (codes "any") h (λ z. omega (arith, z.1.0)),
)

module _ (P : ℕ → Type 0) (each : (d : ℕ) → d < 16 → P (digit_char d)) (colon : P b':') where
  colon_rest-All : (bs : Bytes) → AllBytes bs → All P (colon_rest bs)
  unfolding colon_rest AllBytes
  colon_rest-All [] h = tt
  colon_rest-All (b ∷ bs) (h, hs) =
      (colon, (each (b / 16) (omega arith), (each (b % 16) (omega arith), colon_rest-All bs hs)))

  pub colon_text-All : (b : ℕ) (bs : Bytes) → AllBytes (b ∷ bs) → All P (colon_text b bs)
  unfolding AllBytes
  colon_text-All b bs (h, hs) =
      (each (b / 16) (omega arith), (each (b % 16) (omega arith), colon_rest-All bs hs))

pub word_of_bytes : (e : ℕ) → e < 2 ^ 32 → word (be32 e) 0 ≡ e
unfolding word
word_of_bytes e h =
    let low : e / 256 / 256 ≡ e / 65536 = omega arith in
    let high : e / 65536 / 256 ≡ e / 16777216 = omega arith in omega (arith, low, high)

pub words-label_bytes : (es : List ℕ) → All (λ (e : ℕ). e < 2 ^ 32) es → words (label_bytes es) ≡ es
unfolding words label_bytes
words-label_bytes [] h = refl
words-label_bytes (e ∷ es) (h, hs) = rw (word_of_bytes e h, words-label_bytes es hs) refl

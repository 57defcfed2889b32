-- ===== src/Hex.antt =====
-- Bytes in hexadecimal, in lib/utils.c: `get_hex`, `hexstring_n2a`, `hexstring_a2n` and `hex2mem`.
pub mod Laws
mod Runs
use Prim.Native.Nat.{bit_or}
use libiproute.Prelude.{
  ℕ, zero, suc, ◌+◌, ◌-◌, ◌*◌, ◌/◌, ◌%◌, ◌^◌, ◌&&◌, not, Option, none, some, List, [], ◌∷◌, leb,
  ltb, ◌==◌, if◌then◌else◌, ◌>>=◌, Bytes, length,
}
use libiproute.CLib.{Parsed, strtoul, digit_char}

-- `none` is -1.
unfoldable pub get_hex : ℕ → Option ℕ
get_hex c =
    if leb b'A' c && leb c b'F'
    then some (c - b'A' + 10)
    else if leb b'a' c && leb c b'f'
    then some (c - b'a' + 10)
    else if leb b'0' c && leb c b'9'
    then some (c - b'0')
    else none

-- The text in `buf`, two characters for each byte while they and the NUL fit `blen`.
unfoldable pub hexstring_n2a : Bytes → ℕ → Bytes
hexstring_n2a [] blen = []
hexstring_n2a (b ∷ bs) blen =
    let more = hexstring_n2a bs (blen - 2) in
    if ltb blen 3 then [] else digit_char (b / 16) ∷ digit_char (b % 16) ∷ more

-- The value of `strtoul` on the two characters, in 32 bits.
unfoldable pub two_chars : ℕ → ℕ → Option ℕ
two_chars c d = elim (strtoul 16 (c ∷ d ∷ [])) [
  | none ↦ none
  | some p ↦
      let tmp = p.value % 2 ^ 32 in
      elim p.rest [ [] ↦ if ltb 0xff tmp then none else some tmp | x ∷ s ↦ none ]
]

-- The loop while there is room for a byte and there are two characters left.
unfoldable pub a2n_loop : ℕ → Bytes → Option Bytes
a2n_loop zero str = some []
a2n_loop (suc room) [] = some []
a2n_loop (suc room) (c ∷ []) = some []
a2n_loop (suc room) (c ∷ d ∷ str) = do b ← two_chars c d; bs ← a2n_loop room str; some (b ∷ bs)

-- The bytes that are stored, or NULL.
unfoldable pub hexstring_a2n : Bytes → ℕ → Option Bytes
hexstring_a2n str blen = if not (length str % 2 == 0) then none else a2n_loop blen str

-- The bytes that are stored; at the end of the text stands the NUL, which is no digit.
unfoldable pub hex2mem : Bytes → ℕ → Option Bytes
hex2mem buf zero = some []
hex2mem [] (suc count) = none
hex2mem (c ∷ []) (suc count) = none
hex2mem (c ∷ d ∷ buf) (suc count) = do
  high ← get_hex c
  low ← get_hex d
  bs ← hex2mem buf count
  some (bit_or (high * 16 % 256) low ∷ bs)

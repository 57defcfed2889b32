-- ===== src/Strings.antt =====
-- Texts, in lib/utils.c: `matches`, `check_ifname`, `get_ifname`, `strlcpy`, `strlcat` and
-- `makeargs`, and `get_real_family`. A text has no NUL among its bytes.
pub mod Laws
pub mod Ends
pub mod Words
mod Runs
use libiproute.Prelude.{
  ℕ, zero, suc, ◌+◌, ◌-◌, Bool, true, false, not, ◌&&◌, ◌||◌, Option, none, some, List, [], ◌∷◌,
  ◌++◌, leb, ltb, ◌==◌, if◌then◌else◌, Bytes, length, take,
}
use libiproute.Prelude.Int.{ℤ, pos, negsuc}
use libiproute.CLib.{is_space}

-- `memcmp`, as a sign.
unfoldable pub memcmp : ℕ → Bytes → Bytes → ℤ
memcmp zero a b = pos 0
memcmp (suc n) [] b = pos 0
memcmp (suc n) (x ∷ a) [] = pos 0
memcmp (suc n) (x ∷ a) (y ∷ b) =
    let rest = memcmp n a b in if x == y then rest else if ltb x y then negsuc 0 else pos 1

unfoldable pub matches : Bytes → Bytes → ℤ
matches cmd pattern =
    if ltb (length pattern) (length cmd) then negsuc 0 else memcmp (length cmd) pattern cmd

abbrev pub ifnamsiz : ℕ
ifnamsiz = 16

-- `while (*name)`: no slash and no space.
unfoldable pub valid_chars : Bytes → Bool
valid_chars [] = true
valid_chars (c ∷ name) =
    let rest = valid_chars name in if c == b'/' || is_space c then false else rest

-- `true` is 0.
unfoldable pub check_ifname : Bytes → Bool
check_ifname [] = false
check_ifname (c ∷ name) = if leb ifnamsiz (length (c ∷ name)) then false else valid_chars (c ∷ name)

-- The text in `buf`; `none` is -1.
unfoldable pub get_ifname : Bytes → Option Bytes
get_ifname name = if check_ifname name then some name else none

-- The text in `dst` and the result; with `size` 0 the old text stays.
unfoldable pub strlcpy : Bytes → Bytes → ℕ → Bytes × ℕ
strlcpy dst src size = (if size == 0 then dst else take (size - 1) src, length src)

unfoldable pub strlcat : Bytes → Bytes → ℕ → Bytes × ℕ
unfolding strlcpy
strlcat dst src size =
    let dlen = length dst in
    if leb size dlen
    then (dst, dlen + length src)
    else (let (tail, srclen) = strlcpy [] src (size - dlen) in (dst ++ tail, dlen + srclen))

abbrev rtn_multicast : ℕ
rtn_multicast = 5

-- RTNL_FAMILY_IPMR and RTNL_FAMILY_IP6MR stand for AF_INET and AF_INET6.
unfoldable pub get_real_family : ℕ → ℕ → ℕ
get_real_family rtm_type rtm_family =
    if not (rtm_type == rtn_multicast)
    then rtm_family
    else if rtm_family == 128
    then 2
    else if rtm_family == 129
    then 10
    else rtm_family

-- `argv`, or the exits of `makeargs`. `endless` is no result of the code: no call yields it.
pub data Args : Type 0 where
  argv : List Bytes → Args
  too_many unterminated endless : Args

abbrev pub is_ws : ℕ → Bool
is_ws c = c == b' ' || c == 9 || c == 13 || c == 10

-- `cp += strspn(cp, ws)`
unfoldable pub skip_ws : Bytes → Bytes
skip_ws [] = []
skip_ws (c ∷ s) = let rest = skip_ws s in if is_ws c then rest else c ∷ s

-- The word up to a white space, and the text from there on.
unfoldable pub split_ws : Bytes → Bytes × Bytes
split_ws [] = ([], [])
split_ws (c ∷ s) = let (w, rest) = split_ws s in if is_ws c then ([], c ∷ s) else (c ∷ w, rest)

-- The text before the first `quote`, and the text behind it.
unfoldable pub split_quote : ℕ → Bytes → Option (Bytes × Bytes)
split_quote quote [] = none
split_quote quote (c ∷ s) =
    let rest = split_quote quote s in
    if c == quote then some ([], s) else elim rest [ none ↦ none | some p ↦ some (c ∷ p.0, p.1) ]

abbrev pub with_word : Bytes → Args → Args
with_word w (argv ws) = argv (w ∷ ws)
with_word w too_many = too_many
with_word w unterminated = unterminated
with_word w endless = endless

-- A round of the loop at `cp`, with room for `room` more words; `next` is the loop behind it.
unfoldable pub word_step : (ℕ → Bytes → Args) → ℕ → Bytes → Args
word_step next room cp = elim (skip_ws cp) [
  | [] ↦ argv []
  | c ∷ s ↦ elim room [
    | zero ↦ too_many
    | suc room' ↦
        if c == b'\'' || c == b'"'
        then (elim (split_quote c s) [
          | none ↦ unterminated
          | some p ↦ with_word p.0 (next room' p.1)
        ])
        else (elim (split_ws (c ∷ s)).1 [
          | [] ↦ argv ((split_ws (c ∷ s)).0 ∷ [])
          | x ∷ more ↦ with_word (split_ws (c ∷ s)).0 (next room' more)
        ])
  ]
]

-- Each round but the last takes a character at least.
unfoldable pub words_from : ℕ → ℕ → Bytes → Args
words_from zero room cp = endless
words_from (suc rounds) room cp = word_step (words_from rounds) room cp

-- `maxargs` counts the NULL behind the words.
unfoldable pub makeargs : Bytes → ℕ → Args
makeargs line maxargs = words_from (suc (length line)) (maxargs - 1) line

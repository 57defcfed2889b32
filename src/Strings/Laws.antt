-- ===== src/Strings/Laws.antt =====
-- What `matches`, `check_ifname` and `strlcat` decide and yield.
use libiproute.Prelude.{
  ℕ, zero, suc, ◌-◌, ◌<◌, ◌≤◌, ◌≡◌, ◌≢◌, ◌↔◌, refl, arith, true, false, [], ◌∷◌, ◌++◌, ◌==◌, Bytes,
  length, length-append, take, All, Bool-cases, inl, inr, ==→eq,
}
use mathlib.Core.Path.{ap₂}
use libiproute.Prelude.Int.{pos}
use libiproute.CLib.{is_space}
use libiproute.Strings.{memcmp, matches, valid_chars, check_ifname, ifnamsiz, strlcpy, strlcat}

memcmp→prefix :
    (p c : Bytes)
    → length c ≤ length p
    → memcmp (length c) p c ≡ pos 0
    → (rest : Bytes) × (p ≡ c ++ rest)
unfolding memcmp
memcmp→prefix p [] h e = (p, refl)
memcmp→prefix [] (y ∷ c) h e = absurd (omega arith)
memcmp→prefix (x ∷ p) (y ∷ c) h e = elim (Bool-cases (x == y)) [
  | inl same ↦
      let (rest, split) = memcmp→prefix p c (omega arith) (ground arith) in
      (rest, ap₂ (λ (t : ℕ) (ts : Bytes). t ∷ ts) (==→eq x y same) split)
  | inr differs ↦ ground arith
]

memcmp-append : (c rest : Bytes) → memcmp (length c) (c ++ rest) c ≡ pos 0
unfolding memcmp
memcmp-append [] rest = refl
memcmp-append (y ∷ c) rest = ground (arith, memcmp-append c rest)

-- `matches` answers 0 exactly if the command is a prefix of the pattern.
pub matches_iff :
    (cmd pattern : Bytes)
    → (matches cmd pattern ≡ pos 0) ↔ ((rest : Bytes) × (pattern ≡ cmd ++ rest))
unfolding matches
matches_iff cmd pattern = (
  λ e. memcmp→prefix pattern cmd (ground arith) (ground arith),
  λ (rest, split). rw split (ground (arith, length-append cmd rest, memcmp-append cmd rest)),
)

-- A character that an interface name may have.
abbrev pub IsNameChar : ℕ → Type 0
IsNameChar c = (c ≢ b'/') × (is_space c ≡ false)

valid_chars_iff : (name : Bytes) → (valid_chars name ≡ true) ↔ All IsNameChar name
unfolding valid_chars
valid_chars_iff [] = (λ h. tt, λ h. refl)
valid_chars_iff (c ∷ name) =
    let (there, back) = valid_chars_iff name in
    (
      λ h. ((ground arith, ground arith), there (ground arith)),
      λ ((slash, space), hs). ground (arith, back hs),
    )

-- `check_ifname` answers 0 exactly for the names of 1 to 15 characters without a slash or a white
-- space.
pub check_ifname_iff :
    (name : Bytes)
    → (check_ifname name ≡ true)
      ↔ ((1 ≤ length name) × (length name < ifnamsiz) × All IsNameChar name)
unfolding check_ifname
check_ifname_iff [] = (λ h. ground arith, λ h. ground arith)
check_ifname_iff (c ∷ name) =
    let (there, back) = valid_chars_iff (c ∷ name) in
    (
      λ h. (omega arith, ground arith, there (ground arith)),
      λ (some_, short, hs). ground (arith, back hs),
    )

take-append-le : (n : ℕ) (a b : Bytes) → length a ≤ n → take n (a ++ b) ≡ a ++ take (n - length a) b
take-append-le n [] b h = let same : n - 0 ≡ n = omega arith in rw same refl
take-append-le zero (x ∷ a) b h = absurd (omega arith)
take-append-le (suc n) (x ∷ a) b h =
    let same : suc n - suc (length a) ≡ n - length a = omega arith in
    rw (same, take-append-le n a b (omega arith)) refl

-- `strlcat` on a text that fits its buffer leaves the joined text, cut to `size - 1` bytes, and
-- yields the length that the joined text would have; `strlcpy` does the same with an empty text.
pub strlcat-take :
    (dst src : Bytes) (size : ℕ)
    → length dst < size
    → (strlcat dst src size ≡ (take (size - 1) (dst ++ src), length (dst ++ src)))
      × (strlcpy dst src size ≡ (take (size - 1) src, length src))
unfolding strlcat strlcpy
strlcat-take dst src size h =
    let order : size - length dst - 1 ≡ size - 1 - length dst = omega arith in
    (
      ground (arith, order, take-append-le (size - 1) dst src (omega arith), length-append dst src),
      ground arith,
    )

-- ===== src/Strings/Ends.antt =====
-- The rounds of `makeargs` of lib/utils.c.
use libiproute.Prelude.{
  ℕ, zero, suc, ◌-◌, ◌<◌, ◌≤◌, ◌≡◌, ◌≢◌, refl, ap, arith, ◌||◌, some, [], ◌∷◌, ◌==◌, Bytes, length,
  Bool-cases, Option-cases, List-cases, inl, inr,
}
use libiproute.Strings.{
  Args, argv, too_many, unterminated, endless, skip_ws, split_ws, split_quote, words_from,
  word_step, with_word, makeargs,
}

pub length-skip_ws : (s : Bytes) → length (skip_ws s) ≤ length s
unfolding skip_ws
length-skip_ws [] = omega arith
length-skip_ws (c ∷ s) = ground (arith, length-skip_ws s)

length-split_ws : (s : Bytes) → length (split_ws s).1 ≤ length s
unfolding split_ws
length-split_ws [] = omega arith
length-split_ws (c ∷ s) = ground (arith, length-split_ws s)

length-split_quote :
    (q : ℕ) (s : Bytes) (p : Bytes × Bytes) → split_quote q s ≡ some p → length p.1 < length s
unfolding split_quote
length-split_quote q [] p e = ground arith
length-split_quote q (c ∷ s) p e = elim (Option-cases (split_quote q s)) [
  | inl open_ ↦ ground arith
  | inr (r, found) ↦ ground (arith, length-split_quote q s r found)
]

with_word-endless : (w : Bytes) (a : Args) → a ≢ endless → with_word w a ≢ endless
with_word-endless w (argv ws) h e = cc
with_word-endless w too_many h e = cc
with_word-endless w unterminated h e = cc
with_word-endless w endless h e = h refl

-- One round, where the loop behind it ends on shorter texts.
word_step-ends :
    (next : ℕ → Bytes → Args) (room : ℕ) (s : Bytes)
    → ((room' : ℕ) (t : Bytes) → length t < length s → next room' t ≢ endless)
    → word_step next room s ≢ endless
unfolding word_step
word_step-ends next zero s ends = elim (List-cases (skip_ws s)) [
  | inl empty ↦ rw (word_step, empty) (λ e. cc)
  | inr (c, t, same) ↦ rw (word_step, same) (λ e. cc)
]
word_step-ends next (suc room) s ends = elim (List-cases (skip_ws s)) [
  | inl empty ↦ rw (word_step, empty) (λ e. cc)
  | inr (c, t, same) ↦
      let short : suc (length t) ≤ length s =
        omega (arith, length-skip_ws s, ap (λ (u : Bytes). length u) same) in
      rw (word_step, same)
        (elim (Bool-cases (c == b'\'' || c == b'"')) [
          | inl quote ↦ rw quote (elim (Option-cases (split_quote c t)) [
            | inl open_ ↦ rw open_ (λ e. cc)
            | inr (p, found) ↦
                let less = length-split_quote c t p found in
                rw found (with_word-endless p.0 _ (ends room p.1 (omega arith)))
          ])
          | inr plain ↦ rw plain (elim (List-cases (split_ws (c ∷ t)).1) [
            | inl last ↦ rw last (λ e. cc)
            | inr (x, more, behind) ↦
                let less = length-split_ws (c ∷ t) in
                rw behind (
                  with_word-endless _ _
                    (ends room more (omega (arith, ap (λ (u : Bytes). length u) behind))))
          ])
        ])
]

words_from-ends :
    (rounds room : ℕ) (s : Bytes) → length s < rounds → words_from rounds room s ≢ endless
unfolding words_from
words_from-ends zero room s h = absurd (omega arith)
words_from-ends (suc rounds) room s h =
    word_step-ends (words_from rounds) room s
      (λ room' t less. words_from-ends rounds room' t (omega arith))

-- `makeargs` ends: the rounds are enough for every line.
pub makeargs-ends : (line : Bytes) (maxargs : ℕ) → makeargs line maxargs ≢ endless
unfolding makeargs
makeargs-ends line maxargs = words_from-ends (suc (length line)) (maxargs - 1) line (omega arith)

-- ===== src/Strings/Words.antt =====
-- `makeargs` of lib/utils.c on a line that is put together from words.
use libiproute.Prelude.{
  ℕ, zero, suc, ◌-◌, ◌<◌, ◌≤◌, ◌≡◌, refl, ap, ◌∙◌, arith, false, ◌||◌, some, List, [], ◌∷◌, ◌++◌,
  map, append-nil, append_assoc, ◌==◌, Bytes, length, length-append, All,
}
use libiproute.Strings.{
  Args, argv, is_ws, skip_ws, split_ws, split_quote, words_from, word_step, with_word, makeargs,
}
use libiproute.Strings.Ends.{length-skip_ws}

-- What an argument is written as: a word, or a text in double quotes.
pub data Item : Type 0 where
  word quoted : Bytes → Item

abbrev pub item_text : Item → Bytes
item_text (word w) = w
item_text (quoted w) = b'"' ∷ w ++ b'"' ∷ []

abbrev pub item_arg : Item → Bytes
item_arg (word w) = w
item_arg (quoted w) = w

abbrev pub NoSpace : Bytes → Type 0
NoSpace = All (λ (c : ℕ). is_ws c ≡ false)

-- A word is not empty, has no white space and does not start with a quote.
abbrev pub IsItem : Item → Type 0
IsItem (word []) = ⊥
IsItem (word (c ∷ w)) = ((c == b'\'' || c == b'"') ≡ false) × NoSpace (c ∷ w)
IsItem (quoted w) = All (λ (c : ℕ). (c == b'"') ≡ false) w

-- The line with a blank between its items.
unfoldable pub line_text : List Item → Bytes
line_text [] = []
line_text (i ∷ []) = item_text i
line_text (i ∷ j ∷ is) = item_text i ++ b' ' ∷ line_text (j ∷ is)

split_ws-word : (w rest : Bytes) → NoSpace w → split_ws (w ++ b' ' ∷ rest) ≡ (w, b' ' ∷ rest)
unfolding split_ws
split_ws-word [] rest h = refl
split_ws-word (c ∷ w) rest (h, hs) = ground (arith, split_ws-word w rest hs)

split_ws-end : (w : Bytes) → NoSpace w → split_ws w ≡ (w, [])
unfolding split_ws
split_ws-end [] h = refl
split_ws-end (c ∷ w) (h, hs) = ground (arith, split_ws-end w hs)

split_quote-append :
    (w rest : Bytes)
    → All (λ (c : ℕ). (c == b'"') ≡ false) w
    → split_quote b'"' (w ++ b'"' ∷ rest) ≡ some (w, rest)
unfolding split_quote
split_quote-append [] rest h = refl
split_quote-append (c ∷ w) rest (h, hs) = ground (arith, split_quote-append w rest hs)

skip_ws-item :
    (i : Item) (rest : Bytes) → IsItem i → skip_ws (item_text i ++ rest) ≡ item_text i ++ rest
unfolding skip_ws
skip_ws-item (word []) rest h = absurd h
skip_ws-item (word (c ∷ w)) rest (q, (h, hs)) = ground (arith, h)
skip_ws-item (quoted w) rest h = refl

skip_ws-line : (is : List Item) → All IsItem is → skip_ws (line_text is) ≡ line_text is
unfolding skip_ws line_text
skip_ws-line [] h = refl
skip_ws-line (i ∷ []) (h, hs) = rw (append-nil (item_text i)) at (skip_ws-item i [] h)
skip_ws-line (i ∷ j ∷ is) (h, hs) = skip_ws-item i (b' ' ∷ line_text (j ∷ is)) h

skip_ws-blank : (s : Bytes) → skip_ws (b' ' ∷ s) ≡ skip_ws s
unfolding skip_ws
skip_ws-blank s = refl

-- A round that meets a word, the last one or not, or a text in double quotes.
last_word :
    (next : ℕ → Bytes → Args) (room c : ℕ) (s t w : Bytes)
    → skip_ws s ≡ c ∷ t
    → (c == b'\'' || c == b'"') ≡ false
    → split_ws (c ∷ t) ≡ (w, [])
    → word_step next (suc room) s ≡ argv (w ∷ [])
unfolding word_step
last_word next room c s t w same plain split =
    let first = ap (λ (p : Bytes × Bytes). p.0) split in
    let behind = ap (λ (p : Bytes × Bytes). p.1) split in
    rw (word_step, same, plain, behind, first) refl

one_word :
    (next : ℕ → Bytes → Args) (room c x : ℕ) (s t w more : Bytes)
    → skip_ws s ≡ c ∷ t
    → (c == b'\'' || c == b'"') ≡ false
    → split_ws (c ∷ t) ≡ (w, x ∷ more)
    → word_step next (suc room) s ≡ with_word w (next room more)
unfolding word_step
one_word next room c x s t w more same plain split =
    let first = ap (λ (p : Bytes × Bytes). p.0) split in
    let behind = ap (λ (p : Bytes × Bytes). p.1) split in
    rw (word_step, same, plain, behind, first) refl

one_quoted :
    (next : ℕ → Bytes → Args) (room : ℕ) (s t w rest : Bytes)
    → skip_ws s ≡ b'"' ∷ t
    → split_quote b'"' t ≡ some (w, rest)
    → word_step next (suc room) s ≡ with_word w (next room rest)
unfolding word_step
one_quoted next room s t w rest same split = rw (word_step, same, split) refl

-- The rest of the line behind an item, white space in front of it or not.
words_from-line :
    (is : List Item) (rounds room : ℕ) (s : Bytes)
    → All IsItem is
    → skip_ws s ≡ line_text is
    → length s < rounds
    → length is ≤ room
    → words_from rounds room s ≡ argv (map item_arg is)
unfolding words_from line_text word_step
words_from-line is zero room s h same fuel fits = absurd (omega arith)
words_from-line [] (suc rounds) room s h same fuel fits = rw (word_step, same) refl
words_from-line (i ∷ is) (suc rounds) zero s h same fuel fits = absurd (omega arith)
words_from-line (word [] ∷ is) (suc rounds) (suc room) s (h, hs) same fuel fits = absurd h
words_from-line (word (c ∷ w) ∷ []) (suc rounds) (suc room) s ((plain, h), hs) same fuel fits =
    last_word (words_from rounds) room c s w (c ∷ w) same plain (split_ws-end (c ∷ w) h)
words_from-line (word (c ∷ w) ∷ j ∷ is) (suc rounds) (suc room) s ((plain, h), hs) same fuel fits =
    one_word (words_from rounds) room c b' ' s (w ++ b' ' ∷ line_text (j ∷ is)) (c ∷ w)
      (line_text (j ∷ is)) same plain (split_ws-word (c ∷ w) (line_text (j ∷ is)) h)
    ∙ ap (with_word (c ∷ w)) (
        words_from-line (j ∷ is) rounds room (line_text (j ∷ is)) hs (skip_ws-line (j ∷ is) hs)
          (omega (
            arith,
            length-skip_ws s,
            ap (λ (u : Bytes). length u) same,
            length-append w (b' ' ∷ line_text (j ∷ is)),
          ))
          (omega arith))
words_from-line (quoted w ∷ []) (suc rounds) (suc room) s (h, hs) same fuel fits =
    one_quoted (words_from rounds) room s (w ++ b'"' ∷ []) w [] same (split_quote-append w [] h)
    ∙ ap (with_word w) (
        words_from-line [] rounds room [] hs (unfold skip_ws in refl)
          (omega (
            arith,
            length-skip_ws s,
            ap (λ (u : Bytes). length u) same,
            length-append w (b'"' ∷ []),
          ))
          (omega arith))
words_from-line (quoted w ∷ j ∷ is) (suc rounds) (suc room) s (h, hs) same fuel fits =
    one_quoted (words_from rounds) room s (w ++ b'"' ∷ b' ' ∷ line_text (j ∷ is)) w
      (b' ' ∷ line_text (j ∷ is))
      (same ∙ ap (λ (u : Bytes). b'"' ∷ u) (append_assoc w (b'"' ∷ []) (b' ' ∷ line_text (j ∷ is))))
      (split_quote-append w (b' ' ∷ line_text (j ∷ is)) h)
    ∙ ap (with_word w) (
        words_from-line (j ∷ is) rounds room (b' ' ∷ line_text (j ∷ is)) hs
          (skip_ws-blank (line_text (j ∷ is)) ∙ skip_ws-line (j ∷ is) hs)
          (omega (
            arith,
            length-skip_ws s,
            ap (λ (u : Bytes). length u) same,
            length-append (w ++ b'"' ∷ []) (b' ' ∷ line_text (j ∷ is)),
            length-append w (b'"' ∷ []),
          ))
          (omega arith))

-- A line of words and of texts in double quotes, with a blank between them and room for all:
-- `makeargs` yields the words, and the texts without the quotes, in order.
pub makeargs-line_text :
    (is : List Item) (maxargs : ℕ)
    → All IsItem is
    → length is < maxargs
    → makeargs (line_text is) maxargs ≡ argv (map item_arg is)
unfolding makeargs
makeargs-line_text is maxargs h fits =
    words_from-line is (suc (length (line_text is))) (maxargs - 1) (line_text is) h
      (skip_ws-line is h) (omega arith) (omega arith)

-- ===== src/Strings/Runs.antt =====
-- Concrete runs, and the theorems at concrete inputs.
use libiproute.Prelude.{◌≡◌, refl, arith, [], ◌∷◌, codes, map}
use libiproute.Prelude.Int.{pos}
use libiproute.Strings.{
  memcmp, matches, argv, unterminated, skip_ws, split_ws, split_quote, word_step, words_from,
  makeargs,
}
use libiproute.Strings.Words.{word, quoted, item_arg, line_text, makeargs-line_text}

link_name : matches (codes "li") (codes "link") ≡ pos 0
unfolding matches memcmp
link_name = refl

two_args :
    makeargs (codes "  link 'my if' x") 10 ≡ argv (codes "link" ∷ codes "my if" ∷ codes "x" ∷ [])
unfolding makeargs words_from word_step skip_ws split_ws split_quote
two_args = refl

open_quote : makeargs (codes "link 'my") 10 ≡ unterminated
unfolding makeargs words_from word_step skip_ws split_ws split_quote
open_quote = refl

makeargs-line_text_example :
    makeargs (line_text (word (codes "ip") ∷ quoted (codes "a b") ∷ [])) 4
    ≡ argv (map item_arg (word (codes "ip") ∷ quoted (codes "a b") ∷ []))
makeargs-line_text_example =
    makeargs-line_text (word (codes "ip") ∷ quoted (codes "a b") ∷ []) 4
      ((refl, (refl, (refl, tt))), ((refl, (refl, (refl, tt))), tt)) (omega arith)

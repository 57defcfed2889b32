-- ===== src/Hex/Runs.antt =====
-- Concrete runs, and the theorems at concrete inputs.
use libiproute.Prelude.{◌≡◌, refl, none, some, [], ◌∷◌, codes}
use libiproute.CLib.{run_clib}
use libiproute.Hex.{get_hex, hexstring_n2a, two_chars, a2n_loop, hexstring_a2n, hex2mem}

cut : hexstring_n2a (0 ∷ 171 ∷ 255 ∷ []) 6 ≡ codes "00ab"
unfolding hexstring_n2a run_clib
cut = refl

-- `strtoul` takes a blank for the first of two digits.
blank_digit : hexstring_a2n (codes " 1fE") 8 ≡ some (1 ∷ 254 ∷ [])
unfolding hexstring_a2n a2n_loop two_chars run_clib
blank_digit = refl

odd : hexstring_a2n (codes "abc") 8 ≡ none
unfolding hexstring_a2n
odd = refl

too_short : hex2mem (codes "abc") 2 ≡ none
unfolding hex2mem get_hex
too_short = refl

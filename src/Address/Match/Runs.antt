-- ===== src/Address/Match/Runs.antt =====
-- Concrete runs, and the theorem at a concrete input.
use libiproute.Prelude.{◌≡◌, ◌↔◌, ◌<◌, ℕ, zero, suc, refl, arith, [], ◌∷◌, Bytes}
use libiproute.Prelude.Int.{pos, negsuc}
use libiproute.Address.{word}
use libiproute.Address.Match.{inet_addr_match}
use libiproute.Address.Match.Laws.{IsBytes, address_bit, inet_addr_match_iff}

abbrev net_a : Bytes
net_a = 10 ∷ 1 ∷ 2 ∷ 3 ∷ []

abbrev net_b : Bytes
net_b = 10 ∷ 1 ∷ 3 ∷ 3 ∷ []

slash_23 : inet_addr_match net_a net_b 23 ≡ pos 0
unfolding inet_addr_match word
slash_23 = refl

slash_24 : inet_addr_match net_a net_b 24 ≡ pos 1
unfolding inet_addr_match word
slash_24 = refl

slash_32 : inet_addr_match net_a net_b 32 ≡ negsuc 0
unfolding inet_addr_match word
slash_32 = refl

four-IsBytes : (a b c d : ℕ) → a < 256 → b < 256 → c < 256 → d < 256 → IsBytes (a ∷ b ∷ c ∷ d ∷ [])
four-IsBytes a b c d ha hb hc hd zero = ha
four-IsBytes a b c d ha hb hc hd (suc zero) = hb
four-IsBytes a b c d ha hb hc hd (suc (suc zero)) = hc
four-IsBytes a b c d ha hb hc hd (suc (suc (suc zero))) = hd
four-IsBytes a b c d ha hb hc hd (suc (suc (suc (suc i)))) = omega arith

inet_addr_match_iff_example :
    (inet_addr_match net_a net_b 23 ≡ pos 0)
    ↔ ((i : ℕ) → i < 23 → address_bit net_a i ≡ address_bit net_b i)
inet_addr_match_iff_example =
    inet_addr_match_iff net_a net_b
      (four-IsBytes 10 1 2 3 (omega arith) (omega arith) (omega arith) (omega arith))
      (four-IsBytes 10 1 3 3 (omega arith) (omega arith) (omega arith) (omega arith)) 23

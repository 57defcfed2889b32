-- ===== src/Parts/Runs.antt =====
-- Concrete runs, and the theorems at concrete inputs.
use libiproute.Prelude.{◌≡◌, refl, none, some, [], ◌∷◌, codes}
use libiproute.CLib.{run_clib}
use libiproute.Parts.{get_addr_ipv4, get_addr64}

legacy : get_addr_ipv4 (codes "10.8") ≡ some (10 ∷ 8 ∷ [])
unfolding get_addr_ipv4 run_clib
legacy = refl

too_many : get_addr_ipv4 (codes "1.2.3.4.5") ≡ none
unfolding get_addr_ipv4 run_clib
too_many = refl

token : get_addr64 (codes "1:ffff") ≡ some (1 ∷ 65535 ∷ [])
unfolding get_addr64 run_clib
token = refl

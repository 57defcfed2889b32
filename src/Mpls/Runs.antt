-- ===== src/Mpls/Runs.antt =====
-- Concrete runs, and the theorems at concrete inputs.
use libiproute.Prelude.{◌≡◌, refl, some, [], ◌∷◌, codes}
use libiproute.CLib.{run_clib}
use libiproute.Mpls.{mpls_pton, mpls_pton1, mpls_ntop, done, invalid, too_big, af_mpls, run_mpls}

two_labels : mpls_pton af_mpls (codes "100/0x10") 256 ≡ done (409600 ∷ 65792 ∷ [])
unfolding run_mpls run_clib
two_labels = refl

too_large : mpls_pton af_mpls (codes "1048576") 256 ≡ invalid
unfolding run_mpls run_clib
too_large = refl

no_room : mpls_ntop af_mpls (409600 ∷ 65792 ∷ []) 6 ≡ some too_big
unfolding run_mpls run_clib
no_room = refl

accepted : mpls_pton1 2 (codes "100/0x10") ≡ some (409600 ∷ 65792 ∷ [])
unfolding run_mpls run_clib
accepted = refl

-- ===== src/Dnet/Runs.antt =====
-- Concrete runs, and the theorems at concrete inputs.
use libiproute.Prelude.{◌≡◌, refl, some, codes}
use libiproute.Mpls.{done, invalid}
use libiproute.Dnet.{af_decnet, dnet_pton, dnet_ntop, unterminated, run_dnet}

reads : dnet_pton af_decnet (codes "63.1023") ≡ done 65535
unfolding run_dnet
reads = refl

node_too_large : dnet_pton af_decnet (codes "1.1024") ≡ invalid
unfolding run_dnet
node_too_large = refl

short_buffer : dnet_ntop af_decnet 65535 4 ≡ some (unterminated (codes "63.1"))
unfolding run_dnet
short_buffer = refl

-- ===== src/Ipx/Runs.antt =====
-- Concrete runs, and the theorem at a concrete input.
use libiproute.Prelude.{◌≡◌, refl, arith, some, [], ◌∷◌, ◌++◌, codes}
use libiproute.Mpls.{done, invalid}
use libiproute.Ipx.{af_ipx, IpxAddr, ipx_pton, ipx_ntop, open_text, full, run_ipx}
use libiproute.Ipx.Laws.{net_text, node_text, ipx_pton-ipx_ntop}

abbrev sample : IpxAddr
sample = record { ipx_net = 0x1a2b; ipx_node = 0 ∷ 0x16 ∷ 0x3e ∷ 0 ∷ 0 ∷ 0xff ∷ [] }

printed : ipx_ntop 4 sample 32 ≡ some (open_text (codes "00001A2B.00163E0000FF"))
unfolding run_ipx
printed = refl

cut_off : ipx_ntop 4 sample 10 ≡ some (full (codes "00001A2B.0"))
unfolding run_ipx
cut_off = refl

seven_digits :
    ipx_pton 4 (codes "0001a2b.0016:3e00:00ff")
    ≡ done (record { ipx_net = 0x1a2b; ipx_node = 0 ∷ 0x16 ∷ 0x3e ∷ 0 ∷ 0 ∷ 0xff ∷ [] })
unfolding run_ipx
seven_digits = refl

no_node :
    ipx_pton 4 (codes "12345678")
    ≡ done (record { ipx_net = 0x12345678; ipx_node = 0 ∷ 0 ∷ 0 ∷ 0 ∷ 0 ∷ 0 ∷ [] })
unfolding run_ipx
no_node = refl

ipx_pton-ipx_ntop_example :
    (ipx_ntop af_ipx sample 32
      ≡ some (open_text (net_text 0x1a2b 8 ++ b'.' ∷ node_text sample.ipx_node)))
    × (ipx_pton af_ipx (net_text 0x1a2b 8 ++ b'.' ∷ node_text sample.ipx_node) ≡ invalid)
ipx_pton-ipx_ntop_example = ipx_pton-ipx_ntop 32 sample refl (omega arith)

-- ===== src/Mask/Runs.antt =====
-- Concrete runs, and the theorem at a concrete input.
use libiproute.Prelude.{◌≡◌, ◌↔◌, ◌≤◌, refl, arith, none, some}
use libiproute.Mask.{mask2bits}
use libiproute.Mask.Laws.{mask2bits_iff, prefix_mask}

slash_24 : mask2bits 0xffff_ff00 ≡ some 24
unfolding mask2bits
slash_24 = refl

with_gap : mask2bits 0xff00_ff00 ≡ none
unfolding mask2bits
with_gap = refl

mask2bits_iff_example :
    (mask2bits 0xffff_ff00 ≡ some 24) ↔ ((24 ≤ 32) × (0xffff_ff00 ≡ prefix_mask 24))
mask2bits_iff_example = mask2bits_iff 0xffff_ff00 24 (omega arith)

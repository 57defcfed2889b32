-- ===== src/TcSize/Runs.antt =====
-- Concrete runs, and the theorems at concrete inputs.
use libiproute.Prelude.{◌+◌, ◌^◌, ◌≡◌, refl, true, [], ◌∷◌}
use libiproute.Prelude.Int.{pos, negsuc}
use libiproute.TcSize.{
  tc_align_to_atm, tc_adjust_size, log_loop, rounds_from, fill_down, again, linklayer_atm, SizeSpec,
  table, tc_calc_size_table,
}

-- A table of 4 sizes for an ATM link.
abbrev atm_spec : SizeSpec
atm_spec = record {
  cell_log = 0;
  size_log = 0;
  cell_align = pos 0;
  overhead = pos 0;
  linklayer = linklayer_atm;
  mpu = 0;
  mtu = 300000;
  tsize = 4;
}

-- Cells of 2^17 bytes need 4 more bits than 16.
atm_table :
    tc_calc_size_table true atm_spec
    ≡ table
        (record atm_spec { cell_log = 17; size_log = 4; cell_align = negsuc 0 })
        (9046 ∷ 18092 ∷ 27136 ∷ 36182 ∷ [])
unfolding tc_calc_size_table again rounds_from fill_down log_loop tc_adjust_size tc_align_to_atm
atm_table = refl

-- More entries than an `int` counts: none is written.
unwritten :
    tc_calc_size_table true (record atm_spec { tsize = 2 ^ 31 + 1 })
    ≡ table (record atm_spec { tsize = 2 ^ 31 + 1; cell_align = negsuc 0 }) []
unfolding tc_calc_size_table again rounds_from fill_down log_loop
unwritten = refl

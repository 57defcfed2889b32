-- ===== src/TcHandle/Runs.antt =====
-- Concrete runs, and the theorems at concrete inputs.
use libiproute.Prelude.{◌≡◌, refl, some, codes, bytes_eq}
use libiproute.CLib.{run_clib}
use libiproute.TcHandle.{get_qdisc_handle, get_tc_classid, handle_text, print_tc_classid}

named : print_tc_classid 64 (some (codes "web")) 0x1000a ≡ codes "web#1:a"
unfolding print_tc_classid handle_text run_clib
named = refl

-- The first number is taken modulo 2^32.
wrapped : get_qdisc_handle (codes "100000001:") ≡ some 0x10000
unfolding get_qdisc_handle bytes_eq run_clib
wrapped = refl

colon_alone : get_tc_classid (codes ":") ≡ some 0
unfolding get_tc_classid bytes_eq run_clib
colon_alone = refl

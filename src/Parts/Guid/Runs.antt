-- ===== src/Parts/Guid/Runs.antt =====
-- GUIDs at concrete inputs.
use libiproute.Prelude.{◌≡◌, refl, arith, ℕ, Option, none, some, [], ◌∷◌, Bytes, codes}
use libiproute.CLib.{run_clib}
use libiproute.Address.{af_packet}
use libiproute.Address.Text.Printer.{shown, rt_addr_n2a_r}
use libiproute.Address.Text.Printer.Laws.{AllBytes}
use libiproute.Parts.Guid.{columns, guid_byte, guid_loop, get_guid}
use libiproute.Parts.Guid.Laws.{big_endian, get_guid-rt_addr_n2a_r}

guid : get_guid (codes "00:11:22:33:44:55:66:ff") ≡ some 0x112233445566ff
unfolding get_guid columns guid_byte guid_loop run_clib
guid = refl

-- A blank or a sign passes for a digit.
blank_and_sign : get_guid (codes " 0:+1:22:33:44:55:66:ff") ≡ some 0x12233445566ff
unfolding get_guid columns guid_byte guid_loop run_clib
blank_and_sign = refl

one_digit : get_guid (codes "00:11:22:33:44:55:66:f") ≡ none
unfolding get_guid columns guid_byte guid_loop run_clib
one_digit = refl

no_text : ℕ → Bytes → ℕ → Option Bytes
no_text af addr buflen = none

abbrev guid_bytes : Bytes
guid_bytes = 0 ∷ 0x11 ∷ 0x22 ∷ 0x33 ∷ 0x44 ∷ 0x55 ∷ 0x66 ∷ 0xff ∷ []

guid_bytes-AllBytes : AllBytes guid_bytes
unfolding AllBytes
guid_bytes-AllBytes = ground arith

get_guid-rt_addr_n2a_r_example :
    (s : Bytes) × (rt_addr_n2a_r no_text af_packet 8 guid_bytes 64 ≡ shown s)
    × (get_guid s ≡ some (big_endian 0 guid_bytes))
get_guid-rt_addr_n2a_r_example =
    get_guid-rt_addr_n2a_r no_text 64 0 (0x11 ∷ 0x22 ∷ 0x33 ∷ 0x44 ∷ 0x55 ∷ 0x66 ∷ 0xff ∷ [])
      guid_bytes-AllBytes refl (omega arith)

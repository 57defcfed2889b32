-- ===== src/Numbers/Runs.antt =====
-- Concrete runs, and the theorems at concrete inputs.
use libiproute.Prelude.{◌≡◌, ◌-◌, ◌^◌, refl, true, false, none, some, codes, ◌>>=◌}
use libiproute.CLib.{run_clib}
use libiproute.Numbers.{get_unsigned, get_u64, get_u32, get_u16, get_u8, get_s8, no_more_than}
use libiproute.Numbers.Laws.{spelled, get_u32-spelled}

octal : get_u8 false (some (codes " 0377")) 0 ≡ some 255
unfolding get_u8 run_clib
octal = refl

-- A minus sign is taken modulo 2^64, and the result may well fit.
negative : get_u8 false (some (codes "-18446744073709551615")) 0 ≡ some 1
unfolding get_u8 run_clib
negative = refl

-- ERANGE of an earlier call makes the largest value look like an overflow.
stale_errno : get_u64 true (some (codes "18446744073709551615")) 10 ≡ none
unfolding get_u64 run_clib
stale_errno = refl

too_small : get_s8 false (some (codes "-129")) 10 ≡ none
unfolding get_s8 run_clib
too_small = refl

get_u32-spelled_example :
    (get_u32 true (some (codes "0x10")) 0
      ≡ (spelled 0 (codes "0x10") >>= no_more_than (2 ^ 32 - 1)))
    × (get_unsigned true (some (codes "0x10")) 0
        ≡ (spelled 0 (codes "0x10") >>= no_more_than (2 ^ 32 - 1)))
    × (get_u16 true (some (codes "0x10")) 0 ≡ (spelled 0 (codes "0x10") >>= no_more_than 0xffff))
    × (get_u8 true (some (codes "0x10")) 0 ≡ (spelled 0 (codes "0x10") >>= no_more_than 0xff))
get_u32-spelled_example = get_u32-spelled true 0 (codes "0x10")

-- ===== src/U32/Runs.antt =====
-- Concrete runs of tc/f_u32.c, and the theorems at concrete inputs: an IPv4 packet to 10.1.2.3.
use libiproute.Prelude.{
  ◌^◌, ◌<◌, ◌≡◌, refl, arith, false, none, some, List, [], ◌∷◌, if◌then◌else◌, Bytes, codes,
  bytes_eq,
}
use libiproute.Prelude.Int.{ℤ, pos, eq_int}
use libiproute.CLib.{run_clib}
use libiproute.Numbers.{get_u32, get_integer}
use libiproute.Strings.{matches, memcmp}
use libiproute.Netlink.Build.{Msg}
use libiproute.U32.{Key, Sel, pack_key, pack_key8}
use libiproute.U32.Handle.{get_u32_handle, sprint_u32_handle}
use libiproute.U32.Handle.Laws.{get_u32_handle-sprint_u32_handle, get_u32_handle_shifts}
use libiproute.U32.Laws.{Packet, IsKey, Packs, pack_key-Packs}
use libiproute.U32.Fields.{PacksField, byte_at, pack_key8-PacksField}
use libiproute.U32.Parse.{parse_u8, optional_at}
use libiproute.U32.Match.{parse_selector}
use libiproute.U32.Match.Laws.{AllSelectors, parse_selector-AllSelectors}

abbrev ping : Packet
ping off offmask = if eq_int off (pos 16) then 0x0a01_0203 else 0x4500_0054

ping_words : (off offmask : ℤ) → ping off offmask < 2 ^ 32
ping_words off offmask = ground arith

abbrev key_to : Key
key_to = record { mask = 0xff00_0000; val = 0x0a00_0000; off = pos 16; offmask = pos 0 }

abbrev to_ten : Sel
to_ten = record {
  flags = 0;
  offshift = 0;
  var_mask = [];
  off_base = 0;
  offoff = pos 0;
  hash_off = pos 0;
  hmask = [];
  keys = key_to ∷ [];
}

key_to-IsKey : IsKey key_to
key_to-IsKey = record { mask_lt = omega arith; val_lt = omega arith; inside = refl }

-- One more byte for the key that is there, and a contradiction to it.
merged :
    pack_key to_ten 0x0001_0000 0x00ff_0000 (pos 16) (pos 0)
    ≡ some (record to_ten {
      keys = record { mask = 0xffff_0000; val = 0x0a01_0000; off = pos 16; offmask = pos 0 } ∷ [];
    })
unfolding pack_key
merged = refl

clash : pack_key to_ten 0x0b00_0000 0xff00_0000 (pos 16) (pos 0) ≡ none
unfolding pack_key
clash = refl

-- match u8 6 0xff at 9: the protocol.
protocol :
    parse_u8 false
      (codes "6" ∷ codes "ff" ∷ codes "at" ∷ codes "9" ∷ [])
      (record to_ten { keys = [] })
      (pos 0)
      (pos 0)
    ≡ some (
      record to_ten {
        keys = record { mask = 0x00ff_0000; val = 0x0006_0000; off = pos 8; offmask = pos 0 } ∷ [];
      },
      [],
    )
unfolding parse_u8 optional_at get_u32 get_integer run_clib pack_key8 pack_key bytes_eq matches
    memcmp
protocol = refl

small_text : sprint_u32_handle false 0x8000_5003 ≡ codes "800:5:3"
unfolding sprint_u32_handle run_clib
small_text = refl

pack_key-Packs_example :
    Packs ping to_ten 0x0001_0000 0x00ff_0000
      (pos 16)
      (pos 0)
      (pack_key to_ten 0x0001_0000 0x00ff_0000 (pos 16) (pos 0))
pack_key-Packs_example =
    pack_key-Packs ping ping_words to_ten 0x0001_0000 0x00ff_0000 (pos 16) (pos 0) (omega arith)
      (key_to-IsKey, tt)

pack_key8-PacksField_example :
    PacksField ping to_ten
      (byte_at ping (pos 17) (pos 0))
      0xff
      1
      0xff
      (pack_key8 to_ten 1 0xff (pos 17) (pos 0))
pack_key8-PacksField_example =
    pack_key8-PacksField ping ping_words to_ten (key_to-IsKey, tt) 1 0xff (pos 17) (pos 0)

abbrev no_message : Msg
no_message = record { nlmsg_len = 36; mem = λ i. 0 }

abbrev command : List Bytes
command = codes "u8" ∷ codes "6" ∷ codes "ff" ∷ codes "at" ∷ codes "9" ∷ []

parse_selector-AllSelectors_example :
    AllSelectors
      (λ s. none)
      (λ s. none)
      false
      (parse_selector (λ s. none) (λ s. none) false 0 command to_ten no_message)
parse_selector-AllSelectors_example =
    parse_selector-AllSelectors (λ s. none) (λ s. none) false 0 command to_ten no_message
      ((key_to-IsKey, tt), omega arith)

get_u32_handle-sprint_u32_handle_example :
    get_u32_handle false (sprint_u32_handle false 0x8000_5003) ≡ some 0x8000_5003
get_u32_handle-sprint_u32_handle_example =
    get_u32_handle-sprint_u32_handle 0x8000_5003 (omega arith) false (omega arith)

get_u32_handle_shifts_example :
    get_u32_handle false (sprint_u32_handle false 0x5003) ≡ some 0x0050_3000
get_u32_handle_shifts_example =
    get_u32_handle_shifts 0x5003 (omega arith) false (omega arith) (omega arith) (omega arith)
      (omega arith)

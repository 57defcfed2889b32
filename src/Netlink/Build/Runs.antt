-- ===== src/Netlink/Build/Runs.antt =====
-- Concrete runs, and the theorems at concrete inputs.
use libiproute.Prelude.{
  ◌+◌, ◌-◌, ◌<◌, ◌≡◌, ◌⊎◌, refl, arith, true, false, none, [], ◌∷◌, ◌++◌, leb, if◌then◌else◌,
}
use libiproute.Netlink.Memory.{load}
use libiproute.Netlink.Parse.{parse_rtattr}
use libiproute.Netlink.Parse.Stream.{Attr, attr_size, Holds, stream_size, lookup_attr, payload_at}
use libiproute.Netlink.Build.{
  Msg, nlmsg_tail, addattr_l, addattr8, addattr32, addattrstrz, addattr_nest, addattr_nest_end,
  run_build,
}
use libiproute.Netlink.Build.Laws.{IsMessage}
use libiproute.Netlink.Build.Stream.{Appended, add_all, addattr_l-appends, parse_rtattr-add_all}
use libiproute.Netlink.Build.Nested.{nested, addattr_nest-stream}

-- A header of 16 bytes, all 0.
abbrev blank : Msg
blank = record { nlmsg_len = 16; mem = λ i. 0 }

abbrev name_attr : Attr
name_attr = record { type = 3; payload = 108 ∷ 111 ∷ 0 ∷ [] }

abbrev mtu_attr : Attr
mtu_attr = record { type = 4; payload = 0 ∷ 5 ∷ 0 ∷ 0 ∷ [] }

name_bytes :
    load (addattrstrz blank 64 3 (108 ∷ 111 ∷ [])).0.mem 16 8
    ≡ 7 ∷ 0 ∷ 3 ∷ 0 ∷ 108 ∷ 111 ∷ 0 ∷ 0 ∷ []
unfolding run_build
name_bytes = refl

no_room : (addattr32 blank 23 4 1280).1 ≡ false
unfolding run_build
no_room = refl

nest_bytes :
    let begun = addattr_nest blank 64 2 in
    load (addattr_nest_end (addattr8 begun.0 64 9 1).0 begun.1).mem 16 12
    ≡ 12 ∷ 0 ∷ 2 ∷ 0 ∷ 5 ∷ 0 ∷ 9 ∷ 0 ∷ 1 ∷ 0 ∷ 0 ∷ 0 ∷ []
unfolding run_build
nest_bytes = refl

addattr_l-appends_example :
    ((addattr_l blank 64 3 (108 ∷ 111 ∷ 0 ∷ [])).1 ≡ true)
      × Appended blank 64 16 [] name_attr (addattr_l blank 64 3 (108 ∷ 111 ∷ 0 ∷ [])).0
    ⊎ (addattr_l blank 64 3 (108 ∷ 111 ∷ 0 ∷ []) ≡ (blank, false))
      × (64 < nlmsg_tail blank + attr_size name_attr)
addattr_l-appends_example =
    addattr_l-appends blank 64 16 [] name_attr (omega arith, (λ i. omega arith), refl) (omega arith)
      (omega arith, omega arith, (omega arith, (omega arith, (omega arith, tt))))

parse_rtattr-add_all_example :
    let built = add_all blank 64 (name_attr ∷ mtu_attr ∷ []) in
    let parsed = parse_rtattr built.0.mem 8 16 (built.0.nlmsg_len - 16) in
    (built.1 ≡ true)
    × (parsed.1 ≡ false)
    × (payload_at built.0.mem (parsed.0 4)
        ≡ (if leb 4 8 then lookup_attr 4 (name_attr ∷ mtu_attr ∷ []) else none))
unfolding stream_size
parse_rtattr-add_all_example =
    parse_rtattr-add_all blank 64 8 4 (name_attr ∷ mtu_attr ∷ []) (omega arith) refl
      (λ i. omega arith) (omega arith)
      (
        (omega arith, omega arith, (omega arith, (omega arith, (omega arith, tt)))),
        (
          (
            omega arith,
            omega arith,
            (omega arith, (omega arith, (omega arith, (omega arith, tt)))),
          ),
          tt,
        ),
      )
      (omega arith)

addattr_nest-stream_example :
    let r = nested blank 64 2 (mtu_attr ∷ []) in
    IsMessage r 16
      ([] ++ record { type = 2; payload = load r.mem (16 + 4) (stream_size (mtu_attr ∷ [])) } ∷ [])
    × Holds r.mem (16 + 4) (mtu_attr ∷ []) r.nlmsg_len
unfolding stream_size
addattr_nest-stream_example =
    addattr_nest-stream blank 64 16 2 [] (mtu_attr ∷ []) (omega arith, (λ i. omega arith), refl)
      refl (omega arith) (omega arith)
      (
        (omega arith, omega arith, (omega arith, (omega arith, (omega arith, (omega arith, tt))))),
        tt,
      )
      (omega arith) (omega arith)

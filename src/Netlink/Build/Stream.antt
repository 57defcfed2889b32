-- ===== src/Netlink/Build/Stream.antt =====
-- A message that is built by calls of `addattr_l`, and what the parser reads in it.
use libiproute.Prelude.{
  ℕ, ◌+◌, ◌-◌, ◌^◌, ◌≤◌, ◌<◌, ◌≡◌, ◌⊎◌, inl, inr, append-nil, append_assoc, refl, sym, ◌∙◌, arith,
  Bool, true, false, none, List, [], ◌∷◌, ◌++◌, All, ltb, leb, ltb→lt, if◌then◌else◌, Bool-cases,
}
use libiproute.Netlink.Memory.{align4}
use libiproute.Netlink.Parse.{parse_rtattr}
use libiproute.Netlink.Parse.Laws.{IsMemory}
use libiproute.Netlink.Parse.Stream.{
  Attr, attr_len, attr_size, Holds, stream_size, lookup_attr, payload_at, parse_rtattr-Holds,
}
use libiproute.Netlink.Build.{Msg, nlmsg_tail, put_rtattr, addattr_l}
use libiproute.Netlink.Build.Laws.{
  put_rtattr_off, put_rtattr-At, put_rtattr-IsMemory, Holds-same, Holds-append, IsAttr, IsMessage,
  add-room, add-full,
}

-- What an appended attribute makes of a message.
abbrev pub Appended : Msg → ℕ → ℕ → List Attr → Attr → Msg → Type 0
Appended n maxlen start l a m =
    (m.nlmsg_len ≡ nlmsg_tail n + attr_size a)
    × (m.nlmsg_len ≤ maxlen)
    × IsMessage m start (l ++ a ∷ [])
    × ((i : ℕ) → (i < nlmsg_tail n) ⊎ (m.nlmsg_len ≤ i) → m.mem i ≡ n.mem i)

put_rtattr_outside :
    (n : Msg) (a : Attr)
    → attr_len a < 2 ^ 16
    → (i : ℕ) → (i < nlmsg_tail n) ⊎ (nlmsg_tail n + attr_size a ≤ i)
    → put_rtattr n.mem (nlmsg_tail n) a.type a.payload i ≡ n.mem i
put_rtattr_outside n a small i (inl h) =
    put_rtattr_off n.mem (nlmsg_tail n) a.type a.payload i (inl h)
put_rtattr_outside n a small i (inr h) =
    put_rtattr_off n.mem (nlmsg_tail n) a.type a.payload i (inr (omega arith))

pub put_rtattr-Holds :
    (n : Msg) (start : ℕ) (l : List Attr) (a : Attr)
    → Holds n.mem start l (nlmsg_tail n)
    → attr_len a < 2 ^ 16
    → a.type < 2 ^ 16
    → (stop : ℕ) → nlmsg_tail n + attr_size a ≡ stop
    → Holds (put_rtattr n.mem (nlmsg_tail n) a.type a.payload) start (l ++ a ∷ []) stop
put_rtattr-Holds n start l a holds small small_type stop e =
    let m = put_rtattr n.mem (nlmsg_tail n) a.type a.payload in
    Holds-append m start l (a ∷ []) (nlmsg_tail n) stop
      (Holds-same n.mem m start l (nlmsg_tail n)
        (λ i lo hi. sym (put_rtattr_outside n a small i (inl hi))) holds)
      (put_rtattr-At n.mem (nlmsg_tail n) a small small_type, e)

-- A message of attributes, shorter than 2^31 bytes as the limit is, and an attribute whose length
-- and type have 16 bits: `addattr_l` either appends the attribute, with the new length in the limit
-- and no byte written outside the attribute, or there is no room for it, and the message stays.
pub addattr_l-appends :
    (n : Msg) (maxlen start : ℕ) (l : List Attr) (a : Attr)
    → IsMessage n start l
    → maxlen < 2 ^ 31
    → IsAttr a
    → ((addattr_l n maxlen a.type a.payload).1 ≡ true)
        × Appended n maxlen start l a (addattr_l n maxlen a.type a.payload).0
      ⊎ (addattr_l n maxlen a.type a.payload ≡ (n, false)) × (maxlen < nlmsg_tail n + attr_size a)
addattr_l-appends n maxlen start l a (short, bytes, holds) limit (small, small_type, payload) =
    elim (Bool-cases (ltb maxlen (nlmsg_tail n + attr_size a))) [
      | inl full ↦
          let h = ltb→lt maxlen (nlmsg_tail n + attr_size a) full in
          inr (add-full n maxlen a short small h, h)
      | inr room ↦
          let h : nlmsg_tail n + attr_size a ≤ maxlen = ground (arith, room) in
          inl (
            rw (add-room n maxlen a short small h) (
              refl,
              (
                refl,
                h,
                (
                  omega arith,
                  put_rtattr-IsMemory n.mem (nlmsg_tail n) a.type a.payload bytes payload,
                  put_rtattr-Holds n start l a holds small small_type
                      (align4 (nlmsg_tail n + attr_size a)) (omega arith),
                ),
                put_rtattr_outside n a small,
              ),
            ))
    ]

-- Attributes that are added one by one, as far as there is room; the flag is true if all are.
unfoldable pub add_all : Msg → ℕ → List Attr → Msg × Bool
add_all n maxlen [] = (n, true)
add_all n maxlen (a ∷ l) =
    let r = addattr_l n maxlen a.type a.payload in
    let rest = add_all r.0 maxlen l in if r.1 then rest else r

-- With room for all of them, all are added.
pub add_all-Holds :
    (n : Msg) (maxlen start : ℕ) (l m : List Attr)
    → IsMessage n start l
    → nlmsg_tail n ≡ n.nlmsg_len
    → maxlen < 2 ^ 31
    → All IsAttr m
    → n.nlmsg_len + stream_size m ≤ maxlen
    → ((add_all n maxlen m).1 ≡ true)
      × IsMessage (add_all n maxlen m).0 start (l ++ m)
      × ((add_all n maxlen m).0.nlmsg_len ≡ n.nlmsg_len + stream_size m)
      × (nlmsg_tail (add_all n maxlen m).0 ≡ n.nlmsg_len + stream_size m)
unfolding add_all stream_size
add_all-Holds n maxlen start l [] h aligned limit attrs room =
    (refl, rw (append-nil l) h, omega arith, omega (arith, aligned))
add_all-Holds n maxlen start l (a ∷ m) h aligned limit (attr, attrs) room =
    elim (addattr_l-appends n maxlen start l a h limit attr) [
      | inl (ok, (len, fits, more, same)) ↦
          let rest =
            add_all-Holds (addattr_l n maxlen a.type a.payload).0 maxlen start (l ++ a ∷ []) m more
              (omega arith) limit attrs (omega arith) in
          let joined = rw (append_assoc l (a ∷ []) m) at rest in
          rw ok (joined.0, joined.1, omega (arith, joined.2), omega (arith, joined.3))
      | inr (e, full) ↦ absurd (omega arith)
    ]

-- A message whose length is a multiple of 4 below 2^31, and attributes for which the limit, also
-- below 2^31, has room, with lengths and types of 16 bits: all are added, and the parser finds
-- behind the old length, for each type up to `max`, the first payload that was added under the
-- type, and no deficit.
pub parse_rtattr-add_all :
    (n : Msg) (maxlen max t : ℕ) (l : List Attr)
    → n.nlmsg_len < 2 ^ 31
    → nlmsg_tail n ≡ n.nlmsg_len
    → IsMemory n.mem
    → maxlen < 2 ^ 31
    → All IsAttr l
    → n.nlmsg_len + stream_size l ≤ maxlen
    → let built = add_all n maxlen l in
      let parsed = parse_rtattr built.0.mem max n.nlmsg_len (built.0.nlmsg_len - n.nlmsg_len) in
      (built.1 ≡ true)
      × (parsed.1 ≡ false)
      × (payload_at built.0.mem (parsed.0 t) ≡ (if leb t max then lookup_attr t l else none))
parse_rtattr-add_all n maxlen max t l short aligned m limit attrs room =
    let (all, (small, bytes, holds), len, tail) =
      add_all-Holds n maxlen n.nlmsg_len [] l (short, m, sym aligned) aligned limit attrs room in
    let stop = tail ∙ sym len in
    let read =
      parse_rtattr-Holds (add_all n maxlen l).0.mem max t n.nlmsg_len l
        (add_all n maxlen l).0.nlmsg_len bytes (rw stop at holds) in
    (all, read.1, read.0)

-- ===== src/Netlink/Build/Nested.antt =====
-- Nested attributes: `addattr_nest`, the attributes inside, and `addattr_nest_end`.
use libiproute.Prelude.{
  ℕ, ◌+◌, ◌-◌, ◌^◌, ◌≤◌, ◌<◌, ◌≡◌, inl, inr, refl, sym, ap, ◌∙◌, arith, List, [], ◌∷◌, ◌++◌,
  append_assoc, All,
}
use libiproute.Netlink.Memory.{Memory, rta_len, rta_type, load, store, le16}
use libiproute.Netlink.Memory.Laws.{store_off, get16_same, get16-store, length-load}
use libiproute.Netlink.Parse.Stream.{
  Attr, At, Holds, Holds-front, Holds-back, Holds-stop, stream_size-aligned, stream_size,
}
use libiproute.Netlink.Build.{Msg, nlmsg_tail, put_rtattr, addattr_nest, addattr_nest_end}
use libiproute.Netlink.Build.Laws.{
  put_rtattr-IsMemory, Holds-same, Holds-append, IsAttr, IsMessage, add-room, store-IsMemory,
  le16-All,
}
use libiproute.Netlink.Build.Stream.{add_all, add_all-Holds, put_rtattr-Holds}

-- The attributes `l` inside an attribute of `type`.
abbrev pub nested : Msg → ℕ → ℕ → List Attr → Msg
nested n maxlen type l =
    let begun = addattr_nest n maxlen type in addattr_nest_end (add_all begun.0 maxlen l).0 begun.1

nest-begin :
    (n : Msg) (maxlen type : ℕ)
    → n.nlmsg_len < 2 ^ 31
    → nlmsg_tail n ≡ n.nlmsg_len
    → n.nlmsg_len + 4 ≤ maxlen
    → addattr_nest n maxlen type ≡ (
      record { nlmsg_len = n.nlmsg_len + 4; mem = put_rtattr n.mem n.nlmsg_len type [] },
      n.nlmsg_len,
    )
unfolding addattr_nest
nest-begin n maxlen type short aligned room =
    rw
      (
        add-room n maxlen (record { type = type; payload = [] }) short (omega arith) (omega arith),
        aligned,
      )
      refl

-- The length of an attribute at `off` is overwritten: its bytes are the payload now.
end-At :
    (mem : Memory) (off type size : ℕ)
    → 4 + size < 2 ^ 16
    → At mem off (record { type = type; payload = [] })
    → let m = store mem off (le16 (4 + size)) in
      At m off (record { type = type; payload = load m (off + 4) size })
unfolding rta_len rta_type le16
end-At mem off type size small (_, len, same, payload) =
    let m = store mem off (le16 (4 + size)) in
    let shorter = length-load m (off + 4) size in
    (
      omega (arith, shorter),
      omega (arith, shorter, get16-store mem off (4 + size)),
      get16_same m mem (off + 2) (store_off mem off (le16 (4 + size)) (off + 2) (inr (omega arith)))
            (store_off mem off (le16 (4 + size)) (off + 2 + 1) (inr (omega arith)))
          ∙ same,
      ap (load m (off + 4)) shorter,
    )

abbrev empty_attr : ℕ → Attr
empty_attr type = record { type = type; payload = [] }

-- The memory behind `addattr_nest_end`, where the message was built up to there.
end-nest :
    (mem : Memory) (start off type : ℕ) (before l : List Attr) (stop : ℕ)
    → Holds mem start (before ++ empty_attr type ∷ l) stop
    → start + stream_size before ≡ off
    → 4 + stream_size l < 2 ^ 16
    → let m = store mem off (le16 (4 + stream_size l)) in
      Holds m start
        (before ++ record { type = type; payload = load m (off + 4) (stream_size l) } ∷ [])
        stop
      × Holds m (off + 4) l stop
unfolding le16
end-nest mem start off type before l stop holds e fits =
    let m = store mem off (le16 (4 + stream_size l)) in
    let front = rw e at (Holds-front mem start before (empty_attr type ∷ l) stop holds) in
    let back = rw e at (Holds-back mem start before (empty_attr type ∷ l) stop holds) in
    let end = Holds-stop mem (off + 4) l stop back.1 in
    (
      Holds-append m start before
          (record { type = type; payload = load m (off + 4) (stream_size l) } ∷ []) off stop
          (Holds-same mem m start before off
            (λ i lo hi. sym (store_off mem off (le16 (4 + stream_size l)) i (inl hi))) front)
          (
            end-At mem off type (stream_size l) fits back.0,
            omega (arith, length-load m (off + 4) (stream_size l), stream_size-aligned l),
          ),
      Holds-same mem m (off + 4) l stop
          (λ i lo hi. sym (store_off mem off (le16 (4 + stream_size l)) i (inr (omega arith))))
          back.1,
    )

-- Attributes that are built between `addattr_nest` and `addattr_nest_end`, in a message of
-- attributes whose length is a multiple of 4, with room for all of it below 2^31 and a nest of
-- fewer than 2^16 bytes: the message has one more attribute, of the 16-bit type given to
-- `addattr_nest`, and its payload is the stream of the attributes that were added.
pub addattr_nest-stream :
    (n : Msg) (maxlen start type : ℕ) (before l : List Attr)
    → IsMessage n start before
    → nlmsg_tail n ≡ n.nlmsg_len
    → maxlen < 2 ^ 31
    → type < 2 ^ 16
    → All IsAttr l
    → n.nlmsg_len + 4 + stream_size l ≤ maxlen
    → 4 + stream_size l < 2 ^ 16
    → let r = nested n maxlen type l in
      IsMessage r start (
        before
        ++ record { type = type; payload = load r.mem (n.nlmsg_len + 4) (stream_size l) } ∷ [])
      × Holds r.mem (n.nlmsg_len + 4) l r.nlmsg_len
unfolding addattr_nest_end
addattr_nest-stream n maxlen start type before l (short, bytes, holds) aligned limit small attrs
      room fits =
    let begun : Msg = record {
      nlmsg_len = n.nlmsg_len + 4;
      mem = put_rtattr n.mem n.nlmsg_len type [];
    } in
    let whole : nlmsg_tail begun ≡ begun.nlmsg_len = omega (arith, aligned) in
    let first =
      put_rtattr-Holds n start before (empty_attr type) holds (omega arith) small (nlmsg_tail begun)
        (omega arith) in
    let (ok, (less, bytes', built), len, tail) =
      add_all-Holds begun maxlen start (before ++ empty_attr type ∷ []) l
        (omega arith, put_rtattr-IsMemory n.mem n.nlmsg_len type [] bytes tt, rw aligned at first)
        whole limit attrs (omega arith) in
    let joined = rw (append_assoc before (empty_attr type ∷ []) l) at built in
    let size : nlmsg_tail (add_all begun maxlen l).0 - n.nlmsg_len ≡ 4 + stream_size l =
      omega (arith, tail) in
    let ended =
      end-nest (add_all begun maxlen l).0.mem start n.nlmsg_len type before l _ joined
        (omega (arith, Holds-stop n.mem start before (nlmsg_tail n) holds)) fits in
    rw (nest-begin n maxlen type short aligned (omega arith), size)
      (
        (
          less,
          store-IsMemory (add_all begun maxlen l).0.mem n.nlmsg_len _ bytes'
              (le16-All (4 + stream_size l)),
          ended.0,
        ),
        rw (tail ∙ sym len) at ended.1,
      )

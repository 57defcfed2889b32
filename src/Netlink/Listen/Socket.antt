-- ===== src/Netlink/Listen/Socket.antt =====
-- What arrives at a socket, and the handler of `rtnl_listen`.
use libiproute.Prelude.{
  ℕ, zero, suc, ◌+◌, ◌-◌, ◌^◌, ◌≤◌, ◌<◌, ◌≡◌, refl, sym, ap, ◌∙◌, arith, true, false, ◌||◌, List,
  [], ◌∷◌, leb, ltb, ◌==◌, if◌then◌else◌, Bool-cases, inl, inr, Bytes, map, All,
}
use libiproute.Prelude.Int.{ℤ, pos, negsuc}
use libiproute.Netlink.Memory.{align4, get32}
use libiproute.Netlink.Build.{Msg}
use libiproute.Netlink.Recv.{Datagram, Outcome, failed, arrived, again, view, hdr_len}
use libiproute.Netlink.Dump.Single.{Frames, nlmsg_ok_bounds}
use libiproute.Netlink.Talk.{sockaddr_size}
use libiproute.Netlink.Talk.Laws.{malformed-ok}
use libiproute.Netlink.Listen.{
  content, enobufs, Heard, quits, listens, Round, told, hear_fuel, after_round, rtnl_listen,
}

-- The calls of `recvmsg` that are not passed over.
abbrev pub tidy : List Outcome → List Outcome
tidy [] = []
tidy (failed errno ∷ calls) =
    if again errno || errno == enobufs then tidy calls else failed errno ∷ tidy calls
tidy (arrived d ∷ calls) = arrived d ∷ tidy calls

-- A whole datagram from a sender with an address of the right size.
abbrev pub IsHeard : Datagram × List Msg → Type 0
IsHeard (d, ns) =
    (0 < d.len)
    × (d.len < 2 ^ 31)
    × (d.namelen ≡ sockaddr_size)
    × (d.truncated ≡ false)
    × Frames d.mem 0 d.len ns

not_failed :
    (errno : ℕ) (calls : List Outcome) (ds : List (Datagram × List Msg))
    → failed errno ∷ calls ≡ map (λ (y : Datagram × List Msg). arrived y.0) ds
    → ⊥
not_failed errno calls [] e = cc
not_failed errno calls (y ∷ ds) e = cc

module _ {S : Type 0} (handler : S → Bytes → S × ℤ) where
  abbrev pub said : S × ℤ → (S → Heard S) → Heard S
  said (s, pos n) next = next s
  said (s, negsuc n) next = quits s (negsuc n)

  -- The handler on one message after the other.
  abbrev pub say_all : List Msg → S → (S → Heard S) → Heard S
  say_all [] s next = next s
  say_all (n ∷ ns) s next = said (handler s (content n)) (λ t. say_all ns t next)

  abbrev pub say_datagrams : List (Datagram × List Msg) → S → Heard S
  say_datagrams [] s = listens s
  say_datagrams ((d, ns) ∷ ds) s = say_all ns s (say_datagrams ds)

  after-told :
      (d : Datagram) (y : S × ℤ) (next : S → Round S) (loop next' : S → Heard S)
      → ((t : S) → after_round handler d (next t) loop ≡ next' t)
      → after_round handler d (told handler y next) loop ≡ said y next'
  after-told d (t, pos n) next loop next' h = h t
  after-told d (t, negsuc n) next loop next' h = refl

  after-hear_fuel :
      (fuel : ℕ) (d : Datagram) (h status : ℕ) (ns : List Msg) (s : S) (loop : S → Heard S)
      → status ≤ fuel
      → status < 2 ^ 31
      → d.truncated ≡ false
      → Frames d.mem h status ns
      → after_round handler d (hear_fuel handler fuel d h status s) loop ≡ say_all ns s loop
  unfolding hear_fuel get32
  after-hear_fuel zero d h status [] s loop e k t f = rw (t, f) refl
  after-hear_fuel (suc fuel) d h status [] s loop e k t f = rw (t, f) refl
  after-hear_fuel zero d h status (n ∷ ns) s loop e k t (first, ok, fits, rest) =
      absurd (omega (arith, nlmsg_ok_bounds d.mem h status ok))
  after-hear_fuel (suc fuel) d h status (n ∷ ns) s loop e k t (first, ok, fits, rest) =
      let (room, header, inside) = nlmsg_ok_bounds d.mem h status ok in
      let size = align4 (hdr_len d.mem h) in
      let enough : ltb status 16 ≡ false = ground arith in
      let goes_on : leb size status ≡ true = ground arith in
      let well = malformed-ok 0 0 true d.mem h status ok k in
      let next : S → Round S = λ u. hear_fuel handler fuel d (h + size) (status - size) u in
      rw (enough, well, goes_on)
        (after-told d (handler s (content (view d.mem h))) next loop (λ u. say_all ns u loop)
            (λ u.
              after-hear_fuel fuel d (h + size) (status - size) ns u loop (omega arith)
                (omega arith) t rest)
          ∙ ap (λ (m : Msg). said (handler s (content m)) (λ u. say_all ns u loop)) (sym first))

  -- rtnl_listen hands the messages of the whole datagrams that arrive to the handler, one after the
  -- other, until the handler yields a negative result; a call of recvmsg that is interrupted, or
  -- fails for lack of buffers, changes nothing.
  pub rtnl_listen-say_datagrams :
      (calls : List Outcome) (ds : List (Datagram × List Msg)) (s : S)
      → All IsHeard ds
      → tidy calls ≡ map (λ (y : Datagram × List Msg). arrived y.0) ds
      → rtnl_listen handler calls s ≡ say_datagrams ds s
  unfolding rtnl_listen
  rtnl_listen-say_datagrams [] [] s w e = refl
  rtnl_listen-say_datagrams [] (y ∷ ds) s w e = cc
  rtnl_listen-say_datagrams (failed errno ∷ calls) ds s w e =
      elim (Bool-cases (again errno || errno == enobufs)) [
        | inl passes ↦ rw passes (rtnl_listen-say_datagrams calls ds s w (rw passes at e))
        | inr ends ↦ absurd (not_failed errno (tidy calls) ds (rw ends at e))
      ]
  rtnl_listen-say_datagrams (arrived d' ∷ calls) [] s w e = cc
  rtnl_listen-say_datagrams (arrived d' ∷ calls) ((d, ns) ∷ ds) s ((h, k, a, t, frames), ws) e =
      let same : d' ≡ d = ground arith in
      let rest : tidy calls ≡ map (λ (y : Datagram × List Msg). arrived y.0) ds = ground arith in
      let some_bytes : (d.len == 0) ≡ false = ground arith in
      let sender : (d.namelen == sockaddr_size) ≡ true = ground arith in
      ap (λ (x : Datagram). rtnl_listen handler (arrived x ∷ calls) s) same
      ∙ rw (some_bytes, sender)
          (after-hear_fuel d.len d 0 d.len ns s (rtnl_listen handler calls) (omega arith) k t frames
            ∙ ap (say_all ns s) (λ i u. rtnl_listen-say_datagrams calls ds u ws rest i))

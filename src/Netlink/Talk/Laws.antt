-- ===== src/Netlink/Talk/Laws.antt =====
-- A request of lib/libnetlink.c, by the messages that arrive, and the number 0 of a request.
use libiproute.Prelude.{
  ℕ, zero, suc, ◌+◌, ◌-◌, ◌^◌, ◌≤◌, ◌<◌, ◌≡◌, refl, sym, ap, ◌∙◌, arith, Bool, true, false, Option,
  none, some, List, [], ◌∷◌, leb, ltb, ◌==◌, if◌then◌else◌, Bool-cases, inl, inr, length, map, All,
}
use libiproute.Prelude.Int.{pos}
use libiproute.Netlink.Memory.{Memory, get32, align4}
use libiproute.Netlink.Build.{Msg}
use libiproute.Netlink.Recv.{
  Datagram, Outcome, Received, rtnl_recvmsg, view, hdr_len, nlmsg_ok, msg_seq,
}
use libiproute.Netlink.Dump.{minus}
use libiproute.Netlink.Dump.Single.{Frames, nlmsg_ok_bounds}
use libiproute.Netlink.Dump.Laws.{quiet, twice, IsWhole, recv_retry_idle, rtnl_recvmsg-quiet}
use libiproute.Netlink.Talk.{
  Reply, foreign, ack, nack, answering, reply_to, malformed, Talked, over, hangs, Scan, final, keep,
  react, scan_fuel, sockaddr_size, after_scan, talk_step, talk_fuel,
}

-- A datagram of the kernel that holds the messages.
abbrev pub IsReply : (ℕ → Bool) → Datagram × List Msg → Type 0
IsReply malloc y = IsWhole malloc y × (y.0.namelen ≡ sockaddr_size)

-- What a message means for a single request, and what follows if it means nothing.
abbrev pub conclude : Bool → ℕ → Datagram → Reply → Talked → Talked
conclude wants i d foreign rest = rest
conclude wants i d nack rest = over (minus i) none
conclude wants i d ack rest = over (pos 0) (keep wants d none)
conclude wants i d answering rest = if wants then over (pos 0) (some d) else rest

-- The messages of the datagram number `i`, and what follows.
abbrev pub settle : ℕ → ℕ → Bool → ℕ → Datagram → List Msg → Talked → Talked
settle pid seq wants i d [] rest = rest
settle pid seq wants i d (n ∷ ns) rest =
    conclude wants i d (reply_to pid seq 1 d.nl_pid n) (settle pid seq wants i d ns rest)

-- The datagrams behind the first `i` ones.
abbrev pub settle_all : ℕ → ℕ → Bool → ℕ → List (Datagram × List Msg) → Talked
settle_all pid seq wants i [] = hangs
settle_all pid seq wants i ((d, ns) ∷ ds) =
    settle pid seq wants (suc i) d ns (settle_all pid seq wants (suc i) ds)

after_either :
    (b : Bool) (i : ℕ) (d : Datagram) (skip : Scan) (loop : Option Datagram → Talked)
    (rest : Talked)
    → after_scan d none skip loop ≡ rest
    → after_scan d none (if b then final (over (pos 0) (some d)) else skip) loop
      ≡ (if b then over (pos 0) (some d) else rest)
after_either true i d skip loop rest h = refl
after_either false i d skip loop rest h = h

module _ (pid seq : ℕ) (wants : Bool) where
  -- One message, where the rest of the datagram is settled.
  after-react :
      (i : ℕ) (d : Datagram) (n : Msg) (c : Reply) (skip : Scan) (loop : Option Datagram → Talked)
      (rest : Talked)
      → after_scan d none skip loop ≡ rest
      → after_scan d none (react wants seq 1 (suc i) d none n c skip) loop
        ≡ conclude wants (suc i) d c rest
  after-react i d n foreign skip loop rest h = h
  after-react i d n nack skip loop rest h = refl
  after-react i d n ack skip loop rest h =
      let single : ltb (suc i) 1 ≡ false = ground arith in
      elim (Bool-cases (msg_seq n == seq)) [
        | inl same ↦ rw same refl
        | inr older ↦ rw (older, single) refl
      ]
  after-react i d n answering skip loop rest h = after_either wants i d skip loop rest h

  pub malformed-ok :
      (mem : Memory) (h len : ℕ)
      → nlmsg_ok mem h len ≡ true
      → len < 2 ^ 31
      → malformed (hdr_len mem h) len ≡ false
  unfolding malformed nlmsg_ok
  malformed-ok mem h len ok k = ground arith

  after-scan_fuel :
      (fuel i : ℕ) (d : Datagram) (h status : ℕ) (ns : List Msg) (loop : Option Datagram → Talked)
      → status ≤ fuel
      → status < 2 ^ 31
      → d.truncated ≡ false
      → Frames d.mem h status ns
      → after_scan d none (scan_fuel fuel pid wants seq 1 (suc i) d none h status) loop
        ≡ settle pid seq wants (suc i) d ns (loop none)
  unfolding scan_fuel get32
  after-scan_fuel zero i d h status [] loop e k t f = rw (t, f) refl
  after-scan_fuel (suc fuel) i d h status [] loop e k t f = rw (t, f) refl
  after-scan_fuel zero i d h status (n ∷ ns) loop e k t (first, ok, fits, rest) =
      absurd (omega (arith, nlmsg_ok_bounds d.mem h status ok))
  after-scan_fuel (suc fuel) i d h status (n ∷ ns) loop e k t (first, ok, fits, rest) =
      let (room, header, inside) = nlmsg_ok_bounds d.mem h status ok in
      let size = align4 (hdr_len d.mem h) in
      let enough : ltb status 16 ≡ false = ground arith in
      let goes_on : leb size status ≡ true = ground arith in
      let well = malformed-ok d.mem h status ok k in
      let skip = scan_fuel fuel pid wants seq 1 (suc i) d none (h + size) (status - size) in
      let reply = reply_to pid seq 1 d.nl_pid (view d.mem h) in
      rw (enough, well, goes_on)
        (after-react i d (view d.mem h) reply skip loop
            (settle pid seq wants (suc i) d ns (loop none))
            (after-scan_fuel fuel i d (h + size) (status - size) ns loop (omega arith) (omega arith)
              t rest)
          ∙ ap
              (λ (m : Msg).
                conclude wants (suc i) d (reply_to pid seq 1 d.nl_pid m)
                  (settle pid seq wants (suc i) d ns (loop none)))
              (sym first))

  pub talk_fuel-settle_all :
      (fuel i : ℕ) (malloc : ℕ → Bool) (calls : List Outcome) (ds : List (Datagram × List Msg))
      → length calls < fuel
      → All (IsReply malloc) ds
      → quiet calls ≡ twice (map (λ (y : Datagram × List Msg). y.0) ds)
      → talk_fuel fuel malloc pid wants seq 1 i none calls ≡ settle_all pid seq wants i ds
  unfolding talk_fuel rtnl_recvmsg
  talk_fuel-settle_all zero i malloc calls ds f w e = absurd (omega arith)
  talk_fuel-settle_all (suc fuel) i malloc calls [] f w e = rw (recv_retry_idle calls e) refl
  talk_fuel-settle_all (suc fuel) i malloc calls ((d, ns) ∷ ds) f
        (((h, k, m, t, frames), kernel), ws) e =
      let loop : List Outcome → Option Datagram → Talked =
        λ calls' answer'. talk_fuel fuel malloc pid wants seq 1 (suc i) answer' calls' in
      let (calls', received, e', shorter) =
        rtnl_recvmsg-quiet malloc calls (twice (map (λ (y : Datagram × List Msg). y.0) ds)) d h m
          e in
      let sender : (d.namelen == sockaddr_size) ≡ true = ground arith in
      let later = talk_fuel-settle_all fuel (suc i) malloc calls' ds (omega arith) ws e' in
      ap (λ (o : Option (Received × List Outcome)). talk_step pid wants seq 1 (suc i) none o loop)
        received
      ∙ rw sender (after-scan_fuel d.len i d 0 d.len ns (loop calls') (omega arith) k t frames)
      ∙ ap (settle pid seq wants (suc i) d ns) later

-- ===== src/Netlink/Talk/Runs.antt =====
-- Concrete runs, and the theorems at concrete inputs.
use libiproute.Prelude.{ℕ, ◌-◌, ◌^◌, ◌≡◌, refl, arith, true, false, none, List, [], ◌∷◌, Bytes, All}
use libiproute.Prelude.Int.{pos, negsuc}
use libiproute.Netlink.Memory.{store, load}
use libiproute.Netlink.Build.{Msg, run_build}
use libiproute.Netlink.Recv.{Datagram, Outcome, failed, arrived, view}
use libiproute.Netlink.Talk.{Socket, over, overruns, hangs, stamp_one, rtnl_talk, run_talk}
use libiproute.Netlink.Talk.Laws.{IsReply, settle_all}
use libiproute.Netlink.Talk.Ends.{
  next_seq, rtnl_talk-settle_all, rtnl_talk_refused, rtnl_talk_wraps,
}

-- A header of `len` bytes with a number, for the socket 7.
abbrev header : ℕ → ℕ → ℕ → Bytes → Bytes
header len type seq rest =
    len ∷ 0 ∷ 0 ∷ 0 ∷ type ∷ 0 ∷ 0 ∷ 0 ∷ seq ∷ 0 ∷ 0 ∷ 0 ∷ 7 ∷ 0 ∷ 0 ∷ 0 ∷ rest

abbrev datagram : ℕ → Bytes → Datagram
datagram len bytes = record {
  mem = store (λ i. 0) 0 bytes;
  len = len;
  nl_pid = 0;
  namelen = 12;
  truncated = false;
}

-- A message of another request, a refusal of request 6 with EPERM, and an acknowledgment.
abbrev stale : Datagram
stale = datagram 16 (header 16 20 2 [])

abbrev refusal : Datagram
refusal = datagram 36 (header 36 2 6 (255 ∷ 255 ∷ 255 ∷ 255 ∷ []))

abbrev acknowledgment : Datagram
acknowledgment = datagram 36 (header 36 2 6 (0 ∷ 0 ∷ 0 ∷ 0 ∷ []))

abbrev socket : Socket
socket = record { local_pid = 7; seq = 5 }

abbrev request : Msg
request = record { nlmsg_len = 16; mem = store (λ i. 0) 0 (header 16 18 0 []) }

abbrev calls_for : Datagram → List Outcome
calls_for d = arrived stale ∷ failed 4 ∷ arrived stale ∷ arrived d ∷ arrived d ∷ []

acknowledged :
    (rtnl_talk (λ k. true) socket false true request (calls_for acknowledgment)).2
    ≡ over (pos 0) none
unfolding run_talk
acknowledged = refl

refused_second :
    (rtnl_talk (λ k. true) socket true true request (calls_for refusal)).2 ≡ over (negsuc 1) none
unfolding run_talk
refused_second = refl

numbered : load (stamp_one false 6 request).mem 6 6 ≡ 4 ∷ 0 ∷ 6 ∷ 0 ∷ 0 ∷ 0 ∷ []
unfolding run_talk run_build
numbered = refl

-- A foreign message of 17 bytes leaves `status` at -3, and the loop reads on.
reads_on :
    (rtnl_talk
      (λ k. true)
      socket
      false
      true
      request
      (arrived (datagram 17 (header 17 20 2 (1 ∷ [])))
        ∷ arrived (datagram 17 (header 17 20 2 (1 ∷ [])))
        ∷ [])).2
    ≡ overruns
unfolding run_talk
reads_on = refl

stale-refusal-IsReply :
    All
      (IsReply (λ k. true))
      ((stale, view stale.mem 0 ∷ []) ∷ (refusal, view refusal.mem 0 ∷ []) ∷ [])
unfolding run_talk
stale-refusal-IsReply = (
  ((omega arith, omega arith, refl, refl, (refl, refl, omega arith, refl)), refl),
  (((omega arith, omega arith, refl, refl, (refl, refl, omega arith, refl)), refl), tt),
)

rtnl_talk-settle_all_example :
    rtnl_talk (λ k. true) socket true true request (calls_for refusal) ≡ (
      stamp_one true (next_seq socket) request ∷ [],
      next_seq socket,
      settle_all 7
          (next_seq socket)
          true
          0
          ((stale, view stale.mem 0 ∷ []) ∷ (refusal, view refusal.mem 0 ∷ []) ∷ []),
    )
rtnl_talk-settle_all_example =
    rtnl_talk-settle_all (λ k. true) socket true request (calls_for refusal)
      ((stale, view stale.mem 0 ∷ []) ∷ (refusal, view refusal.mem 0 ∷ []) ∷ [])
      stale-refusal-IsReply refl

rtnl_talk_refused_example :
    (rtnl_talk (λ k. true) socket true true request (calls_for refusal)).2 ≡ over (negsuc 1) none
unfolding run_talk
rtnl_talk_refused_example =
    rtnl_talk_refused (λ k. true) socket true request (calls_for refusal)
      ((stale, view stale.mem 0 ∷ []) ∷ []) [] refusal [] [] (view refusal.mem 0)
      stale-refusal-IsReply refl ((refl, tt), tt) tt refl

rtnl_talk_wraps_example :
    (rtnl_talk
      (λ k. true)
      (record { local_pid = 7; seq = 2 ^ 32 - 1 })
      true
      true
      request
      (calls_for refusal)).2
    ≡ hangs
unfolding run_talk
rtnl_talk_wraps_example =
    rtnl_talk_wraps (λ k. true) (record { local_pid = 7; seq = 2 ^ 32 - 1 }) true request
      (calls_for refusal) ((stale, view stale.mem 0 ∷ []) ∷ (refusal, view refusal.mem 0 ∷ []) ∷ [])
      refl stale-refusal-IsReply ((omega arith, tt), ((omega arith, tt), tt)) refl

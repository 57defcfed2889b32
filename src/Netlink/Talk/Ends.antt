-- ===== src/Netlink/Talk/Ends.antt =====
-- The results of `rtnl_talk`: by the messages that arrive, on a refusal, and at the wrap of the
-- counter of requests.
use libiproute.Prelude.{
  ℕ, suc, ◌+◌, ◌-◌, ◌%◌, ◌^◌, ◌<◌, ◌≡◌, refl, ap, ◌∙◌, arith, Bool, true, none, List, [], ◌∷◌, ◌++◌,
  length, map, All,
}
use libiproute.Prelude.Int.{negsuc}
use libiproute.Netlink.Build.{Msg}
use libiproute.Netlink.Recv.{Datagram, Outcome, msg_seq}
use libiproute.Netlink.Dump.{minus}
use libiproute.Netlink.Dump.Laws.{quiet, twice}
use libiproute.Netlink.Talk.{
  Socket, foreign, nack, reply_to, Talked, over, hangs, stamp, stamp_one, rtnl_talk_iov, rtnl_talk,
}
use libiproute.Netlink.Talk.Laws.{IsReply, settle, settle_all, talk_fuel-settle_all}

abbrev pub next_seq : Socket → ℕ
next_seq rtnl = (rtnl.seq + 1) % 2 ^ 32

-- One request is sent with the next number of the socket, and asks for an acknowledgment where no
-- answer is wanted. The first message that means something for it decides, in whatever datagrams the
-- messages come and however often recvmsg is interrupted: an acknowledgment yields 0, a refusal
-- -i, where i is the number of the datagram, and another message is the answer, if one is wanted.
-- The datagrams are whole, from a sender with an address of the right size, and there is memory.
pub rtnl_talk-settle_all :
    (malloc : ℕ → Bool) (rtnl : Socket) (wants : Bool) (n : Msg) (calls : List Outcome)
    (ds : List (Datagram × List Msg))
    → All (IsReply malloc) ds
    → quiet calls ≡ twice (map (λ (y : Datagram × List Msg). y.0) ds)
    → rtnl_talk malloc rtnl wants true n calls ≡ (
      stamp_one wants (next_seq rtnl) n ∷ [],
      next_seq rtnl,
      settle_all rtnl.local_pid (next_seq rtnl) wants 0 ds,
    )
unfolding rtnl_talk rtnl_talk_iov stamp
rtnl_talk-settle_all malloc rtnl wants n calls ds w e =
    let talked =
      talk_fuel-settle_all rtnl.local_pid (next_seq rtnl) wants (suc (length calls)) 0 malloc calls
        ds (omega arith) w e in
    λ j. (stamp_one wants (next_seq rtnl) n ∷ [], next_seq rtnl, talked j)

-- Messages that are not for the request.
abbrev pub AllForeign : ℕ → ℕ → ℕ → List Msg → Type 0
AllForeign pid seq nl_pid ns = All (λ (n : Msg). reply_to pid seq 1 nl_pid n ≡ foreign) ns

module _ (pid seq : ℕ) (wants : Bool) where
  settle_foreign :
      (i : ℕ) (d : Datagram) (before rest : List Msg) (t : Talked)
      → AllForeign pid seq d.nl_pid before
      → settle pid seq wants i d (before ++ rest) t ≡ settle pid seq wants i d rest t
  settle_foreign i d [] rest t h = refl
  settle_foreign i d (n ∷ before) rest t (h, hs) = rw h (settle_foreign i d before rest t hs)

  settle_skip :
      (i : ℕ) (d : Datagram) (ns : List Msg) (t : Talked)
      → AllForeign pid seq d.nl_pid ns
      → settle pid seq wants i d ns t ≡ t
  settle_skip i d [] t h = refl
  settle_skip i d (n ∷ ns) t (h, hs) = rw h (settle_skip i d ns t hs)

  settle_all_refused :
      (i : ℕ) (before after : List (Datagram × List Msg)) (d : Datagram) (pre post : List Msg)
      (n : Msg)
      → All (λ (y : Datagram × List Msg). AllForeign pid seq y.0.nl_pid y.1) before
      → AllForeign pid seq d.nl_pid pre
      → reply_to pid seq 1 d.nl_pid n ≡ nack
      → settle_all pid seq wants i (before ++ (d, pre ++ n ∷ post) ∷ after)
        ≡ over (minus (suc (i + length before))) none
  settle_all_refused i [] after d pre post n f g h =
      settle_foreign (suc i) d pre (n ∷ post) (settle_all pid seq wants (suc i) after) g
      ∙ rw h (ap (λ (k : ℕ). over (minus (suc k)) none) (omega arith))
  settle_all_refused i ((d', ns) ∷ before) after d pre post n (f, fs) g h =
      settle_skip (suc i) d' ns
        (settle_all pid seq wants (suc i) (before ++ (d, pre ++ n ∷ post) ∷ after)) f
      ∙ settle_all_refused (suc i) before after d pre post n fs g h
      ∙ ap (λ (k : ℕ). over (negsuc k) none) (omega arith)

-- Where the first message that is for the request refuses it, in the datagram after those that
-- `before` lists, the result is minus the number of that datagram, and no answer is given.
pub rtnl_talk_refused :
    (malloc : ℕ → Bool) (rtnl : Socket) (wants : Bool) (request : Msg) (calls : List Outcome)
    (before after : List (Datagram × List Msg)) (d : Datagram) (pre post : List Msg) (n : Msg)
    → All (IsReply malloc) (before ++ (d, pre ++ n ∷ post) ∷ after)
    → quiet calls
      ≡ twice (map (λ (y : Datagram × List Msg). y.0) (before ++ (d, pre ++ n ∷ post) ∷ after))
    → All
        (λ (y : Datagram × List Msg). AllForeign rtnl.local_pid (next_seq rtnl) y.0.nl_pid y.1)
        before
    → AllForeign rtnl.local_pid (next_seq rtnl) d.nl_pid pre
    → reply_to rtnl.local_pid (next_seq rtnl) 1 d.nl_pid n ≡ nack
    → (rtnl_talk malloc rtnl wants true request calls).2 ≡ over (negsuc (length before)) none
rtnl_talk_refused malloc rtnl wants request calls before after d pre post n w e f g h =
    let pid = rtnl.local_pid in
    ap (λ (x : List Msg × ℕ × Talked). x.2)
      (rtnl_talk-settle_all malloc rtnl wants request calls (before ++ (d, pre ++ n ∷ post) ∷ after)
        w e)
    ∙ settle_all_refused pid (next_seq rtnl) wants 0 before after d pre post n f g h
    ∙ ap (λ (k : ℕ). over (negsuc k) none) (omega arith)

-- A message of which the number fits into 32 bits is foreign to request number 0.
foreign_zero : (pid nl_pid : ℕ) (n : Msg) → msg_seq n < 2 ^ 32 → reply_to pid 0 1 nl_pid n ≡ foreign
unfolding reply_to
foreign_zero pid nl_pid n h = ground arith

AllForeign-zero :
    (pid nl_pid : ℕ) (ns : List Msg)
    → All (λ (m : Msg). msg_seq m < 2 ^ 32) ns
    → AllForeign pid 0 nl_pid ns
AllForeign-zero pid nl_pid [] h = tt
AllForeign-zero pid nl_pid (n ∷ ns) (h, hs) =
    (foreign_zero pid nl_pid n h, AllForeign-zero pid nl_pid ns hs)

hangs_zero :
    (pid : ℕ) (wants : Bool) (i : ℕ) (ds : List (Datagram × List Msg))
    → All (λ (y : Datagram × List Msg). All (λ (m : Msg). msg_seq m < 2 ^ 32) y.1) ds
    → settle_all pid 0 wants i ds ≡ hangs
hangs_zero pid wants i [] h = refl
hangs_zero pid wants i ((d, ns) ∷ ds) (h, hs) =
    settle_skip pid 0 wants (suc i) d ns (settle_all pid 0 wants (suc i) ds)
      (AllForeign-zero pid d.nl_pid ns h)
    ∙ hangs_zero pid wants (suc i) ds hs

-- When the counter of requests wraps to 0, no message is taken for an answer, and rtnl_talk waits for
-- ever, whatever the whole datagrams hold that arrive.
pub rtnl_talk_wraps :
    (malloc : ℕ → Bool) (rtnl : Socket) (wants : Bool) (n : Msg) (calls : List Outcome)
    (ds : List (Datagram × List Msg))
    → rtnl.seq ≡ 2 ^ 32 - 1
    → All (IsReply malloc) ds
    → All (λ (y : Datagram × List Msg). All (λ (m : Msg). msg_seq m < 2 ^ 32) y.1) ds
    → quiet calls ≡ twice (map (λ (y : Datagram × List Msg). y.0) ds)
    → (rtnl_talk malloc rtnl wants true n calls).2 ≡ hangs
rtnl_talk_wraps malloc rtnl wants n calls ds s w b e =
    let zero_next : next_seq rtnl ≡ 0 = omega arith in
    ap (λ (x : List Msg × ℕ × Talked). x.2) (rtnl_talk-settle_all malloc rtnl wants n calls ds w e)
    ∙ ap (λ (q : ℕ). settle_all rtnl.local_pid q wants 0 ds) zero_next
    ∙ hangs_zero rtnl.local_pid wants 0 ds b

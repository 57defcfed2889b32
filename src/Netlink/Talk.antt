-- ===== src/Netlink/Talk.antt =====
-- A request and its answer, lib/libnetlink.c: `__rtnl_talk_iov` and `rtnl_talk`. The texts on
-- stderr, and with them `nl_dump_ext_ack`, are left out.
pub mod Laws
pub mod Ends
mod Runs
use Prim.Native.Nat.{bit_or}
use libiproute.Prelude.{
  ℕ, zero, suc, ◌+◌, ◌-◌, ◌*◌, ◌/◌, ◌%◌, ◌^◌, Bool, true, false, not, ◌&&◌, ◌||◌, Option, none,
  some, List, [], ◌∷◌, leb, ltb, ◌==◌, if◌then◌else◌, length,
}
use libiproute.Prelude.Int.{ℤ, pos, negsuc}
use libiproute.Netlink.Memory.{Memory, get32, store, le16, align4}
use libiproute.Netlink.Build.{Msg, le32}
use libiproute.Netlink.Recv.{
  Datagram, Outcome, Received, refused, got, rtnl_recvmsg, view, msg_type, msg_flags, msg_seq,
  msg_pid, run_recv,
}
use libiproute.Netlink.Dump.{minus, nlmsg_error}

-- `local.nl_pid` and `seq` of `struct rtnl_handle`.
pub record Socket : Type 0 where
  pub local_pid : ℕ
  pub seq : ℕ

-- `h->nlmsg_seq = seq = ++rtnl->seq`, and NLM_F_ACK where no answer is wanted.
abbrev pub stamp_one : Bool → ℕ → Msg → Msg
stamp_one wants seq h =
    let numbered = store h.mem 8 (le32 seq) in
    record h { mem = if wants then numbered else store numbered 6 (le16 (bit_or (msg_flags h) 4)) }

-- The requests with their numbers, and `rtnl->seq` and `seq` behind the loop.
unfoldable pub stamp : Bool → ℕ → ℕ → List Msg → List Msg × ℕ × ℕ
stamp wants counter seq [] = ([], counter, seq)
stamp wants counter seq (h ∷ iov) =
    let next = (counter + 1) % 2 ^ 32 in
    let (rest, counter', seq') = stamp wants next next iov in
    (stamp_one wants next h ∷ rest, counter', seq')

-- What a message is to the request. The bound `seq - iovlen` has 64 bits, and `error` stands at 16
-- in a message of 36 bytes or more.
pub data Reply : Type 0 where
  foreign ack nack answering : Reply

unfoldable pub reply_to : ℕ → ℕ → ℕ → ℕ → Msg → Reply
reply_to local_pid seq iovlen nl_pid h =
    if not (nl_pid == 0)
      || not (msg_pid h == local_pid)
      || ltb seq (msg_seq h)
      || ltb (msg_seq h) ((seq + 2 ^ 64 - iovlen) % 2 ^ 64)
    then foreign
    else if not (msg_type h == nlmsg_error)
    then answering
    else if ltb h.nlmsg_len 36
    then nack
    else if get32 h.mem 16 == 0
    then ack
    else nack

-- `l < 0 || len > status`, where both are of type `int`.
unfoldable pub malformed : ℕ → ℕ → Bool
malformed len status =
    if ltb len (2 ^ 31) then ltb len 16 || ltb status len else leb (2 ^ 31 + 16) len

-- How the function ends: with a result and what `*answer` holds; at `iprt_exit(1)`; or it reads
-- behind the buffer; or it waits.
pub data Talked : Type 0 where
  over : ℤ → Option Datagram → Talked
  dies overruns hangs : Talked

-- How the loop over a datagram ends: as above, at `goto next`, or with `status` bytes left.
pub data Scan : Type 0 where
  final : Talked → Scan
  goes_next : Option Datagram → Scan
  left : ℕ → Scan

abbrev pub keep : Bool → Datagram → Option Datagram → Option Datagram
keep true d answer = some d
keep false d answer = answer

-- What becomes of a message; `i` is the number of the datagram, and `skip` what follows it.
abbrev pub react : Bool → ℕ → ℕ → ℕ → Datagram → Option Datagram → Msg → Reply → Scan → Scan
react wants seq iovlen i d answer h foreign skip = skip
react wants seq iovlen i d answer h nack skip = final (over (minus i) answer)
react wants seq iovlen i d answer h ack skip =
    if msg_seq h == seq
    then final (over (pos 0) (keep wants d answer))
    else if ltb i iovlen
    then goes_next (keep wants d answer)
    else final (over (pos 0) (keep wants d answer))
react wants seq iovlen i d answer h answering skip =
    if wants then final (over (pos 0) (some d)) else skip

-- `status` is an `int`, and compared as a number of 64 bits: below 0, the loop reads on behind the
-- buffer.
unfoldable pub scan_fuel : ℕ → ℕ → Bool → ℕ → ℕ → ℕ → Datagram → Option Datagram → ℕ → ℕ → Scan
unfolding malformed reply_to
scan_fuel zero pid wants seq iovlen i d answer h status = left status
scan_fuel (suc fuel) pid wants seq iovlen i d answer h status =
    let n = view d.mem h in
    let size = align4 n.nlmsg_len in
    let rest = scan_fuel fuel pid wants seq iovlen i d answer (h + size) (status - size) in
    let skip = if leb size status then rest else final overruns in
    if ltb status 16
    then left status
    else if malformed n.nlmsg_len status
    then final (if d.truncated then over (negsuc 0) answer else dies)
    else react wants seq iovlen i d answer n (reply_to pid seq iovlen d.nl_pid n) skip

-- `sizeof(struct sockaddr_nl)`
abbrev pub sockaddr_size : ℕ
sockaddr_size = 12

-- Behind the loop over a datagram; `loop` takes what `*answer` holds.
abbrev pub after_scan : Datagram → Option Datagram → Scan → (Option Datagram → Talked) → Talked
after_scan d answer (final t) loop = t
after_scan d answer (goes_next answer') loop = loop answer'
after_scan d answer (left status) loop =
    if d.truncated then loop answer else if status == 0 then loop answer else dies

abbrev pub talk_step :
    ℕ
    → Bool
    → ℕ
    → ℕ
    → ℕ
    → Option Datagram
    → Option (Received × List Outcome)
    → (List Outcome → Option Datagram → Talked)
    → Talked
talk_step pid wants seq iovlen i answer none loop = hangs
talk_step pid wants seq iovlen i answer (some (refused errno, calls)) loop =
    over (minus errno) answer
talk_step pid wants seq iovlen i answer (some (got d, calls)) loop =
    if not (d.namelen == sockaddr_size)
    then dies
    else after_scan d answer (scan_fuel d.len pid wants seq iovlen i d answer 0 d.len) (loop calls)

unfoldable pub talk_fuel :
    ℕ → (ℕ → Bool) → ℕ → Bool → ℕ → ℕ → ℕ → Option Datagram → List Outcome → Talked
unfolding scan_fuel rtnl_recvmsg
talk_fuel zero malloc pid wants seq iovlen i answer calls = hangs
talk_fuel (suc fuel) malloc pid wants seq iovlen i answer calls =
    talk_step pid wants seq iovlen (suc i) answer (rtnl_recvmsg malloc calls)
      (λ calls' answer'. talk_fuel fuel malloc pid wants seq iovlen (suc i) answer' calls')

-- `wants`: `answer` is not NULL; `sent`: `sendmsg` succeeds. The requests as they are sent, the
-- counter of the socket behind it, and the end.
unfoldable pub rtnl_talk_iov :
    (ℕ → Bool) → Socket → Bool → Bool → List Msg → List Outcome → List Msg × ℕ × Talked
unfolding stamp talk_fuel
rtnl_talk_iov malloc rtnl wants sent iov calls =
    let (requests, counter, seq) = stamp wants rtnl.seq 0 iov in
    let talked =
      talk_fuel (suc (length calls)) malloc rtnl.local_pid wants seq (length iov) 0 none calls in
    (requests, counter, if sent then talked else over (negsuc 0) none)

unfoldable pub rtnl_talk :
    (ℕ → Bool) → Socket → Bool → Bool → Msg → List Outcome → List Msg × ℕ × Talked
unfolding rtnl_talk_iov
rtnl_talk malloc rtnl wants sent n calls = rtnl_talk_iov malloc rtnl wants sent (n ∷ []) calls

-- For the runs.
unfoldable pub run_talk : ℕ
unfolding stamp reply_to malformed scan_fuel talk_fuel rtnl_talk_iov rtnl_talk run_recv
run_talk = 0

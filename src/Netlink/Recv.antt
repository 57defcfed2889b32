-- ===== src/Netlink/Recv.antt =====
-- Receiving datagrams, lib/libnetlink.c: `__rtnl_recvmsg` and `rtnl_recvmsg`. What the successive
-- calls of `recvmsg` yield is a list; where it ends, the call waits, and so does the code.
use libiproute.Prelude.{
  ℕ, ◌+◌, Bool, not, ◌&&◌, ◌||◌, Option, none, some, List, [], ◌∷◌, leb, ◌==◌, if◌then◌else◌,
}
use libiproute.Netlink.Memory.{Memory, get16, get32, store, load, le16}
use libiproute.Netlink.Build.{Msg}

-- The bytes in the buffer and how many there are, `nladdr.nl_pid`, `msg.msg_namelen`, and whether
-- `msg.msg_flags` has MSG_TRUNC.
pub record Datagram : Type 0 where
  pub mem : Memory
  pub len : ℕ
  pub nl_pid : ℕ
  pub namelen : ℕ
  pub truncated : Bool

-- What a call of `recvmsg` yields: an `errno`, or a datagram.
pub data Outcome : Type 0 where
  failed : ℕ → Outcome
  arrived : Datagram → Outcome

abbrev pub eintr : ℕ
eintr = 4

abbrev pub eagain : ℕ
eagain = 11

abbrev pub enomem : ℕ
enomem = 12

abbrev pub enodata : ℕ
enodata = 61

-- A negative result, without its sign, or a datagram.
pub data Received : Type 0 where
  refused : ℕ → Received
  got : Datagram → Received

abbrev pub again : ℕ → Bool
again errno = errno == eintr || errno == eagain

-- `__rtnl_recvmsg`, and what the later calls of `recvmsg` will yield.
unfoldable pub recv_retry : List Outcome → Option (Received × List Outcome)
recv_retry [] = none
recv_retry (failed errno ∷ calls) =
    if again errno then recv_retry calls else some (refused errno, calls)
recv_retry (arrived d ∷ calls) =
    if d.len == 0 then some (refused enodata, calls) else some (got d, calls)

-- `malloc` says whether there is memory for so many bytes.
module _ (malloc : ℕ → Bool) where
  abbrev pub second_recv : Option (Received × List Outcome) → Option (Received × List Outcome)
  second_recv none = none
  second_recv (some (refused errno, calls)) = some (refused errno, calls)
  second_recv (some (got d, calls)) =
      if not (malloc d.len) then some (refused enomem, calls) else recv_retry calls

  -- The datagram is looked at for its length, and then received.
  unfoldable pub rtnl_recvmsg : List Outcome → Option (Received × List Outcome)
  unfolding recv_retry
  rtnl_recvmsg calls = second_recv (recv_retry calls)

-- The message that a pointer points to.
abbrev pub msg_at : Memory → Msg
msg_at mem = record { nlmsg_len = get32 mem 0; mem = mem }

abbrev pub view : Memory → ℕ → Msg
view mem h = msg_at (λ i. mem (h + i))

abbrev pub hdr_len : Memory → ℕ → ℕ
hdr_len mem h = (view mem h).nlmsg_len

abbrev pub msg_type : Msg → ℕ
msg_type n = get16 n.mem 4

abbrev pub msg_flags : Msg → ℕ
msg_flags n = get16 n.mem 6

abbrev pub msg_seq : Msg → ℕ
msg_seq n = get32 n.mem 8

abbrev pub msg_pid : Msg → ℕ
msg_pid n = get32 n.mem 12

-- NLMSG_OK(h, len)
unfoldable pub nlmsg_ok : Memory → ℕ → ℕ → Bool
nlmsg_ok mem h len = leb 16 len && leb 16 (hdr_len mem h) && leb (hdr_len mem h) len

-- For the runs.
unfoldable pub run_recv : ℕ
unfolding recv_retry rtnl_recvmsg nlmsg_ok get16 get32 store load le16
run_recv = 0

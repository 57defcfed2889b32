-- ===== src/Netlink/Listen.antt =====
-- Handing messages to a handler, lib/libnetlink.c: `rtnl_listen`, from a socket, and
-- `rtnl_from_file`, from a file. A handler is taken to read no more than the bytes of its message.
pub mod File
pub mod Laws
pub mod Socket
pub mod Saved
mod Runs
use libiproute.Prelude.{
  ℕ, zero, suc, ◌+◌, ◌-◌, ◌*◌, ◌/◌, ◌%◌, ◌^◌, Bool, true, false, not, ◌&&◌, ◌||◌, Option, none,
  some, List, [], ◌∷◌, ◌++◌, leb, ltb, ◌==◌, if◌then◌else◌, Bytes, length, take, drop,
}
use libiproute.Prelude.Int.{ℤ, pos, negsuc}
use libiproute.Netlink.Memory.{Memory, get32, store, load, align4}
use libiproute.Netlink.Build.{Msg}
use libiproute.Netlink.Recv.{Datagram, Outcome, failed, arrived, again, view, run_recv}
use libiproute.Netlink.Talk.{malformed, sockaddr_size, run_talk}

-- The bytes of a message.
abbrev pub content : Msg → Bytes
content n = load n.mem 0 n.nlmsg_len

abbrev pub enobufs : ℕ
enobufs = 105

-- How a function ends: with a result; at `iprt_exit(1)`; it reads behind the buffer; or it waits.
pub data Heard (S : Type 0) : Type 0 where
  quits : S → ℤ → Heard S
  dies overruns listens : S → Heard S

-- How the loop over a datagram ends: as above, or with `status` bytes left.
pub data Round (S : Type 0) : Type 0 where
  leaves : Heard S → Round S
  remains : S → ℕ → Round S

module _ {S : Type 0} (handler : S → Bytes → S × ℤ) where
  abbrev pub told : S × ℤ → (S → Round S) → Round S
  told (s, pos n) next = next s
  told (s, negsuc n) next = leaves (quits s (negsuc n))

  -- `status` is compared as a number of 64 bits: below 0, the loop reads on behind the buffer.
  unfoldable pub hear_fuel : ℕ → Datagram → ℕ → ℕ → S → Round S
  unfolding malformed
  hear_fuel zero d h status s = remains s status
  hear_fuel (suc fuel) d h status s =
      let n = view d.mem h in
      let size = align4 n.nlmsg_len in
      let next : S → Round S = λ s'.
        if leb size status
        then hear_fuel fuel d (h + size) (status - size) s'
        else leaves (overruns s') in
      if ltb status 16
      then remains s status
      else if malformed n.nlmsg_len status
      then leaves (if d.truncated then quits s (negsuc 0) else dies s)
      else told (handler s (content n)) next

  abbrev pub after_round : Datagram → Round S → (S → Heard S) → Heard S
  after_round d (leaves t) loop = t
  after_round d (remains s status) loop =
      if d.truncated then loop s else if status == 0 then loop s else dies s

  -- `rtnl_listen`, without NETLINK_LISTEN_ALL_NSID.
  unfoldable pub rtnl_listen : List Outcome → S → Heard S
  unfolding hear_fuel
  rtnl_listen [] s = listens s
  rtnl_listen (failed errno ∷ calls) s =
      if again errno || errno == enobufs then rtnl_listen calls s else quits s (negsuc 0)
  rtnl_listen (arrived d ∷ calls) s =
      if d.len == 0
      then quits s (negsuc 0)
      else if not (d.namelen == sockaddr_size)
      then dies s
      else after_round d (hear_fuel d.len d 0 d.len s) (rtnl_listen calls)

  abbrev pub heard : S × ℤ → (S → Option (S × ℤ)) → Option (S × ℤ)
  heard (s, pos n) next = next s
  heard (s, negsuc n) next = some (s, negsuc n)

  -- With the header read into the buffer: the rest of the message with its padding, and the handler.
  abbrev pub file_step :
      Bool → Memory → ℕ → Bytes → S → (Memory → Bytes → S → Option (S × ℤ)) → Option (S × ℤ)
  file_step at_end buf len file s next =
      let l = len - 16 in
      let body = take (align4 l) file in
      let buf' = store buf 16 body in
      if at_end
      then some (s, pos 0)
      else if ltb len 16 || ltb 16384 len
      then some (s, negsuc 0)
      else if ltb (length body) l
      then some (s, negsuc 0)
      else heard (handler s (load buf' 0 len)) (next buf' (drop (align4 l) file))

  -- A round reads a header into the buffer, which still holds the last message, and goes on. `none`:
  -- there were not enough rounds.
  unfoldable pub file_fuel : ℕ → Memory → Bytes → S → Option (S × ℤ)
  file_fuel zero buf file s = none
  file_fuel (suc fuel) buf file s =
      let begun = store buf 0 (take 16 file) in
      file_step (length file == 0) begun (get32 begun 0) (drop 16 file) s (file_fuel fuel)

  -- A round takes a byte of the file at least.
  unfoldable pub rtnl_from_file : Memory → Bytes → S → Option (S × ℤ)
  unfolding file_fuel
  rtnl_from_file buf file s = file_fuel (suc (length file)) buf file s

-- For the runs.
unfoldable pub run_listen : ℕ
unfolding hear_fuel rtnl_listen file_fuel rtnl_from_file run_talk run_recv
run_listen = 0

-- ===== src/Netlink/Dump.antt =====
-- The loop over the answers to a dump request, lib/libnetlink.c: `rtnl_dump_filter_l`,
-- `rtnl_dump_filter_nc` and `rtnl_dump_done`. The texts on stderr are left out.
pub mod Single
pub mod Laws
pub mod Ends
mod Runs
use Prim.Native.Nat.{bit_and}
use libiproute.Prelude.{
  ℕ, zero, suc, ◌+◌, ◌-◌, ◌*◌, ◌/◌, ◌%◌, ◌^◌, Bool, true, false, not, ◌&&◌, ◌||◌, Option, none,
  some, List, [], ◌∷◌, ◌++◌, leb, ltb, ◌==◌, if◌then◌else◌, Bytes, length,
}
use libiproute.Prelude.Int.{ℤ, pos, negsuc}
use libiproute.Netlink.Memory.{Memory, get16, get32, store, load, le16, align4}
use libiproute.Netlink.Build.{Msg}
use libiproute.Netlink.Recv.{
  Datagram, Outcome, Received, refused, got, rtnl_recvmsg, hdr_len, view, msg_type, msg_flags,
  msg_seq, msg_pid, nlmsg_ok, run_recv,
}

-- `struct rtnl_handle`: `local.nl_pid`, `dump`, and whether `dump_fp` is not NULL.
pub record Handle : Type 0 where
  pub local_pid : ℕ
  pub dump : ℕ
  pub has_dump_fp : Bool

abbrev pub nlmsg_error : ℕ
nlmsg_error = 2

abbrev pub nlmsg_done : ℕ
nlmsg_done = 3

-- An `int` in 32 bits.
abbrev pub int_of : ℕ → ℤ
int_of v = if ltb v (2 ^ 31) then pos v else negsuc (2 ^ 32 - 1 - v)

abbrev pub is_negative : ℤ → Bool
is_negative (pos n) = false
is_negative (negsuc n) = true

-- ENOENT and EOPNOTSUPP are 2 and 95.
abbrev pub done_code : ℤ → ℤ
done_code (pos n) = pos 0
done_code (negsuc n) = if n == 1 || n == 94 then negsuc 0 else negsuc n

unfoldable pub rtnl_dump_done : Msg → ℤ
rtnl_dump_done h = if ltb h.nlmsg_len 20 then negsuc 0 else done_code (int_of (get32 h.mem 16))

-- What becomes of a message: `skipped`: it is not of this dump.
pub data Class : Type 0 where
  skipped done broken_off wanted : Class

unfoldable pub classify : Handle → ℕ → Msg → Class
unfolding rtnl_dump_done
classify rth nl_pid h =
    if not (nl_pid == 0) || not (msg_pid h == rth.local_pid) || not (msg_seq h == rth.dump)
    then skipped
    else if msg_type h == nlmsg_done
    then (if is_negative (rtnl_dump_done h) then broken_off else done)
    else if msg_type h == nlmsg_error
    then broken_off
    else wanted

-- `h->nlmsg_flags &= ~a->nc_flags`
abbrev pub clear_flags : ℕ → Memory → ℕ → Memory
clear_flags nc_flags mem h =
    store mem (h + 6) (le16 (bit_and (msg_flags (view mem h)) (0xffff - nc_flags)))

-- `struct rtnl_dump_filter_arg`; the callers' data, of type `S`, are passed from call to call.
pub record Filter (S : Type 0) : Type 0 where
  pub filter : S → Msg → S × ℤ
  pub nc_flags : ℕ

-- How the loop of a filter over a datagram ends: behind the messages, with whether `msglen` is not
-- 0; at NLMSG_DONE; or with a result of the whole function.
pub data Pass (S : Type 0) : Type 0 where
  through : Memory → Bool → S → Pass S
  found : Memory → S → Pass S
  stopped : S → ℤ → Pass S

-- The same for all filters: with `found_done` and whether `msglen` is not 0.
pub data Passes (S : Type 0) : Type 0 where
  all_through : Bool → Bool → S → Passes S
  cut : S → ℤ → Passes S

-- A negative result.
abbrev pub minus : ℕ → ℤ
minus zero = pos 0
minus (suc n) = negsuc n

-- How the whole function ends: with a result, at `iprt_exit(1)`, or not, as it waits.
-- `returned` has what was written to `dump_fp`, too.
pub data Dumped (S : Type 0) : Type 0 where
  returned : S → Bytes → ℤ → Dumped S
  exited : S → Dumped S
  waiting : S → Dumped S

abbrev pub dump_file : Handle → Datagram → Bytes → Bytes
dump_file rth d file = if rth.has_dump_fp then file ++ load d.mem 0 (align4 d.len) else file

module _ {S : Type 0} where
  -- The call of the filter, and what follows where it succeeds.
  abbrev pub called : S × ℤ → (S → Pass S) → Pass S
  called (s, pos n) next = next s
  called (s, negsuc n) next = stopped s (negsuc n)

  abbrev pub handle : Handle → Filter S → Memory → ℕ → S → Class → (S → Pass S) → Pass S
  handle rth a mem h s skipped next = next s
  handle rth a mem h s done next = found mem s
  handle rth a mem h s broken_off next = stopped s (negsuc 0)
  handle rth a mem h s wanted next =
      if rth.has_dump_fp then next s else called (a.filter s (view mem h)) next

  -- The inner loop; a message whose padding is behind the end makes `msglen` negative.
  unfoldable pub pass_fuel : ℕ → Handle → ℕ → Filter S → Memory → ℕ → ℕ → S → Pass S
  unfolding classify nlmsg_ok
  pass_fuel zero rth nl_pid a mem h msglen s = through mem (not (msglen == 0)) s
  pass_fuel (suc fuel) rth nl_pid a mem h msglen s =
      let size = align4 (hdr_len mem h) in
      let mem' = clear_flags a.nc_flags mem h in
      if nlmsg_ok mem h msglen
      then handle rth a mem' h s (classify rth nl_pid (view mem' h)) (λ s'.
        (if leb size msglen
          then pass_fuel fuel rth nl_pid a mem' (h + size) (msglen - size) s'
          else through mem' true s'))
      else through mem (not (msglen == 0)) s

  -- Each round takes a byte at least.
  unfoldable pub pass : Handle → Datagram → Filter S → Memory → S → Pass S
  unfolding pass_fuel
  pass rth d a mem s = pass_fuel d.len rth d.nl_pid a mem 0 d.len s

  abbrev pub next_filter : Pass S → (Memory → Bool → Bool → S → Passes S) → Bool → Passes S
  next_filter (through mem more s) next found_done = next mem found_done more s
  next_filter (found mem s) next found_done = next mem true true s
  next_filter (stopped s r) next found_done = cut s r

  unfoldable pub pass_all :
      Handle → Datagram → List (Filter S) → Memory → Bool → Bool → S → Passes S
  unfolding pass
  pass_all rth d [] mem found_done more s = all_through found_done more s
  pass_all rth d (a ∷ arg) mem found_done more s =
      next_filter (pass rth d a mem s) (pass_all rth d arg) found_done

  -- Behind the filters: the end, one more round, or `iprt_exit(1)` for a remnant.
  abbrev pub after_passes : Datagram → Passes S → Bytes → (S → Dumped S) → Dumped S
  after_passes d (cut s r) file loop = returned s file r
  after_passes d (all_through found_done more s) file loop =
      if found_done
      then returned s file (pos 0)
      else if d.truncated
      then loop s
      else if more
      then exited s
      else loop s

  abbrev pub dump_step :
      (ℕ → Bool)
      → Handle
      → List (Filter S)
      → Option (Received × List Outcome)
      → S
      → Bytes
      → (List Outcome → S → Bytes → Dumped S)
      → Dumped S
  dump_step malloc rth arg none s file loop = waiting s
  dump_step malloc rth arg (some (refused errno, calls)) s file loop = returned s file (minus errno)
  dump_step malloc rth arg (some (got d, calls)) s file loop =
      let file' = dump_file rth d file in
      after_passes d (pass_all rth d arg d.mem false false s) file' (λ s'. loop calls s' file')

  unfoldable pub dump_fuel :
      ℕ → (ℕ → Bool) → Handle → List (Filter S) → List Outcome → S → Bytes → Dumped S
  unfolding rtnl_recvmsg pass_all
  dump_fuel zero malloc rth arg calls s file = waiting s
  dump_fuel (suc fuel) malloc rth arg calls s file =
      dump_step malloc rth arg (rtnl_recvmsg malloc calls) s file (dump_fuel fuel malloc rth arg)

  -- A round takes one of the calls of `recvmsg` at least. The file is what `dump_fp` holds.
  unfoldable pub rtnl_dump_filter_l :
      (ℕ → Bool) → Handle → List (Filter S) → List Outcome → S → Bytes → Dumped S
  unfolding dump_fuel
  rtnl_dump_filter_l malloc rth arg calls s file =
      dump_fuel (suc (length calls)) malloc rth arg calls s file

  unfoldable pub rtnl_dump_filter_nc :
      (ℕ → Bool) → Handle → (S → Msg → S × ℤ) → ℕ → List Outcome → S → Bytes → Dumped S
  unfolding rtnl_dump_filter_l
  rtnl_dump_filter_nc malloc rth filter nc_flags calls s file =
      rtnl_dump_filter_l malloc rth (record { filter = filter; nc_flags = nc_flags } ∷ []) calls s
        file

-- For the runs.
unfoldable pub run_dump : ℕ
unfolding rtnl_dump_done classify pass_fuel pass pass_all dump_fuel rtnl_dump_filter_l
    rtnl_dump_filter_nc run_recv
run_dump = 0

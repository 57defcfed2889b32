-- ===== src/Netlink/Dump/Runs.antt =====
-- Concrete runs, and the theorems at concrete inputs.
use libiproute.Prelude.{ℕ, ◌+◌, ◌≡◌, refl, arith, true, false, List, [], ◌∷◌, Bytes, All}
use libiproute.Prelude.Int.{ℤ, pos, negsuc}
use libiproute.Netlink.Memory.{store}
use libiproute.Netlink.Build.{Msg}
use libiproute.Netlink.Recv.{Datagram, Outcome, failed, arrived, view}
use libiproute.Netlink.Dump.{Handle, returned, exited, rtnl_dump_filter_nc, run_dump}
use libiproute.Netlink.Dump.Single.{deliver}
use libiproute.Netlink.Dump.Laws.{ending, concluded, reports, all_messages, IsWhole}
use libiproute.Netlink.Dump.Ends.{rtnl_dump_filter_nc-deliver, rtnl_dump_filter_nc-ends}

-- A header of `len` bytes, for the dump 5 of the socket 7.
abbrev header : ℕ → ℕ → Bytes → Bytes
header len type rest = len ∷ 0 ∷ 0 ∷ 0 ∷ type ∷ 0 ∷ 2 ∷ 0 ∷ 5 ∷ 0 ∷ 0 ∷ 0 ∷ 7 ∷ 0 ∷ 0 ∷ 0 ∷ rest

abbrev datagram : ℕ → Bytes → Datagram
datagram len bytes = record {
  mem = store (λ i. 0) 0 bytes;
  len = len;
  nl_pid = 0;
  namelen = 12;
  truncated = false;
}

-- Two messages of no payload; and NLMSG_DONE.
abbrev two : Datagram
two = datagram 32 (header 16 20 (header 16 21 []))

abbrev end : Datagram
end = datagram 20 (header 20 3 (0 ∷ 0 ∷ 0 ∷ 0 ∷ []))

abbrev socket : Handle
socket = record { local_pid = 7; dump = 5; has_dump_fp = false }

-- The filter counts.
abbrev counts : ℕ → Msg → ℕ × ℤ
counts k n = (k + 1, pos 0)

-- Interrupted calls, and the two calls for a datagram.
abbrev calls : List Outcome
calls = failed 4 ∷ arrived two ∷ failed 11 ∷ arrived two ∷ arrived end ∷ arrived end ∷ []

abbrev sent : List (Datagram × List Msg)
sent = (two, view two.mem 0 ∷ view two.mem 16 ∷ []) ∷ (end, view end.mem 0 ∷ []) ∷ []

counted : rtnl_dump_filter_nc (λ k. true) socket counts 0 calls 0 [] ≡ returned 2 [] (pos 0)
unfolding run_dump
counted = refl

-- ENOBUFS is 105.
lost :
    rtnl_dump_filter_nc (λ k. true) socket counts 0 (failed 105 ∷ []) 0 []
    ≡ returned 0 [] (negsuc 104)
unfolding run_dump
lost = refl

no_memory : rtnl_dump_filter_nc (λ k. false) socket counts 0 calls 0 [] ≡ returned 0 [] (negsuc 11)
unfolding run_dump
no_memory = refl

-- A message of 17 bytes and no padding leaves `msglen` at -3.
remnant :
    rtnl_dump_filter_nc
      (λ k. true)
      socket
      counts
      0
      (arrived (datagram 17 (header 17 20 (1 ∷ [])))
        ∷ arrived (datagram 17 (header 17 20 (1 ∷ [])))
        ∷ [])
      0
      []
    ≡ exited 1
unfolding run_dump
remnant = refl

sent-IsWhole : All (IsWhole (λ k. true)) sent
unfolding run_dump
sent-IsWhole = (
  (
    omega arith,
    omega arith,
    refl,
    refl,
    (refl, refl, omega arith, (refl, refl, omega arith, refl)),
  ),
  ((omega arith, omega arith, refl, refl, (refl, refl, omega arith, refl)), tt),
)

rtnl_dump_filter_nc-deliver_example :
    ending (rtnl_dump_filter_nc (λ k. true) socket counts 0 calls 0 [])
    ≡ concluded (deliver socket (record { filter = counts; nc_flags = 0 }) (all_messages sent) 0)
unfolding run_dump
rtnl_dump_filter_nc-deliver_example =
    rtnl_dump_filter_nc-deliver (λ k. true) socket counts 0 calls sent 0 [] sent-IsWhole refl

rtnl_dump_filter_nc-ends_example :
    (s' : ℕ) × (r : ℤ) × (ending (rtnl_dump_filter_nc (λ k. true) socket counts 0 calls 0 [])
      ≡ reports s' r)
unfolding run_dump
rtnl_dump_filter_nc-ends_example =
    rtnl_dump_filter_nc-ends (λ k. true) socket counts 0 calls sent 0 [] sent-IsWhole refl refl

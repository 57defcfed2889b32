-- ===== src/Netlink/Listen/Runs.antt =====
-- Concrete runs, and the theorems at concrete inputs.
use libiproute.Prelude.{
  ℕ, ◌≡◌, refl, arith, true, false, some, List, [], ◌∷◌, ◌++◌, if◌then◌else◌, ◌==◌, Bytes, length,
  All,
}
use libiproute.Prelude.Int.{ℤ, pos, negsuc}
use libiproute.Netlink.Memory.{store}
use libiproute.Netlink.Build.{Msg}
use libiproute.Netlink.Recv.{Datagram, Outcome, failed, arrived, view}
use libiproute.Netlink.Dump.{Handle, returned, rtnl_dump_filter_nc, run_dump}
use libiproute.Netlink.Dump.Laws.{IsWhole}
use libiproute.Netlink.Listen.{rtnl_listen, rtnl_from_file, quits, listens, run_listen}
use libiproute.Netlink.Listen.File.{hear_all}
use libiproute.Netlink.Listen.Laws.{IsStored, contents}
use libiproute.Netlink.Listen.Saved.{rtnl_from_file-rtnl_dump_filter_nc}
use libiproute.Netlink.Listen.Socket.{say_datagrams, rtnl_listen-say_datagrams}

-- A header of `len` bytes, for the dump 5 of the socket 7.
abbrev header : ℕ → ℕ → Bytes → Bytes
header len type rest = len ∷ 0 ∷ 0 ∷ 0 ∷ type ∷ 0 ∷ 2 ∷ 0 ∷ 5 ∷ 0 ∷ 0 ∷ 0 ∷ 7 ∷ 0 ∷ 0 ∷ 0 ∷ rest

abbrev datagram : ℕ → Bytes → Datagram
datagram len bytes = record {
  mem = store (λ i. 0) 0 bytes;
  len = len;
  nl_pid = 0;
  namelen = 12;
  truncated = false;
}

abbrev route : Datagram
route = datagram 20 (header 18 20 (1 ∷ 2 ∷ 0 ∷ 0 ∷ []))

abbrev end : Datagram
end = datagram 20 (header 20 3 (0 ∷ 0 ∷ 0 ∷ 0 ∷ []))

abbrev saving : Handle
saving = record { local_pid = 7; dump = 5; has_dump_fp = true }

abbrev keeps : ℕ → Msg → ℕ × ℤ
keeps k n = (k, pos 0)

-- The handler notes the lengths of the messages, and refuses one of 20 bytes.
abbrev lengths : List ℕ → Bytes → List ℕ × ℤ
lengths ks bs = (ks ++ length bs ∷ [], pos 0)

abbrev refuses : List ℕ → Bytes → List ℕ × ℤ
refuses ks bs = if length bs == 20 then (ks, negsuc 4) else (ks ++ length bs ∷ [], pos 0)

abbrev calls : List Outcome
calls = arrived route ∷ arrived route ∷ arrived end ∷ failed 4 ∷ arrived end ∷ []

read_back :
    rtnl_from_file lengths
      (λ i. 9)
      (header 18 20 (1 ∷ 2 ∷ 0 ∷ 0 ∷ header 20 3 (0 ∷ 0 ∷ 0 ∷ 0 ∷ [])))
      []
    ≡ some (18 ∷ 20 ∷ [], pos 0)
unfolding run_listen
read_back = refl

-- A header that is cut short is taken with what the buffer held before.
short_header : rtnl_from_file lengths (λ i. 0) (16 ∷ []) [] ≡ some (16 ∷ [], pos 0)
unfolding run_listen
short_header = refl

listened :
    rtnl_listen refuses (failed 105 ∷ arrived route ∷ arrived end ∷ []) []
    ≡ quits (18 ∷ []) (negsuc 4)
unfolding run_listen
listened = refl

waits_on : rtnl_listen lengths (arrived route ∷ []) [] ≡ listens (18 ∷ [])
unfolding run_listen
waits_on = refl

saved-IsWhole :
    All
      (IsWhole (λ k. true))
      ((route, view route.mem 0 ∷ []) ∷ (end, [] ++ view end.mem 0 ∷ []) ∷ [])
unfolding run_dump
saved-IsWhole = (
  (omega arith, omega arith, refl, refl, (refl, refl, omega arith, refl)),
  ((omega arith, omega arith, refl, refl, (refl, refl, omega arith, refl)), tt),
)

saved-IsStored :
    All IsStored ((route, view route.mem 0 ∷ []) ∷ (end, [] ++ view end.mem 0 ∷ []) ∷ [])
unfolding run_dump
saved-IsStored = (
  (omega arith, (refl, refl, omega arith, refl), (omega arith, tt)),
  ((omega arith, (refl, refl, omega arith, refl), (omega arith, tt)), tt),
)

rtnl_from_file-rtnl_dump_filter_nc_example :
    (file : Bytes) × (rtnl_dump_filter_nc (λ k. true) saving keeps 0 calls 3 []
      ≡ returned 3 file (pos 0))
    × (rtnl_from_file lengths (λ i. 0) file []
        ≡ hear_all lengths
            (contents ((route, view route.mem 0 ∷ []) ∷ (end, [] ++ view end.mem 0 ∷ []) ∷ []))
            []
            (λ u. some (u, pos 0)))
unfolding run_dump
rtnl_from_file-rtnl_dump_filter_nc_example =
    rtnl_from_file-rtnl_dump_filter_nc (λ k. true) saving keeps 0 calls
      ((route, view route.mem 0 ∷ []) ∷ []) end [] [] (view end.mem 0) 3 lengths (λ i. 0) [] refl
      saved-IsWhole saved-IsStored refl refl refl refl

rtnl_listen-say_datagrams_example :
    rtnl_listen lengths (failed 105 ∷ arrived route ∷ []) []
    ≡ say_datagrams lengths ((route, view route.mem 0 ∷ []) ∷ []) []
unfolding run_dump
rtnl_listen-say_datagrams_example =
    rtnl_listen-say_datagrams lengths (failed 105 ∷ arrived route ∷ [])
      ((route, view route.mem 0 ∷ []) ∷ []) []
      ((omega arith, omega arith, refl, refl, (refl, refl, omega arith, refl)), tt) refl

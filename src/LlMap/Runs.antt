-- ===== src/LlMap/Runs.antt =====
-- Concrete runs, and the theorems at concrete inputs.
use libiproute.Prelude.{
  ℕ, ◌≡◌, ◌≢◌, refl, arith, Bool, true, false, none, some, List, [], ◌∷◌, codes, Bytes,
}
use libiproute.Netlink.Memory.{store}
use libiproute.Netlink.Build.{Msg}
use libiproute.LlMap.{
  Cache, Map, empty_map, enter, change, entry_of, ll_get_by_index, ll_get_by_name, run_map,
}
use libiproute.LlMap.Event.{named, deleted, nameless, read_event, run_event}
use libiproute.LlMap.Laws.{IsMap}
use libiproute.LlMap.Listed.{IsListed}
use libiproute.LlMap.History.{
  remember_all, Links_run, Listed_run, empty_map-IsMap, empty_map-IsListed, remember_all-refines,
}
use libiproute.LlMap.Rename.{rename_lost}
use libiproute.Netlink.Recv.{Datagram, arrived, view}
use libiproute.Netlink.Dump.{Handle, run_dump}
use libiproute.LlMap.Init.{ll_init_map, ready, told, ll_init_map-refines}

-- A link message of `len` bytes with the index 2, the flags 1, the type 1, and attributes.
abbrev link_msg : ℕ → ℕ → Bytes → Msg
link_msg type len attrs = record {
  nlmsg_len = len;
  mem =
      store (λ i. 0) 4
        (type ∷ 0 ∷ 0 ∷ 0 ∷ 0 ∷ 0 ∷ 0 ∷ 0 ∷ 0 ∷ 0 ∷ 0 ∷ 0 ∷ 0 ∷ 0 ∷ 1 ∷ 0 ∷ 2 ∷ 0 ∷ 0 ∷ 0 ∷ 1 ∷ 0
          ∷ 0 ∷ 0 ∷ 0 ∷ 0 ∷ 0 ∷ 0 ∷ attrs);
}

-- The attribute IFLA_IFNAME with "lo".
abbrev lo_msg : Msg
lo_msg = link_msg 16 40 (7 ∷ 0 ∷ 3 ∷ 0 ∷ 108 ∷ 111 ∷ 0 ∷ 0 ∷ [])

abbrev gone_msg : Msg
gone_msg = link_msg 17 32 []

abbrev lo : Cache
lo = record { flags = 1; index = 2; type = 1; name = 108 ∷ 111 ∷ [] }

lo_event : read_event lo_msg ≡ named 2 1 1 (108 ∷ 111 ∷ [])
unfolding run_event
lo_event = refl

gone_event : read_event gone_msg ≡ deleted 2
unfolding run_event
gone_event = refl

nameless_event : read_event (link_msg 16 32 []) ≡ nameless
unfolding run_event
nameless_event = refl

lo_index : ll_get_by_index (enter empty_map lo) 2 ≡ some 0
unfolding run_map
lo_index = refl

-- The link appears, goes, appears again and is told the name "e0".
abbrev four_msgs : List (Bool × Msg)
four_msgs =
    (true, lo_msg)
    ∷ (false, gone_msg)
    ∷ (true, lo_msg)
    ∷ (true, link_msg 16 40 (7 ∷ 0 ∷ 3 ∷ 0 ∷ 101 ∷ 48 ∷ 0 ∷ 0 ∷ []))
    ∷ []

told_e0 : Listed_run (entry_of empty_map) (λ j. none) four_msgs 2 ≡ some (101 ∷ 48 ∷ [])
unfolding run_event run_map
told_e0 = refl

remember_all-refines_example :
    (m' : Map) × (remember_all empty_map four_msgs ≡ some m')
    × IsMap m'
    × ((j : ℕ) → entry_of m' j ≡ Links_run (entry_of empty_map) four_msgs j)
    × IsListed m' (Listed_run (entry_of empty_map) (λ j. none) four_msgs)
unfolding run_event
remember_all-refines_example =
    remember_all-refines empty_map (λ j. none) four_msgs empty_map-IsMap empty_map-IsListed
      (tt, (tt, (tt, (tt, tt))))

rename_lost_example :
    (ll_get_by_name (change (enter empty_map lo) 0 1 (codes "eth0")) (108 ∷ 111 ∷ []) ≢ some 0)
    × (ll_get_by_name (change (enter empty_map lo) 0 1 (codes "eth0")) (codes "eth0") ≢ some 0)
unfolding run_map
rename_lost_example = rename_lost (enter empty_map lo) 0 1 (codes "eth0") refl refl

-- A dump of one link: the link, and NLMSG_DONE, in one datagram.
abbrev dumped : Datagram
dumped = record {
  mem =
      store (λ i. 0) 0
        (40 ∷ 0 ∷ 0 ∷ 0 ∷ 16 ∷ 0 ∷ 2 ∷ 0 ∷ 5 ∷ 0 ∷ 0 ∷ 0 ∷ 7 ∷ 0 ∷ 0 ∷ 0 ∷ 0 ∷ 0 ∷ 1 ∷ 0 ∷ 2 ∷ 0 ∷ 0
          ∷ 0 ∷ 1 ∷ 0 ∷ 0 ∷ 0 ∷ 0 ∷ 0 ∷ 0 ∷ 0 ∷ 7 ∷ 0 ∷ 3 ∷ 0 ∷ 108 ∷ 111 ∷ 0 ∷ 0 ∷ 20 ∷ 0 ∷ 0 ∷ 0
          ∷ 3 ∷ 0 ∷ 2 ∷ 0 ∷ 5 ∷ 0 ∷ 0 ∷ 0 ∷ 7 ∷ 0 ∷ 0 ∷ 0 ∷ 0 ∷ 0 ∷ 0 ∷ 0 ∷ []);
  len = 60;
  nl_pid = 0;
  namelen = 12;
  truncated = false;
}

abbrev socket : Handle
socket = record { local_pid = 7; dump = 5; has_dump_fp = false }

ll_init_map-refines_example :
    (m' : Map) × (ll_init_map
        (λ k. true)
        socket
        true
        false
        true
        (arrived dumped ∷ arrived dumped ∷ [])
        empty_map
      ≡ ready m')
    × IsMap m'
    × ((j : ℕ)
        → entry_of m' j ≡ Links_run (entry_of empty_map) (told true (view dumped.mem 0 ∷ [])) j)
unfolding run_event run_dump
ll_init_map-refines_example =
    ll_init_map-refines (λ k. true) socket true (arrived dumped ∷ arrived dumped ∷ [])
      ((dumped, view dumped.mem 0 ∷ view dumped.mem 40 ∷ []) ∷ []) (view dumped.mem 0 ∷ [])
      (view dumped.mem 40) [] refl
      (
        (
          omega arith,
          omega arith,
          refl,
          refl,
          (refl, refl, omega arith, (refl, refl, omega arith, refl)),
        ),
        tt,
      )
      refl refl ((refl, tt), tt) refl

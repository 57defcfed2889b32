-- ===== src/LlMap/Init.antt =====
-- `ll_init_map`: the map is filled by a dump of the links, which `rtnl_dump_filter` reads.
use libiproute.Prelude.{
  ℕ, ◌≡◌, refl, ap, ◌∙◌, Bool, true, false, not, Option, none, some, List, [], ◌∷◌, ◌++◌,
  if◌then◌else◌, map, All,
}
use libiproute.Prelude.Int.{ℤ, pos, negsuc}
use libiproute.Netlink.Build.{Msg}
use libiproute.Netlink.Recv.{Datagram, Outcome}
use libiproute.Netlink.Dump.{
  Handle, Filter, done, wanted, classify, is_negative, rtnl_dump_filter_nc,
}
use libiproute.Netlink.Dump.Single.{finds, cleared, deliver}
use libiproute.Netlink.Dump.Laws.{
  quiet, twice, IsWhole, Ending, reports, exits, waits, ending, concluded, all_messages,
}
use libiproute.Netlink.Dump.Ends.{rtnl_dump_filter_nc-deliver}
use libiproute.LlMap.{Map, entry_of, empty_map}
use libiproute.LlMap.Event.{read_event, ll_remember_index}
use libiproute.LlMap.Laws.{IsMap}
use libiproute.LlMap.Refines.{Links, Links_step, apply-refines}
use libiproute.LlMap.History.{Links_run, empty_map-IsMap, IsLink, apply_succeeds}

-- `none` stands for a process that has died in the filter.
abbrev pub survives : Option (Map × ℤ) → Option Map × ℤ
survives none = (none, negsuc 0)
survives (some (m, r)) = (some m, r)

abbrev pub map_filter : Bool → Option Map → Msg → Option Map × ℤ
map_filter has_memory none n = (none, negsuc 0)
map_filter has_memory (some m) n = survives (ll_remember_index has_memory m n)

-- `ready`: 0 is returned, and the map is as given; `dies`: `iprt_exit(1)`.
pub data Init : Type 0 where
  ready : Map → Init
  dies crashes hangs : Init

abbrev pub init_result : Ending (Option Map) → Init
init_result (reports (some m) r) = if is_negative r then dies else ready m
init_result (reports none r) = crashes
init_result (exits s) = dies
init_result (waits s) = hangs

-- `sent`: the request could be sent. The macro `rtnl_dump_filter` clears no flags.
unfoldable pub ll_init_map : (ℕ → Bool) → Handle → Bool → Bool → Bool → List Outcome → Map → Init
ll_init_map malloc rth has_memory initialized sent calls m =
    if initialized
    then ready m
    else if not sent
    then dies
    else init_result
        (ending (rtnl_dump_filter_nc malloc rth (map_filter has_memory) 0 calls (some m) []))

abbrev pub IsAnswer : Handle → Msg → Type 0
IsAnswer rth n = (classify rth 0 (cleared 0 n) ≡ wanted) × IsLink (read_event (cleared 0 n))

abbrev filter_of : Bool → Filter (Option Map)
filter_of b = record { filter = map_filter b; nc_flags = 0 }

-- What is told by the messages, with the memory that there is.
abbrev pub told : Bool → List Msg → List (Bool × Msg)
told b msgs = map (λ (n : Msg). (b, cleared 0 n)) msgs

deliver-refines :
    (b : Bool) (rth : Handle) (m : Map) (msgs : List Msg) (last : Msg) (more : List (ℕ × Msg))
    → rth.has_dump_fp ≡ false
    → IsMap m
    → All (IsAnswer rth) msgs
    → classify rth 0 (cleared 0 last) ≡ done
    → (m' : Map) × (deliver rth
          (filter_of b)
          (map (λ (n : Msg). (0, n)) msgs ++ (0, last) ∷ more)
          (some m)
        ≡ finds (some m'))
      × IsMap m'
      × ((j : ℕ) → entry_of m' j ≡ Links_run (entry_of m) (told b msgs) j)
unfolding deliver ll_remember_index
deliver-refines b rth m [] last more f v h e = (m, rw e refl, v, λ j. refl)
deliver-refines b rth m (n ∷ msgs) last more f v ((w, l), hs) e =
    let n' = cleared 0 n in
    let (m', applied) = apply_succeeds b m (read_event n') l in
    let (v', step) = apply-refines b m m' (pos 0) (read_event n') v applied in
    let (m'', rest, v'', links) = deliver-refines b rth m' msgs last more f v' hs e in
    let same : entry_of m' ≡ Links_step b (entry_of m) (read_event n') = λ i j. step j i in
    (
      m'',
      rw (w, f, applied) rest,
      v'',
      λ j. links j ∙ ap (λ (s : Links). Links_run s (told b msgs) j) same,
    )

-- When the answers to the request for the links are read, the map is empty before, and then holds
-- for every index what the link messages up to NLMSG_DONE told in turn, as long as no bytes are
-- missing in them. The datagrams are whole, there is memory for them, and no `dump_fp` is set;
-- interrupted calls of recvmsg and the cuts between datagrams do not matter.
pub ll_init_map-refines :
    (malloc : ℕ → Bool) (rth : Handle) (has_memory : Bool) (calls : List Outcome)
    (ds : List (Datagram × List Msg)) (msgs : List Msg) (last : Msg) (more : List (ℕ × Msg))
    → rth.has_dump_fp ≡ false
    → All (IsWhole malloc) ds
    → quiet calls ≡ twice (map (λ (y : Datagram × List Msg). y.0) ds)
    → all_messages ds ≡ map (λ (n : Msg). (0, n)) msgs ++ (0, last) ∷ more
    → All (IsAnswer rth) msgs
    → classify rth 0 (cleared 0 last) ≡ done
    → (m' : Map) × (ll_init_map malloc rth has_memory false true calls empty_map ≡ ready m')
      × IsMap m'
      × ((j : ℕ) → entry_of m' j ≡ Links_run (entry_of empty_map) (told has_memory msgs) j)
unfolding ll_init_map
ll_init_map-refines malloc rth b calls ds msgs last more f w e cut h l =
    let (m', read, v, links) =
      deliver-refines b rth empty_map msgs last more f empty_map-IsMap h l in
    let all =
      ap (λ (ns : List (ℕ × Msg)). concluded (deliver rth (filter_of b) ns (some empty_map))) cut in
    let result =
      rtnl_dump_filter_nc-deliver malloc rth (map_filter b) 0 calls ds (some empty_map) [] w e
      ∙ all
      ∙ ap concluded read in
    (m', ap init_result result, v, links)

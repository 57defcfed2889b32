-- ===== src/LlMap/Event.antt =====
-- The link messages that `ll_remember_index` gets, read from the bytes of the message.
use libiproute.Prelude.{
  ℕ, ◌-◌, Bool, not, ◌&&◌, Option, none, some, [], ◌∷◌, ltb, ◌==◌, if◌then◌else◌, Bytes,
}
use libiproute.Prelude.Int.{ℤ, pos, negsuc}
use libiproute.Netlink.Memory.{Memory, store, load, get16, get32, rta_data, rta_len, rta_type}
use libiproute.Netlink.Build.{Msg}
use libiproute.Netlink.Parse.{parse_rtattr, run_parse}
use libiproute.LlMap.{Map, ll_get_by_index, forget, change, enter, run_map}

abbrev pub rtm_newlink : ℕ
rtm_newlink = 16

abbrev pub rtm_dellink : ℕ
rtm_dellink = 17

abbrev pub ifla_ifname : ℕ
ifla_ifname = 3

abbrev pub ifla_max : ℕ
ifla_max = 49

-- What a message says of a link; `unterminated` is a name without a NUL in its attribute, and
-- `nameless` a link without a name, whose `tb[IFLA_IFNAME]` is NULL.
pub data Event : Type 0 where
  other short unterminated nameless : Event
  deleted : ℕ → Event
  named : ℕ → ℕ → ℕ → Bytes → Event

-- A C string in a payload.
unfoldable pub c_string : Bytes → Option Bytes
c_string [] = none
c_string (c ∷ bs) =
    let rest = c_string bs in
    if c == 0 then some [] else elim rest [ none ↦ none | some s ↦ some (c ∷ s) ]

-- `nlmsg_type` stands at 4; `struct ifinfomsg` from 16 on, with `ifi_type` at 2, `ifi_index` at 4
-- and `ifi_flags` at 8; the attributes from 32 on.
abbrev name_event : Memory → Option ℕ → Event
name_event mem none = nameless
name_event mem (some rta) = elim (c_string (rta_data mem rta)) [
  | none ↦ unterminated
  | some ifname ↦ named (get32 mem 20) (get16 mem 18) (get32 mem 24) ifname
]

unfoldable pub read_event : Msg → Event
read_event n =
    let type = get16 n.mem 4 in
    if not (type == rtm_newlink) && not (type == rtm_dellink)
    then other
    else if ltb n.nlmsg_len 32
    then short
    else if type == rtm_dellink
    then deleted (get32 n.mem 20)
    else name_event n.mem ((parse_rtattr n.mem ifla_max 32 (n.nlmsg_len - 32)).0 ifla_ifname)

-- The new map and the result. `none`: the code reads through NULL or behind the attribute.
unfoldable pub apply : Bool → Map → Event → Option (Map × ℤ)
apply has_memory m other = some (m, pos 0)
apply has_memory m short = some (m, negsuc 0)
apply has_memory m unterminated = none
apply has_memory m nameless = none
apply has_memory m (deleted index) = elim (ll_get_by_index m index) [
  | none ↦ some (m, pos 0)
  | some p ↦ some (forget m p, pos 0)
]
apply has_memory m (named index type flags ifname) = elim (ll_get_by_index m index) [
  | some p ↦ some (change m p flags ifname, pos 0)
  | none ↦
      if has_memory
      then some
          (enter m (record { flags = flags; index = index; type = type; name = ifname }), pos 0)
      else some (m, pos 0)
]

-- `has_memory`: `malloc` gives an entry.
unfoldable pub ll_remember_index : Bool → Map → Msg → Option (Map × ℤ)
unfolding read_event apply
ll_remember_index has_memory m n = apply has_memory m (read_event n)

-- Opens this module for a run.
unfoldable pub run_event : ℕ
unfolding c_string read_event apply ll_remember_index run_map run_parse store load get16 get32
    rta_len rta_type
run_event = 0

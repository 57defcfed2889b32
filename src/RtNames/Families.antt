-- ===== src/RtNames/Families.antt =====
-- The families of lib/rt_names.c: the file, the base of a number and the text of an unnamed one.
use libiproute.Prelude.{
  ℕ, ◌+◌, ◌-◌, Option, none, some, ◌∷◌, ◌++◌, ◌>>=◌, Bytes, value_or, codes, length, take, get_or,
  replicate,
}
use libiproute.Prelude.Int.{ℤ, pos, negsuc, wrapped}
use libiproute.CLib.{print_num}
use libiproute.RtNames.{
  Files, Table, Names, rtnl_tab_initialize, conf_files, initialized, a2n, n2a, in_table,
}

unfoldable pub rtnl_rtprot_initialize : Files → Table → Option Table
unfolding conf_files
rtnl_rtprot_initialize f tab = do
  tab' ← rtnl_tab_initialize f (f.confdir ++ codes "/rt_protos") 256 tab
  elim (f.names_in (f.confdir ++ codes "/rt_protos.d")) [
    | none ↦ some tab'
    | some names ↦ conf_files f (f.confdir ++ codes "/rt_protos.d") names tab'
  ]

abbrev pub from_file : Bytes → Files → Table → Option Table
from_file name f tab = rtnl_tab_initialize f (f.confdir ++ name) 256 tab

-- A number in `buf`: the name of an `id` without one.
abbrev pub signed_text : ℤ → Bytes
signed_text (pos n) = print_num 10 n
signed_text (negsuc n) = b'-' ∷ print_num 10 (n + 1)

abbrev unsigned_text : ℤ → Bytes
unsigned_text id = print_num 10 (wrapped 32 id)

-- "0x%02x"
abbrev field_text : ℤ → Bytes
field_text id =
    let digits = print_num 16 (wrapped 32 id) in
    codes "0x" ++ (replicate (2 - length digits) b'0' ++ digits)

unfoldable pub rtnl_rtprot_n2a : Files → Names → ℤ → ℕ → Option (Names × Bytes)
unfolding n2a rtnl_rtprot_initialize
rtnl_rtprot_n2a f = n2a (rtnl_rtprot_initialize f) unsigned_text unsigned_text

unfoldable pub rtnl_rtprot_a2n : Files → Names → Bytes → Option (Names × Option ℕ)
unfolding a2n rtnl_rtprot_initialize
rtnl_rtprot_a2n f = a2n (rtnl_rtprot_initialize f) 0

unfoldable pub rtnl_rtscope_n2a : Files → Names → ℤ → ℕ → Option (Names × Bytes)
unfolding n2a
rtnl_rtscope_n2a f = n2a (from_file (codes "/rt_scopes") f) signed_text signed_text

unfoldable pub rtnl_rtscope_a2n : Files → Names → Bytes → Option (Names × Option ℕ)
unfolding a2n
rtnl_rtscope_a2n f = a2n (from_file (codes "/rt_scopes") f) 0

unfoldable pub rtnl_rtrealm_n2a : Files → Names → ℤ → ℕ → Option (Names × Bytes)
unfolding n2a
rtnl_rtrealm_n2a f = n2a (from_file (codes "/rt_realms") f) signed_text signed_text

unfoldable pub rtnl_rtrealm_a2n : Files → Names → Bytes → Option (Names × Option ℕ)
unfolding a2n
rtnl_rtrealm_a2n f = a2n (from_file (codes "/rt_realms") f) 0

unfoldable pub rtnl_dsfield_n2a : Files → Names → ℤ → ℕ → Option (Names × Bytes)
unfolding n2a
rtnl_dsfield_n2a f = n2a (from_file (codes "/rt_dsfield") f) signed_text field_text

unfoldable pub rtnl_dsfield_a2n : Files → Names → Bytes → Option (Names × Option ℕ)
unfolding a2n
rtnl_dsfield_a2n f = a2n (from_file (codes "/rt_dsfield") f) 16

-- Here the table is read first, whether the name is there or not.
unfoldable pub nl_proto_n2a : Files → Names → ℤ → ℕ → Option (Names × Bytes)
nl_proto_n2a f n id len = elim (in_table id) [
  | none ↦ some (n, take (len - 1) (unsigned_text id))
  | some i ↦ do
    n' ← initialized (from_file (codes "/nl_protos") f) n
    some (n', value_or (get_or n'.tab i none) (take (len - 1) (unsigned_text id)))
]

unfoldable pub nl_proto_a2n : Files → Names → Bytes → Option (Names × Option ℕ)
unfolding a2n
nl_proto_a2n f = a2n (from_file (codes "/nl_protos") f) 0

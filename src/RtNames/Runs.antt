-- ===== src/RtNames/Runs.antt =====
-- Concrete runs of lib/rt_names.c, lib/names.c and lib/ll_proto.c, and the theorems at concrete inputs: files of
-- a few lines with a decimal number and a name.
use libiproute.Prelude.{
  ℕ, ◌%◌, ◌^◌, ◌≡◌, refl, arith, true, false, Option, none, some, List, [], ◌∷◌, ◌++◌, ◌==◌,
  if◌then◌else◌, Bytes, codes, bytes_eq, set, take, replicate,
}
use libiproute.Prelude.Int.{ℤ, pos, negsuc}
use libiproute.CLib.{strtoul, print_num, run_clib}
use libiproute.RtNames.{
  Files, Names, Table, skip_blank, newline, a2n, n2a, find_name, fread_id_name, read_entry,
  scan_line, tab_lines, tab_round,
}
use libiproute.RtNames.Families.{from_file}
use libiproute.RtNames.Laws.{a2n_stale, a2n-n2a, read_as}
use libiproute.RtNames.Hash.{
  HashEntry, Hash, HashNames, hash_add, find_entry, buckets_loop, hash_a2n, rtnl_rttable_initialize,
  rtnl_rttable_a2n, table_number, hash_loop, hash_lines, hash_round, rtnl_hash_initialize,
}
use libiproute.RtNames.Hash.Laws.{Coherent, looked_up, hash_a2n-Coherent}
use libiproute.RtNames.Hash.Placed.{Placed, hash_add-Placed}
use libiproute.RtNames.Db.{
  Pairs, DbNames, db_names_alloc, db_names_load, name_to_id, id_to_name, idname_max, load_loop,
  load_lines, load_round, read_id_name, scan_id_name, search_id,
}
use libiproute.RtNames.Db.Laws.{Known, db_names_load-Placed, name_to_id-id_to_name}
use libiproute.RtNames.Ends.{lines_step}
use libiproute.RtNames.LlProto.{ll_proto_a2n, proto_id}

to_newline : Bytes → Bytes
to_newline [] = []
to_newline (c ∷ s) = let rest = to_newline s in if c == 10 then [] else c ∷ rest

-- `sscanf` of "%d %s\n", and of no other format.
scan_decimal : Bytes → Bytes → Option (ℤ × Bytes)
scan_decimal format p =
    if bytes_eq format (codes "%d %s" ++ newline)
    then (elim (strtoul 10 p) [
      | none ↦ none
      | some q ↦ some (pos q.value, to_newline (skip_blank q.rest))
    ])
    else none

abbrev etc : Files
etc = record {
  scan = scan_decimal;
  lines = λ path.
      if bytes_eq path (codes "/etc/rt_tables")
      then some (
          (codes "# local" ++ newline)
          ∷ (codes "255 local" ++ newline)
          ∷ (codes "511 vpn" ++ newline)
          ∷ [])
      else none;
  names_in = λ dir. none;
  confdir = codes "/etc";
}

no_names : Hash
no_names b = []

abbrev tables : HashNames
tables = record { hash = no_names; init = false; cache = none; res = 0 }

abbrev scopes : Table
scopes = set (set (replicate 256 none) 0 (some (codes "global"))) 255 (some (codes "nowhere"))

abbrev after_global : Names
after_global = record { tab = scopes; init = true; cache = some (codes "global"); res = 0 }

vpn_is_511 : (rtnl_rttable_a2n etc tables (codes "vpn")).1 ≡ some 511
unfolding run_clib rtnl_rttable_a2n hash_a2n rtnl_rttable_initialize rtnl_hash_initialize hash_loop
    hash_add fread_id_name skip_blank scan_line scan_decimal to_newline buckets_loop find_entry
    bytes_eq no_names
vpn_is_511 = refl

-- 4294967295 is read where "global" was, and then "global" is 4294967295.
a2n_stale_example :
    (n' : Names) × (r : Option ℕ) × (a2n
        (from_file (codes "/rt_scopes") etc)
        0
        after_global
        (codes "4294967295")
      ≡ some (n', r))
    × (a2n (from_file (codes "/rt_scopes") etc) 0 n' (codes "global")
        ≡ some (n', some (read_as 0 (codes "4294967295") % 2 ^ 32)))
unfolding bytes_eq find_name
a2n_stale_example =
    a2n_stale (from_file (codes "/rt_scopes") etc) 0 after_global (codes "global")
      (codes "4294967295") refl refl refl refl

abbrev decimal : ℤ → Bytes
decimal (pos n) = print_num 10 n
decimal (negsuc n) = []

abbrev quiet : Names
quiet = record { tab = scopes; init = true; cache = none; res = 0 }

a2n-n2a_example :
    (text : Bytes) × (n' : Names) × (j : ℕ) × (n2a
        (from_file (codes "/rt_scopes") etc)
        decimal
        decimal
        quiet
        (pos 255)
        64
      ≡ some (quiet, text))
    × (a2n (from_file (codes "/rt_scopes") etc) 0 quiet text ≡ some (n', some j))
    × (n2a (from_file (codes "/rt_scopes") etc) decimal decimal quiet (pos j) 64
        ≡ some (quiet, text))
a2n-n2a_example =
    a2n-n2a (from_file (codes "/rt_scopes") etc) decimal decimal quiet refl 255 64 refl refl
      (λ i h. refl) (omega arith) (omega arith)

abbrev vpn : HashEntry
vpn = record { id = 511; name = codes "vpn" }

vpn_only : Hash
vpn_only = hash_add no_names 511 (codes "vpn")

abbrev after_vpn : HashNames
after_vpn = record { hash = vpn_only; init = true; cache = some (codes "vpn"); res = 511 }

vpn_found : buckets_loop 256 vpn_only (codes "vpn") ≡ some vpn
unfolding buckets_loop find_entry bytes_eq vpn_only hash_add no_names
vpn_found = refl

hash_a2n-Coherent_example :
    ((hash_a2n (rtnl_rttable_initialize etc) table_number after_vpn (codes "vpn")).1
      ≡ looked_up (rtnl_rttable_initialize etc) table_number after_vpn (codes "vpn"))
    × Coherent ((hash_a2n (rtnl_rttable_initialize etc) table_number after_vpn (codes "vpn")).0)
hash_a2n-Coherent_example =
    hash_a2n-Coherent (rtnl_rttable_initialize etc) table_number after_vpn (codes "vpn")
      (refl, vpn, vpn_found, refl)

no_names-Placed : Placed no_names
unfolding no_names
no_names-Placed b h = tt

vpn_only-Placed : Placed vpn_only
unfolding vpn_only
vpn_only-Placed = hash_add-Placed no_names 511 (codes "vpn") no_names-Placed

upper_case_name : ll_proto_a2n false (codes "802.1q") ≡ some (0x81 ∷ 0 ∷ [])
unfolding ll_proto_a2n proto_id bytes_eq
upper_case_name = refl

-- `sscanf` of two hexadecimal numbers with a colon reads nothing here.
abbrev etc_pairs : Pairs
etc_pairs = record { files = etc; pair = λ format p. none }

abbrev loaded : ℤ × DbNames
loaded = db_names_load etc_pairs db_names_alloc (codes "/etc/rt_tables")

loaded_names : (loaded.0 ≡ pos 0) × ((name_to_id (some loaded.1) (codes "vpn")).1 ≡ some 511)
unfolding run_clib db_names_load db_names_alloc load_loop read_id_name scan_id_name read_entry
    hash_add skip_blank scan_line scan_decimal to_newline buckets_loop find_entry bytes_eq
    name_to_id search_id
loaded_names = (refl, refl)

no_file : db_names_load etc_pairs db_names_alloc (codes "/etc/none") ≡ (negsuc 1, db_names_alloc)
unfolding db_names_load bytes_eq
no_file = refl

alloc-Placed : Placed db_names_alloc.hash
unfolding db_names_alloc
alloc-Placed b h = tt

db_names_load-Placed_example : Placed loaded.1.hash
db_names_load-Placed_example =
    db_names_load-Placed etc_pairs db_names_alloc (codes "/etc/rt_tables") alloc-Placed

abbrev vpn_names : DbNames
vpn_names = record { cached = some vpn; hash = vpn_only }

name_to_id-id_to_name_example :
    (db' : DbNames) × (shown : Bytes) × (other : HashEntry) × (name_to_id
        (some vpn_names)
        (codes "vpn")
      ≡ (some db', some 511))
    × (db'.hash ≡ vpn_only)
    × Known db'.cached db'.hash
    × (id_to_name (some db') (pos 511) ≡ some (true, take idname_max shown))
    × (buckets_loop 256 vpn_only shown ≡ some other)
name_to_id-id_to_name_example =
    name_to_id-id_to_name vpn_names (codes "vpn") vpn vpn_only-Placed vpn_found vpn_found

abbrev two_lines : List Bytes
two_lines = (codes "# names" ++ newline) ∷ (codes "7 seven" ++ newline) ∷ []

lines_step_example :
    (tab_lines etc 256 two_lines scopes
      ≡ tab_round (tab_lines etc 256) 256 scopes (fread_id_name etc two_lines))
    × (hash_lines etc two_lines no_names
        ≡ hash_round (hash_lines etc) no_names (fread_id_name etc two_lines))
    × (load_lines etc_pairs two_lines no_names
        ≡ load_round (load_lines etc_pairs) no_names (read_id_name etc_pairs two_lines))
lines_step_example = lines_step etc etc_pairs 256 two_lines scopes no_names

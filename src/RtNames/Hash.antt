-- ===== src/RtNames/Hash.antt =====
-- The names of routing tables and of groups in lib/rt_names.c: chains of
-- entries in 256 buckets by the low byte of the number. A chain is a list, and a bucket its number.
pub mod Laws
pub mod Placed
use libiproute.Prelude.{
  ℕ, zero, suc, ◌+◌, ◌-◌, ◌*◌, ◌/◌, ◌%◌, ◌^◌, Bool, true, false, ◌||◌, not, Option, none, some,
  List, [], ◌∷◌, ◌++◌, ltb, leb, ◌==◌, if◌then◌else◌, ◌>>=◌, Bytes, codes, first_of, value_or,
  bytes_eq, length, take,
}
use libiproute.Prelude.Int.{ℤ, pos, negsuc, wrapped}
use libiproute.CLib.{Parsed, ParsedLong, strtoul, strtol, print_num}
use libiproute.RtNames.{Files, IdName, ended, corrupted, entry, fread_id_name, is_conf, is_cached}

-- struct rtnl_hash_entry
pub record HashEntry : Type 0 where
  pub id : ℕ
  pub name : Bytes

abbrev pub Chain : Type 0
Chain = List HashEntry

abbrev pub Hash : Type 0
Hash = ℕ → Chain

-- `entry->next = hash[id & (size - 1)]; hash[id & (size - 1)] = entry;`
unfoldable pub hash_add : Hash → ℕ → Bytes → Hash
hash_add hash id name b = if b == id % 256 then record { id = id; name = name } ∷ hash b else hash b

-- One round of a loop over the entries of a file, with what it yields at the end and at a bad line.
abbrev pub names_round {ℓ} : {R : Type ℓ} → R → R → (List Bytes → Hash → R) → Hash → IdName → R
names_round at_end bad next hash ended = at_end
names_round at_end bad next hash corrupted = bad
names_round at_end bad next hash (entry (negsuc n) name rest) = next rest hash
names_round at_end bad next hash (entry (pos id) name rest) = next rest (hash_add hash id name)

abbrev pub hash_round : (List Bytes → Hash → Hash) → Hash → IdName → Hash
hash_round next hash = names_round hash hash next hash

unfoldable pub hash_loop : Files → ℕ → List Bytes → Hash → Hash
hash_loop f zero lines hash = hash
hash_loop f (suc rounds) lines hash = hash_round (hash_loop f rounds) hash (fread_id_name f lines)

-- The loop reads one line at least in each round.
abbrev pub hash_lines : Files → List Bytes → Hash → Hash
hash_lines f lines hash = hash_loop f (length lines + 1) lines hash

unfoldable pub rtnl_hash_initialize : Files → Bytes → Hash → Hash
rtnl_hash_initialize f path hash = elim (f.lines path) [
  | none ↦ hash
  | some lines ↦ hash_lines f lines hash
]

unfoldable pub conf_hashes : Files → Bytes → List Bytes → Hash → Hash
conf_hashes f dir [] hash = hash
conf_hashes f dir (name ∷ names) hash =
    conf_hashes f dir names
      (if is_conf name then rtnl_hash_initialize f (dir ++ b'/' ∷ name) hash else hash)

-- `if (rtnl_rttable_hash[i]) rtnl_rttable_hash[i]->id = i;`
abbrev pub number_first : ℕ → Chain → Chain
number_first i [] = []
number_first i (e ∷ chain) = record e { id = i } ∷ chain

unfoldable pub rtnl_rttable_initialize : Files → Hash → Hash
rtnl_rttable_initialize f hash =
    let read =
      rtnl_hash_initialize f (f.confdir ++ codes "/rt_tables") (λ i. number_first i (hash i)) in
    elim (f.names_in (f.confdir ++ codes "/rt_tables.d")) [
      | none ↦ read
      | some names ↦ conf_hashes f (f.confdir ++ codes "/rt_tables.d") names read
    ]

unfoldable pub rtnl_group_initialize : Files → Hash → Hash
rtnl_group_initialize f hash = rtnl_hash_initialize f (f.confdir ++ codes "/group") hash

pub record HashNames : Type 0 where
  pub hash : Hash
  pub init : Bool
  pub cache : Option Bytes
  pub res : ℕ

abbrev pub hash_ready : (Hash → Hash) → HashNames → HashNames
hash_ready load n = if n.init then n else record n { hash = load n.hash; init = true }

-- `while (entry && entry->id != id) entry = entry->next;`
unfoldable pub find_id : Chain → ℕ → Option Bytes
find_id [] id = none
find_id (e ∷ chain) id = if e.id == id then some e.name else find_id chain id

-- `while (entry && strcmp(entry->name, arg)) entry = entry->next;`
unfoldable pub find_entry : Chain → Bytes → Option HashEntry
find_entry [] arg = none
find_entry (e ∷ chain) arg = if bytes_eq e.name arg then some e else find_entry chain arg

-- The loop over the last `rounds` of the 256 buckets.
unfoldable pub buckets_loop : ℕ → Hash → Bytes → Option HashEntry
unfolding find_entry
buckets_loop zero hash arg = none
buckets_loop (suc rounds) hash arg =
    first_of (find_entry (hash (255 - rounds)) arg) (buckets_loop rounds hash arg)

unfoldable pub rtnl_rttable_n2a : Files → HashNames → ℕ → ℕ → HashNames × Bytes
rtnl_rttable_n2a f n id len =
    let n' = hash_ready (rtnl_rttable_initialize f) n in
    (n', value_or (find_id (n'.hash (id % 256)) id) (take (len - 1) (print_num 10 id)))

-- The number that a text is: RT_TABLE_MAX is 2^32 - 1.
abbrev pub table_number : Bytes → Option ℕ
table_number arg = elim (strtoul 0 arg) [
  | none ↦ none
  | some p ↦ if not (length p.rest == 0) || ltb (2 ^ 32 - 1) p.value then none else some p.value
]

-- A `long` cut to an `int`, which is not negative.
abbrev int_of_long : Bool → ℕ → ℕ
int_of_long negative size = (if negative then 2 ^ 64 - size else size) % 2 ^ 32

abbrev pub group_number : Bytes → Option ℕ
group_number arg = elim (strtol 0 arg) [
  | none ↦ none
  | some p ↦
      let i = int_of_long p.negative p.size in
      if not (length p.rest == 0) || leb (2 ^ 31) i then none else some i
]

-- `rtnl_rttable_a2n` and `rtnl_group_a2n`; `res` keeps the number of the cached name.
unfoldable pub hash_a2n :
    (Hash → Hash) → (Bytes → Option ℕ) → HashNames → Bytes → HashNames × Option ℕ
hash_a2n load number n arg =
    if is_cached n.cache arg
    then (n, some n.res)
    else (let n' = hash_ready load n in
        elim (buckets_loop 256 n'.hash arg) [
          | some e ↦ (record n' { cache = some e.name; res = e.id }, some e.id)
          | none ↦ (n', number arg)
        ])

unfoldable pub rtnl_rttable_a2n : Files → HashNames → Bytes → HashNames × Option ℕ
unfolding hash_a2n
rtnl_rttable_a2n f = hash_a2n (rtnl_rttable_initialize f) table_number

unfoldable pub rtnl_group_a2n : Files → HashNames → Bytes → HashNames × Option ℕ
unfolding hash_a2n
rtnl_group_a2n f = hash_a2n (rtnl_group_initialize f) group_number

-- Here all buckets are looked through.
unfoldable pub groups_loop : ℕ → Hash → ℕ → Option Bytes
groups_loop zero hash id = none
groups_loop (suc rounds) hash id =
    first_of (find_id (hash (255 - rounds)) id) (groups_loop rounds hash id)

abbrev group_text : ℤ → Bytes
group_text (pos n) = print_num 10 n
group_text (negsuc n) = b'-' ∷ print_num 10 (n + 1)

unfoldable pub rtnl_group_n2a : Files → HashNames → ℤ → ℕ → HashNames × Bytes
rtnl_group_n2a f n id len =
    let n' = hash_ready (rtnl_group_initialize f) n in
    (n', value_or (groups_loop 256 n'.hash (wrapped 32 id)) (take (len - 1) (group_text id)))

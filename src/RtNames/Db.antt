-- ===== src/RtNames/Db.antt =====
-- lib/names.c: hashes of names that are read from a file, with the lines of lib/rt_names.c and one more
-- format, two hexadecimal numbers of 16 bits with a colon. `sscanf` with it is a parameter, which
-- yields the two numbers as 32 bits. `calloc`, `malloc` and `strdup` have memory.
pub mod Laws
use Prim.Native.Nat.{bit_or}
use libiproute.Prelude.{
  ℕ, zero, suc, ◌+◌, ◌-◌, ◌*◌, ◌%◌, ◌^◌, Bool, true, false, Option, none, some, List, [], ◌∷◌, ◌++◌,
  if◌then◌else◌, Bytes, codes, first_of, bytes_eq, length, take,
}
use libiproute.Prelude.Int.{ℤ, pos, negsuc, int32, wrapped}
use libiproute.RtNames.{Files, IdName, scan_line, read_entry, newline}
use libiproute.RtNames.Families.{signed_text}
use libiproute.RtNames.Hash.{HashEntry, Hash, names_round, find_id, buckets_loop}

pub record Pairs : Type 0 where
  pub files : Files
  pub pair : Bytes → Bytes → Option (ℕ × ℕ × Bytes)

-- *id = (maj << 16) | min
abbrev pub pair_id : Option (ℕ × ℕ × Bytes) → Option (ℤ × Bytes)
pair_id none = none
pair_id (some (maj, min, name)) = some (int32 (bit_or (maj * 2 ^ 16 % 2 ^ 32) min), name)

-- The formats of `read_id_name` in turn.
unfoldable pub scan_id_name : Pairs → Bytes → Option (ℤ × Bytes)
scan_id_name s p =
    first_of (pair_id (s.pair (codes "%x:%x %s" ++ newline) p))
      (first_of (pair_id (s.pair (codes "%x:%x %s #") p)) (scan_line s.files p))

unfoldable pub read_id_name : Pairs → List Bytes → IdName
unfolding scan_id_name read_entry
read_id_name s lines = read_entry (scan_id_name s) lines

-- struct db_names
pub record DbNames : Type 0 where
  pub cached : Option HashEntry
  pub hash : Hash

unfoldable pub db_names_alloc : DbNames
db_names_alloc = record { cached = none; hash = λ b. [] }

abbrev pub load_round : (List Bytes → Hash → ℤ × Hash) → Hash → IdName → ℤ × Hash
load_round next hash = names_round (pos 0, hash) (negsuc 0, hash) next hash

-- The result without rounds is none of the code.
unfoldable pub load_loop : Pairs → ℕ → List Bytes → Hash → ℤ × Hash
load_loop s zero lines hash = (negsuc 0, hash)
load_loop s (suc rounds) lines hash = load_round (load_loop s rounds) hash (read_id_name s lines)

-- The loop reads one line at least in each round.
abbrev pub load_lines : Pairs → List Bytes → Hash → ℤ × Hash
load_lines s lines hash = load_loop s (length lines + 1) lines hash

-- The result, -ENOENT without the file, and the names.
unfoldable pub db_names_load : Pairs → DbNames → Bytes → ℤ × DbNames
db_names_load s db path = elim (s.files.lines path) [
  | none ↦ (negsuc 1, db)
  | some lines ↦ let (ret, hash) = load_lines s lines db.hash in (ret, record db { hash = hash })
]

abbrev pub idname_max : ℕ
idname_max = 256

-- The name of a number that is not negative, as every stored one.
abbrev pub name_of : Hash → ℤ → Option Bytes
name_of hash (pos id) = find_id (hash (id % 256)) id
name_of hash (negsuc n) = none

-- Whether the result is `name` or NULL, and the text in `name`: without a NUL where it has 256
-- characters. `none`: `db` is NULL, and nothing is written.
unfoldable pub id_to_name : Option DbNames → ℤ → Option (Bool × Bytes)
id_to_name none id = none
id_to_name (some db) id = elim (name_of db.hash id) [
  | some name ↦ some (true, take idname_max name)
  | none ↦ some (false, take (idname_max - 1) (signed_text id))
]

-- A result of -1 is `none`.
unfoldable pub search_id : DbNames → Bytes → DbNames × Option ℕ
search_id db name = elim (buckets_loop 256 db.hash name) [
  | some e ↦ (record db { cached = some e }, some e.id)
  | none ↦ (db, none)
]

abbrev pub is_cached_entry : Option HashEntry → Bytes → Option ℕ
is_cached_entry none name = none
is_cached_entry (some e) name = if bytes_eq e.name name then some e.id else none

unfoldable pub name_to_id : Option DbNames → Bytes → Option DbNames × Option ℕ
unfolding search_id
name_to_id none name = (none, none)
name_to_id (some db) name = elim (is_cached_entry db.cached name) [
  | some id ↦ (some db, some id)
  | none ↦ let (db', id) = search_id db name in (some db', id)
]

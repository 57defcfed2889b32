-- ===== src/RtNames.antt =====
-- The names of lib/rt_names.c for protocols, scopes, realms, DS fields and netlink families: tables
-- of 256 names that are filled with the lines of files when a name is first missed. The four scans
-- of a line (`sscanf`), the lines that `fgets` yields for a path, the names of a directory and CONFDIR
-- are the record `Files`; each family is an `int` or what fits it. `strdup` has memory.
pub mod Families
pub mod Laws
pub mod Ends
pub mod Hash
pub mod LlProto
pub mod Db
mod Runs
use libiproute.Prelude.{
  ℕ, zero, suc, ◌+◌, ◌-◌, ◌*◌, ◌/◌, ◌%◌, ◌^◌, Bool, true, false, ◌&&◌, ◌||◌, not, Option, none,
  some, List, [], ◌∷◌, ◌++◌, ltb, leb, ◌==◌, if◌then◌else◌, ◌>>=◌, first_of, value_or, Bytes, codes,
  bytes_eq, length, take, drop, set, get_or, replicate,
}
use libiproute.Prelude.Int.{ℤ, pos, negsuc, wrapped}
use libiproute.CLib.{Parsed, strtoul, print_num}

pub record Files : Type 0 where
  pub scan : Bytes → Bytes → Option (ℤ × Bytes)
  pub lines : Bytes → Option (List Bytes)
  pub names_in : Bytes → Option (List Bytes)
  pub confdir : Bytes

-- What `fread_id_name` returns: 0, -1, or 1 with what it stored.
pub data IdName : Type 0 where
  ended : IdName
  corrupted : IdName
  entry : ℤ → Bytes → List Bytes → IdName

-- `while (*p == ' ' || *p == '\t') p++;`
unfoldable pub skip_blank : Bytes → Bytes
skip_blank [] = []
skip_blank (c ∷ s) = if c == b' ' || c == 9 then skip_blank s else c ∷ s

-- `*p == '#' || *p == '\n' || *p == 0`
abbrev pub nothing_here : Bytes → Bool
nothing_here [] = true
nothing_here (c ∷ s) = c == b'#' || c == 10

abbrev pub newline : Bytes
newline = 10 ∷ []

-- The four formats in turn.
unfoldable pub scan_line : Files → Bytes → Option (ℤ × Bytes)
scan_line f p = first_of (f.scan (codes "0x%x %s" ++ newline) p) (
    first_of (f.scan (codes "0x%x %s #") p)
      (first_of (f.scan (codes "%d %s" ++ newline) p) (f.scan (codes "%d %s #") p)))

-- The loop over the lines, up to one that is scanned.
unfoldable pub read_entry : (Bytes → Option (ℤ × Bytes)) → List Bytes → IdName
unfolding skip_blank
read_entry scan [] = ended
read_entry scan (buf ∷ lines) =
    let rest = read_entry scan lines in
    let p = skip_blank buf in
    if nothing_here p
    then rest
    else (elim (scan p) [ none ↦ corrupted | some (id, name) ↦ entry id name lines ])

unfoldable pub fread_id_name : Files → List Bytes → IdName
unfolding scan_line read_entry
fread_id_name f lines = read_entry (scan_line f) lines

abbrev pub Table : Type 0
Table = List (Option Bytes)

-- One round of the loop of `rtnl_tab_initialize`. `none`: a name is stored behind the table.
abbrev pub tab_round : (List Bytes → Table → Option Table) → ℕ → Table → IdName → Option Table
tab_round next size tab ended = some tab
tab_round next size tab corrupted = some tab
tab_round next size tab (entry (negsuc n) name rest) = next rest tab
tab_round next size tab (entry (pos id) name rest) =
    if ltb size id
    then next rest tab
    else if id == size
    then none
    else next rest (set tab id (some name))

unfoldable pub tab_loop : Files → ℕ → ℕ → List Bytes → Table → Option Table
tab_loop f size zero lines tab = some tab
tab_loop f size (suc rounds) lines tab =
    tab_round (tab_loop f size rounds) size tab (fread_id_name f lines)

-- The loop reads one line at least in each round.
abbrev pub tab_lines : Files → ℕ → List Bytes → Table → Option Table
tab_lines f size lines tab = tab_loop f size (length lines + 1) lines tab

unfoldable pub rtnl_tab_initialize : Files → Bytes → ℕ → Table → Option Table
unfolding tab_loop
rtnl_tab_initialize f path size tab = elim (f.lines path) [
  | none ↦ some tab
  | some lines ↦ tab_lines f size lines tab
]

-- Not hidden, longer than ".conf", and it ends so.
abbrev pub is_conf : Bytes → Bool
is_conf [] = false
is_conf (c ∷ s) =
    not (c == b'.')
    && ltb 5 (length (c ∷ s))
    && bytes_eq (drop (length (c ∷ s) - 5) (c ∷ s)) (codes ".conf")

unfoldable pub conf_files : Files → Bytes → List Bytes → Table → Option Table
conf_files f dir [] tab = some tab
conf_files f dir (name ∷ names) tab =
    let skipped : Option Table = conf_files f dir names tab in
    let read : Option Table = do
      tab' ← rtnl_tab_initialize f (dir ++ b'/' ∷ name) 256 tab
      conf_files f dir names tab'
    in if is_conf name then read else skipped

-- A table with whether its files were read, and the `static` variables of its `…_a2n`.
pub record Names : Type 0 where
  pub tab : Table
  pub init : Bool
  pub cache : Option Bytes
  pub res : ℕ

abbrev pub initialized : (Table → Option Table) → Names → Option Names
initialized load n =
    if n.init then some n else (do tab ← load n.tab; some (record n { tab = tab; init = true }))

abbrev pub is_cached : Option Bytes → Bytes → Bool
is_cached none arg = false
is_cached (some name) arg = bytes_eq name arg

abbrev pub is_name : Option Bytes → Bytes → Bool
is_name none arg = false
is_name (some name) arg = bytes_eq name arg

-- The loop over `i`.
unfoldable pub find_name : Table → ℕ → Bytes → Option ℕ
find_name [] i arg = none
find_name (t ∷ tab) i arg = if is_name t arg then some i else find_name tab (i + 1) arg

-- `res = strtoul(arg, &end, base)`, and then the test.
unfoldable pub number : ℕ → Names → Bytes → Names × Option ℕ
number base n arg = elim (strtoul base arg) [
  | none ↦ (record n { res = 0 }, none)
  | some p ↦ (
    record n { res = p.value },
    if not (length p.rest == 0) || ltb 255 p.value then none else some p.value,
  )
]

unfoldable pub search_names : ℕ → Names → Bytes → Names × Option ℕ
unfolding find_name number
search_names base n arg = elim (find_name n.tab 0 arg) [
  | some i ↦ (record n { cache = some arg; res = i }, some i)
  | none ↦ number base n arg
]

-- `rtnl_rtprot_a2n` and its kin: a result of -1 is `none` inside the pair.
unfoldable pub a2n : (Table → Option Table) → ℕ → Names → Bytes → Option (Names × Option ℕ)
unfolding search_names
a2n load base n arg =
    if is_cached n.cache arg
    then some (n, some (n.res % 2 ^ 32))
    else (do n' ← initialized load n; some (search_names base n' arg))

abbrev in_table : ℤ → Option ℕ
in_table (pos n) = if leb 256 n then none else some n
in_table (negsuc n) = none

-- `rtnl_rtprot_n2a` and its kin: the table is read when the name is missing. `out` is the text of an
-- `id` that is in no table, `unnamed` that of one without a name.
unfoldable pub n2a :
    (Table → Option Table) → (ℤ → Bytes) → (ℤ → Bytes) → Names → ℤ → ℕ → Option (Names × Bytes)
n2a load out unnamed n id len = elim (in_table id) [
  | none ↦ some (n, take (len - 1) (out id))
  | some i ↦ elim (get_or n.tab i none) [
    | some name ↦ some (n, name)
    | none ↦ do
      n' ← initialized load n
      some (n', value_or (get_or n'.tab i none) (take (len - 1) (unnamed id)))
  ]
]

-- ===== src/LlMap.antt =====
-- The map of interfaces, lib/ll_map.c: `ll_remember_index`, the lookups and `ll_idx_n2a`.
-- An entry is an address in a heap; the two tables of hash chains hold addresses.
pub mod Event
pub mod Laws
pub mod Index
pub mod Refines
pub mod Listed
pub mod History
pub mod Rename
pub mod Names
pub mod Init
mod Runs
use libiproute.Prelude.{
  ℕ, zero, suc, ◌+◌, ◌-◌, ◌*◌, ◌/◌, ◌%◌, ◌^◌, Bool, true, false, not, Option, none, some, List, [],
  ◌∷◌, ◌++◌, leb, ◌==◌, if◌then◌else◌, ◌>>=◌, Bytes, codes, bytes_eq, take,
}
use libiproute.Prelude.Int.{ℤ, pos, negsuc}
use libiproute.CLib.{Parsed, strtoul, print_num, run_clib}

-- `struct ll_cache` without its hash nodes.
pub record Cache : Type 0 where
  pub flags : ℕ
  pub index : ℕ
  pub type : ℕ
  pub name : Bytes

-- What the bytes at each address hold, which addresses are allocated, the two tables of chains, and
-- an address beyond all that were allocated.
pub record Map : Type 0 where
  pub heap : ℕ → Cache
  pub live : ℕ → Bool
  pub idx_head : ℕ → List ℕ
  pub name_head : ℕ → List ℕ
  pub next : ℕ

abbrev pub idxmap_size : ℕ
idxmap_size = 1024

abbrev pub ifnamsiz : ℕ
ifnamsiz = 16

abbrev pub idx_slot : ℕ → ℕ
idx_slot index = index % idxmap_size

-- The first entry of a chain that passes the test.
unfoldable pub find : (Cache → Bool) → (ℕ → Cache) → List ℕ → Option ℕ
find test heap [] = none
find test heap (p ∷ chain) = if test (heap p) then some p else find test heap chain

abbrev pub has_index : ℕ → Cache → Bool
has_index index im = im.index == index

unfoldable pub ll_get_by_index : Map → ℕ → Option ℕ
ll_get_by_index m index = find (has_index index) m.heap (m.idx_head (idx_slot index))

-- `char` is signed, and the hash has 32 bits.
unfoldable pub hash_loop : ℕ → Bytes → ℕ
hash_loop hash [] = hash
hash_loop hash (c ∷ str) =
    hash_loop ((hash * 33 + c + (if leb 128 c then 2 ^ 32 - 256 else 0)) % 2 ^ 32) str

unfoldable pub namehash : Bytes → ℕ
unfolding hash_loop
namehash str = hash_loop 5381 str

unfoldable pub name_slot : Bytes → ℕ
name_slot name = namehash name % idxmap_size

-- `strncmp(im->name, name, IFNAMSIZ) == 0`
abbrev pub has_name : Bytes → Cache → Bool
has_name name im = bytes_eq (take ifnamsiz im.name) (take ifnamsiz name)

unfoldable pub ll_get_by_name : Map → Bytes → Option ℕ
ll_get_by_name m name = find (has_name name) m.heap (m.name_head (name_slot name))

-- `hlist_del`: the node leaves the chain in which it stands.
unfoldable pub remove : ℕ → List ℕ → List ℕ
remove p [] = []
remove p (q ∷ chain) = let rest = remove p chain in if q == p then rest else q ∷ rest

abbrev pub hlist_del : ℕ → (ℕ → List ℕ) → ℕ → List ℕ
hlist_del p head h = remove p (head h)

-- `hlist_add_head`
abbrev pub hlist_add_head : ℕ → ℕ → (ℕ → List ℕ) → ℕ → List ℕ
hlist_add_head p slot head h = if h == slot then p ∷ head h else head h

abbrev pub update {ℓ} : {A : Type ℓ} → (ℕ → A) → ℕ → A → ℕ → A
update f p v q = if q == p then v else f q

-- `RTM_DELLINK`
unfoldable pub forget : Map → ℕ → Map
forget m p = record m {
  name_head = hlist_del p m.name_head;
  idx_head = hlist_del p m.idx_head;
  live = update m.live p false;
}

-- A change to an existing entry: the node goes to the chain of the new name, the name stays.
unfoldable pub change : Map → ℕ → ℕ → Bytes → Map
change m p flags ifname =
    let heap' = update m.heap p (record (m.heap p) { flags = flags }) in
    if bytes_eq (m.heap p).name ifname then record m { heap = heap' } else record m {
      heap = heap';
      name_head = hlist_add_head p (name_slot ifname) (hlist_del p m.name_head);
    }

-- A new entry, at an address that `malloc` gives.
unfoldable pub enter : Map → Cache → Map
enter m im = record {
  heap = update m.heap m.next im;
  live = update m.live m.next true;
  idx_head = hlist_add_head m.next (idx_slot im.index) m.idx_head;
  name_head = hlist_add_head m.next (name_slot im.name) m.name_head;
  next = m.next + 1;
}

-- The tables at the start.
unfoldable pub empty_map : Map
empty_map = record {
  heap = λ p. record { flags = 0; index = 0; type = 0; name = [] };
  live = λ p. false;
  idx_head = λ h. [];
  name_head = λ h. [];
  next = 0;
}

-- `snprintf(buf, sizeof(buf), "if%u", idx)`
unfoldable pub ll_idx_n2a : ℕ → Bytes
ll_idx_n2a idx = take (ifnamsiz - 1) (codes "if" ++ print_num 10 idx)

abbrev pub scanned : Option Parsed → ℕ
scanned none = 0
scanned (some p) = p.value % 2 ^ 32

-- `sscanf(name, "if%u", &idx)`: the number as `strtoul` reads it, in 32 bits.
unfoldable pub ll_idx_a2n : Bytes → ℕ
ll_idx_a2n [] = 0
ll_idx_a2n (c ∷ []) = 0
ll_idx_a2n (c ∷ d ∷ s) =
    if not (c == b'i') then 0 else if not (d == b'f') then 0 else scanned (strtoul 10 s)

abbrev pub at_address : (ℕ → Cache) → Option ℕ → Option Cache
at_address heap none = none
at_address heap (some p) = some (heap p)

abbrev pub entry_of : Map → ℕ → Option Cache
entry_of m index = at_address m.heap (ll_get_by_index m index)

-- Of the C library: `if_indextoname` and `if_nametoindex`, whose 0 stands for no interface.
module _ (if_indextoname : ℕ → Option Bytes) (if_nametoindex : Bytes → ℕ) where
  unfoldable pub ll_index_to_name : Map → ℕ → Bytes
  ll_index_to_name m idx = if idx == 0 then codes "*" else (elim (entry_of m idx) [
    | some im ↦ im.name
    | none ↦ elim (if_indextoname idx) [ some name ↦ name | none ↦ ll_idx_n2a idx ]
  ])

  unfoldable pub ll_name_to_index : Map → Option Bytes → ℕ
  ll_name_to_index m none = 0
  ll_name_to_index m (some name) = elim (ll_get_by_name m name) [
    | some p ↦ (m.heap p).index
    | none ↦ if if_nametoindex name == 0 then ll_idx_a2n name else if_nametoindex name
  ]

unfoldable pub ll_index_to_type : Map → ℕ → ℤ
ll_index_to_type m idx =
    if idx == 0
    then negsuc 0
    else (elim (entry_of m idx) [ some im ↦ pos im.type | none ↦ negsuc 0 ])

-- `im->flags` as an `int`.
unfoldable pub ll_index_to_flags : Map → ℕ → ℤ
ll_index_to_flags m idx = if idx == 0 then pos 0 else (elim (entry_of m idx) [
  | some im ↦ if leb (2 ^ 31) im.flags then negsuc (2 ^ 32 - 1 - im.flags) else pos im.flags
  | none ↦ negsuc 0
])

-- Opens this module for a run.
unfoldable pub run_map : ℕ
unfolding find ll_get_by_index hash_loop namehash name_slot ll_get_by_name remove forget change
    enter empty_map ll_idx_n2a ll_idx_a2n bytes_eq run_clib
run_map = 0

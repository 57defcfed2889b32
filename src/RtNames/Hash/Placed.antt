-- ===== src/RtNames/Hash/Placed.antt =====
-- The buckets in which the entries of the hashes of lib/rt_names.c stand, which the search by number in
-- one bucket relies on.
use libiproute.Prelude.{
  ℕ, zero, suc, ◌+◌, ◌-◌, ◌%◌, ◌<◌, ◌≤◌, ◌≡◌, refl, sym, ap, ◌∙◌, arith, true, Option, none, some,
  List, [], ◌∷◌, ◌++◌, ◌==◌, Bytes, codes, bytes_eq, bytes_eq_self, length, Bool-cases,
  Option-cases, inl, inr,
}
use libiproute.Prelude.Int.{pos, negsuc}
use libiproute.RtNames.{Files, is_name, IdName, ended, corrupted, entry, fread_id_name, is_conf}
use libiproute.RtNames.Hash.{
  HashEntry, Chain, Hash, hash_add, hash_loop, names_round, rtnl_hash_initialize, conf_hashes,
  HashNames, rtnl_rttable_n2a, rtnl_rttable_initialize, find_id, find_entry, buckets_loop,
  number_first,
}

abbrev pub InBucket : ℕ → Chain → Type 0
InBucket b [] = Unit
InBucket b (e ∷ chain) = (e.id % 256 ≡ b) × InBucket b chain

-- Of the 256 buckets.
abbrev pub Placed : Hash → Type 0
Placed hash = (b : ℕ) → b < 256 → InBucket b (hash b)

pub hash_add-Placed :
    (hash : Hash) (id : ℕ) (name : Bytes) → Placed hash → Placed (hash_add hash id name)
unfolding hash_add
hash_add-Placed hash id name placed b h = elim (Bool-cases (b == id % 256)) [
  | inl e ↦ let here : b ≡ id % 256 = ground arith in rw e (sym here, placed b h)
  | inr e ↦ rw e (placed b h)
]

pub names_round-Placed {ℓ} :
    {R : Type ℓ} (table : R → Hash) (at_end bad : R) (next : List Bytes → Hash → R)
    → Placed (table at_end)
    → Placed (table bad)
    → ((rest : List Bytes) (hash : Hash) → Placed hash → Placed (table (next rest hash)))
    → (hash : Hash) (r : IdName) → Placed hash
    → Placed (table (names_round at_end bad next hash r))
names_round-Placed table at_end bad next he hb keeps hash ended placed = he
names_round-Placed table at_end bad next he hb keeps hash corrupted placed = hb
names_round-Placed table at_end bad next he hb keeps hash (entry (negsuc n) name rest) placed =
    keeps rest hash placed
names_round-Placed table at_end bad next he hb keeps hash (entry (pos id) name rest) placed =
    keeps rest (hash_add hash id name) (hash_add-Placed hash id name placed)

hash_loop-Placed :
    (f : Files) (rounds : ℕ) (lines : List Bytes) (hash : Hash)
    → Placed hash
    → Placed (hash_loop f rounds lines hash)
unfolding hash_loop
hash_loop-Placed f zero lines hash placed = placed
hash_loop-Placed f (suc rounds) lines hash placed =
    names_round-Placed (λ (h : Hash). h) hash hash (hash_loop f rounds) placed placed
      (λ rest hash' k. hash_loop-Placed f rounds rest hash' k) hash (fread_id_name f lines) placed

rtnl_hash_initialize-Placed :
    (f : Files) (path : Bytes) (hash : Hash)
    → Placed hash
    → Placed (rtnl_hash_initialize f path hash)
unfolding rtnl_hash_initialize
rtnl_hash_initialize-Placed f path hash placed b h = elim (Option-cases (f.lines path)) [
  | inl e ↦ rw (e, InBucket) (placed b h)
  | inr (lines, e) ↦ rw (e, InBucket) (hash_loop-Placed f (length lines + 1) lines hash placed b h)
]

conf_hashes-Placed :
    (f : Files) (dir : Bytes) (names : List Bytes) (hash : Hash)
    → Placed hash
    → Placed (conf_hashes f dir names hash)
unfolding conf_hashes
conf_hashes-Placed f dir [] hash placed = placed
conf_hashes-Placed f dir (name ∷ names) hash placed = elim (Bool-cases (is_conf name)) [
  | inl e ↦ rw e (
      conf_hashes-Placed f dir names (rtnl_hash_initialize f (dir ++ b'/' ∷ name) hash)
        (rtnl_hash_initialize-Placed f (dir ++ b'/' ∷ name) hash placed))
  | inr e ↦ rw e (conf_hashes-Placed f dir names hash placed)
]

number_first-InBucket :
    (b : ℕ) (chain : Chain) → b < 256 → InBucket b chain → InBucket b (number_first b chain)
number_first-InBucket b [] h placed = tt
number_first-InBucket b (e ∷ chain) h placed = (omega arith, placed.1)

-- Reading the files of the routing tables leaves every entry in the bucket of its number, whatever
-- they hold, when every entry was there.
pub rtnl_rttable_initialize-Placed :
    (f : Files) (hash : Hash) → Placed hash → Placed (rtnl_rttable_initialize f hash)
unfolding rtnl_rttable_initialize
rtnl_rttable_initialize-Placed f hash placed =
    let read =
      rtnl_hash_initialize-Placed f (f.confdir ++ codes "/rt_tables") (λ i. number_first i (hash i))
        (λ b h. number_first-InBucket b (hash b) h (placed b h)) in
    elim (Option-cases (f.names_in (f.confdir ++ codes "/rt_tables.d"))) [
      | inl e ↦ rw (e, rtnl_rttable_initialize) read
      | inr (names, e) ↦
          rw (e, rtnl_rttable_initialize)
            (conf_hashes-Placed f (f.confdir ++ codes "/rt_tables.d") names
              (rtnl_hash_initialize f (f.confdir ++ codes "/rt_tables")
                (λ i. number_first i (hash i)))
              read)
    ]

abbrev id_or_zero : Option HashEntry → ℕ
id_or_zero none = 0
id_or_zero (some e) = e.id

-- A name in a chain is what the number of its entry finds, or a later one hides it by another.
find_entry-find_id :
    (chain : Chain) (arg : Bytes) (e : HashEntry)
    → find_entry chain arg ≡ some e
    → (name : Bytes) × (find_id chain e.id ≡ some name)
unfolding find_entry find_id
find_entry-find_id [] arg e h = cc
find_entry-find_id (c ∷ chain) arg e h = elim (Bool-cases (c.id == e.id)) [
  | inl same ↦ (c.name, rw same refl)
  | inr other ↦ elim (Bool-cases (bytes_eq c.name arg)) [
    | inl named ↦
        let here : some c ≡ some e = rw named at h in
        absurd (ground (arith, ap (λ (o : Option HashEntry). id_or_zero o) here))
    | inr unnamed ↦ rw other (find_entry-find_id chain arg e (rw unnamed at h))
  ]
]

find_id-find_entry :
    (chain : Chain) (id : ℕ) (name : Bytes)
    → find_id chain id ≡ some name
    → (e : HashEntry) × (find_entry chain name ≡ some e)
unfolding find_entry find_id
find_id-find_entry [] id name h = cc
find_id-find_entry (c ∷ chain) id name h = elim (Bool-cases (bytes_eq c.name name)) [
  | inl named ↦ (c, rw named refl)
  | inr unnamed ↦ elim (Bool-cases (c.id == id)) [
    | inl same ↦
        let here : some c.name ≡ some name = rw same at h in
        absurd (ground (arith, bytes_eq_self name, ap (λ (o : Option Bytes). is_name o name) here))
    | inr other ↦ rw unnamed (find_id-find_entry chain id name (rw other at h))
  ]
]

buckets_loop-find_entry :
    (rounds : ℕ) (hash : Hash) (arg : Bytes) (e : HashEntry)
    → buckets_loop rounds hash arg ≡ some e
    → (b : ℕ) × (b < 256) × (find_entry (hash b) arg ≡ some e)
unfolding buckets_loop
buckets_loop-find_entry zero hash arg e h = cc
buckets_loop-find_entry (suc rounds) hash arg e h =
    elim (Option-cases (find_entry (hash (255 - rounds)) arg)) [
      | inl z ↦ buckets_loop-find_entry rounds hash arg e (rw z at h)
      | inr (c, z) ↦ (255 - rounds, omega arith, z ∙ rw z at h)
    ]

find_entry-buckets_loop :
    (rounds : ℕ) (hash : Hash) (arg : Bytes) (b : ℕ) (e : HashEntry)
    → b < 256
    → 256 ≤ b + rounds
    → find_entry (hash b) arg ≡ some e
    → (found : HashEntry) × (buckets_loop rounds hash arg ≡ some found)
unfolding buckets_loop
find_entry-buckets_loop zero hash arg b e h high found = absurd (omega arith)
find_entry-buckets_loop (suc rounds) hash arg b e h high found =
    elim (Option-cases (find_entry (hash (255 - rounds)) arg)) [
      | inr (c, z) ↦ (c, rw z refl)
      | inl z ↦ elim (Bool-cases (b == 255 - rounds)) [
        | inl same ↦
            let here : b ≡ 255 - rounds = ground arith in
            absurd (ground (arith, sym (ap (λ (i : ℕ). find_entry (hash i) arg) here) ∙ found))
        | inr other ↦
            let behind : 256 ≤ b + rounds = ground arith in
            rw z (find_entry-buckets_loop rounds hash arg b e h behind found)
      ]
    ]

in_own_bucket :
    (chain : Chain) (b : ℕ) (arg : Bytes) (e : HashEntry)
    → InBucket b chain
    → find_entry chain arg ≡ some e
    → e.id % 256 ≡ b
unfolding find_entry
in_own_bucket [] b arg e placed h = cc
in_own_bucket (c ∷ chain) b arg e placed h = elim (Bool-cases (bytes_eq c.name arg)) [
  | inl named ↦
      let here : some c ≡ some e = rw named at h in
      ap (λ (o : Option HashEntry). id_or_zero o % 256) (sym here) ∙ placed.0
  | inr unnamed ↦ in_own_bucket chain b arg e placed.1 (rw unnamed at h)
]

-- The number of a known name finds a known name.
pub number-named :
    (hash : Hash) (arg : Bytes) (e : HashEntry)
    → Placed hash
    → buckets_loop 256 hash arg ≡ some e
    → (name : Bytes) × (other : HashEntry) × (find_id (hash (e.id % 256)) e.id ≡ some name)
      × (buckets_loop 256 hash name ≡ some other)
number-named hash arg e placed known =
    let (b, low, found) = buckets_loop-find_entry 256 hash arg e known in
    let own : e.id % 256 ≡ b = in_own_bucket (hash b) b arg e (placed b low) found in
    let (name, shown) = find_entry-find_id (hash b) arg e found in
    let (c, back) = find_id-find_entry (hash b) e.id name shown in
    let (other, searched) = find_entry-buckets_loop 256 hash name b c low (omega arith) back in
    (name, other, ap (λ (i : ℕ). find_id (hash i) e.id) own ∙ shown, searched)

-- With the files read and every entry in its bucket: the number that the search answers for a known
-- name is printed as a name, never as a number, and that name is known to the search.
pub rtnl_rttable_n2a-named :
    (f : Files) (n : HashNames) (arg : Bytes) (e : HashEntry) (len : ℕ)
    → n.init ≡ true
    → Placed n.hash
    → buckets_loop 256 n.hash arg ≡ some e
    → (name : Bytes) × (other : HashEntry) × (rtnl_rttable_n2a f n e.id len ≡ (n, name))
      × (buckets_loop 256 n.hash name ≡ some other)
unfolding rtnl_rttable_n2a
rtnl_rttable_n2a-named f n arg e len ready placed known =
    let (name, other, shown, searched) = number-named n.hash arg e placed known in
    (name, other, rw (ready, shown) refl, searched)

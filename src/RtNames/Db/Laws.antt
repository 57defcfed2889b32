-- ===== src/RtNames/Db/Laws.antt =====
-- The names of lib/names.c: the buckets of the entries, and the entry that is kept.
use libiproute.Prelude.{
  ℕ, zero, suc, ◌+◌, ◌%◌, ◌≡◌, refl, sym, ap, ◌∙◌, true, Option, none, some, List, Bytes, bytes_eq,
  bytes_eq→eq, length, take, Bool-cases, Option-cases, inl, inr, ◌⊎◌,
}
use libiproute.Prelude.Int.{ℤ, pos, negsuc}
use libiproute.RtNames.Hash.{HashEntry, Hash, find_id, buckets_loop}
use libiproute.RtNames.Hash.Placed.{Placed, names_round-Placed, number-named}
use libiproute.RtNames.Hash.Laws.{buckets_loop-name}
use libiproute.RtNames.Db.{
  Pairs, DbNames, read_id_name, load_loop, db_names_load, idname_max, id_to_name, search_id,
  is_cached_entry, name_to_id,
}

load_loop-Placed :
    (s : Pairs) (rounds : ℕ) (lines : List Bytes) (hash : Hash)
    → Placed hash
    → Placed ((load_loop s rounds lines hash).1)
unfolding load_loop
load_loop-Placed s zero lines hash placed = placed
load_loop-Placed s (suc rounds) lines hash placed =
    names_round-Placed (λ (r : ℤ × Hash). r.1) (pos 0, hash) (negsuc 0, hash) (load_loop s rounds)
      placed placed (λ rest hash' k. load_loop-Placed s rounds rest hash' k) hash
      (read_id_name s lines) placed

-- Loading a file, whatever it holds and whatever the result is, leaves every entry in the bucket of its
-- number, when every entry was there.
pub db_names_load-Placed :
    (s : Pairs) (db : DbNames) (path : Bytes)
    → Placed db.hash
    → Placed ((db_names_load s db path).1.hash)
unfolding db_names_load
db_names_load-Placed s db path placed = elim (Option-cases (s.files.lines path)) [
  | inl e ↦ rw (e, db_names_load) placed
  | inr (lines, e) ↦
      rw (e, db_names_load) (load_loop-Placed s (length lines + 1) lines db.hash placed)
]

-- The entry that is kept, if any, is the one that its name finds.
abbrev pub Known : Option HashEntry → Hash → Type 0
Known none hash = Unit
Known (some e) hash = buckets_loop 256 hash e.name ≡ some e

abbrev number_of : Option HashEntry → Option ℕ
number_of none = none
number_of (some e) = some e.id

cached_answer :
    (c : Option HashEntry) (hash : Hash) (name : Bytes) (e : HashEntry)
    → Known c hash
    → buckets_loop 256 hash name ≡ some e
    → (is_cached_entry c name ≡ some e.id) ⊎ (is_cached_entry c name ≡ none)
cached_answer none hash name e known found = inr refl
cached_answer (some k) hash name e known found = elim (Bool-cases (bytes_eq k.name name)) [
  | inr other ↦ inr (rw other refl)
  | inl this ↦
      let same : some k ≡ some e =
        sym known ∙ ap (buckets_loop 256 hash) (bytes_eq→eq k.name name this) ∙ found in
      inl (rw this (ap (λ (o : Option HashEntry). number_of o) same))
]

module _ (db : DbNames) (name : Bytes) where
  name_to_id-hit :
      (id : ℕ)
      → is_cached_entry db.cached name ≡ some id
      → name_to_id (some db) name ≡ (some db, some id)
  unfolding name_to_id
  name_to_id-hit id h = rw (h, name_to_id) refl

  name_to_id-miss :
      (e : HashEntry)
      → is_cached_entry db.cached name ≡ none
      → buckets_loop 256 db.hash name ≡ some e
      → name_to_id (some db) name ≡ (some (record db { cached = some e }), some e.id)
  unfolding name_to_id
  name_to_id-miss e h found = rw (h, name_to_id, found, search_id) refl

  id_to_name-shown :
      (id : ℕ) (shown : Bytes)
      → find_id (db.hash (id % 256)) id ≡ some shown
      → id_to_name (some db) (pos id) ≡ some (true, take idname_max shown)
  unfolding id_to_name
  id_to_name-shown id shown h = rw (h, id_to_name) refl

-- A name that the search of the buckets finds, with every entry in its bucket and a kept entry that
-- its name finds: whatever is kept, name_to_id answers the number that the search finds, changes no
-- entry, and what it keeps is found by its name, too. For that number id_to_name then yields a name,
-- cut to 256 characters, which the search finds.
pub name_to_id-id_to_name :
    (db : DbNames) (name : Bytes) (e : HashEntry)
    → Placed db.hash
    → Known db.cached db.hash
    → buckets_loop 256 db.hash name ≡ some e
    → (db' : DbNames) × (shown : Bytes) × (other : HashEntry) × (name_to_id (some db) name
        ≡ (some db', some e.id))
      × (db'.hash ≡ db.hash)
      × Known db'.cached db'.hash
      × (id_to_name (some db') (pos e.id) ≡ some (true, take idname_max shown))
      × (buckets_loop 256 db.hash shown ≡ some other)
name_to_id-id_to_name db name e placed known found =
    let (shown, other, text, back) = number-named db.hash name e placed found in
    elim (cached_answer db.cached db.hash name e known found) [
      | inl hit ↦ (
        db,
        shown,
        other,
        name_to_id-hit db name e.id hit,
        refl,
        known,
        id_to_name-shown db name e.id shown text,
        back,
      )
      | inr miss ↦
          let kept : DbNames = record db { cached = some e } in
          let named = buckets_loop-name 256 db.hash name e found in
          (
            kept,
            shown,
            other,
            name_to_id-miss db name e miss found,
            refl,
            ap (buckets_loop 256 db.hash) named ∙ found,
            id_to_name-shown kept name e.id shown text,
            back,
          )
    ]

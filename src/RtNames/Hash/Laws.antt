-- ===== src/RtNames/Hash/Laws.antt =====
-- The hashes of lib/rt_names.c: the lines for one number, and the cached name of a reading.
use libiproute.Prelude.{
  ℕ, zero, suc, ◌-◌, ◌%◌, ◌≡◌, refl, sym, ap, ◌∙◌, arith, true, false, Option, none, some, [], ◌∷◌,
  ◌==◌, if◌then◌else◌, Bytes, bytes_eq, bytes_eq→eq, Bool-cases, Option-cases, inl, inr,
}
use mathlib.Core.Path.{subst}
use libiproute.RtNames.{is_cached}
use libiproute.RtNames.Hash.{
  HashEntry, Chain, Hash, HashNames, hash_add, hash_ready, find_id, find_entry, buckets_loop,
  hash_a2n,
}

-- A name that is added is what its number finds, in place of any name it had, and every other number
-- finds what it found.
pub find_id-hash_add :
    (hash : Hash) (id : ℕ) (name : Bytes) (j : ℕ)
    → find_id (hash_add hash id name (j % 256)) j
      ≡ (if id == j then some name else find_id (hash (j % 256)) j)
unfolding find_id hash_add
find_id-hash_add hash id name j = elim (Bool-cases (id == j)) [
  | inl e ↦ ground arith
  | inr e ↦ ground arith
]

find_entry-name :
    (chain : Chain) (arg : Bytes) (e : HashEntry) → find_entry chain arg ≡ some e → e.name ≡ arg
unfolding find_entry
find_entry-name [] arg e h = cc
find_entry-name (c ∷ chain) arg e h = elim (Bool-cases (bytes_eq c.name arg)) [
  | inl z ↦ ground (arith, bytes_eq→eq c.name arg z)
  | inr z ↦ find_entry-name chain arg e (ground arith)
]

pub buckets_loop-name :
    (rounds : ℕ) (hash : Hash) (arg : Bytes) (e : HashEntry)
    → buckets_loop rounds hash arg ≡ some e
    → e.name ≡ arg
unfolding buckets_loop
buckets_loop-name zero hash arg e h = cc
buckets_loop-name (suc rounds) hash arg e h =
    elim (Option-cases (find_entry (hash (255 - rounds)) arg)) [
      | inl z ↦ buckets_loop-name rounds hash arg e (rw z at h)
      | inr (c, z) ↦ find_entry-name (hash (255 - rounds)) arg e (z ∙ rw z at h)
    ]

-- The files are read, and the name that is kept, if any, is found with the number that is kept.
abbrev pub CoherentWith : Option Bytes → HashNames → Type 0
CoherentWith none n = Unit
CoherentWith (some name) n =
    (n.init ≡ true) × (e : HashEntry) × (buckets_loop 256 n.hash name ≡ some e) × (e.id ≡ n.res)

abbrev pub Coherent : HashNames → Type 0
Coherent n = CoherentWith n.cache n

abbrev number_or : Option HashEntry → Option ℕ → Option ℕ
number_or none b = b
number_or (some e) b = some e.id

-- The answer without a cache.
abbrev pub looked_up : (Hash → Hash) → (Bytes → Option ℕ) → HashNames → Bytes → Option ℕ
looked_up load number n arg = number_or (buckets_loop 256 (hash_ready load n).hash arg) (number arg)

ready_init : (load : Hash → Hash) (n : HashNames) → (hash_ready load n).init ≡ true
ready_init load n = elim (Bool-cases n.init) [ inl e ↦ ground arith | inr e ↦ ground arith ]

ready_cache : (load : Hash → Hash) (n : HashNames) → (hash_ready load n).cache ≡ n.cache
ready_cache load n = elim (Bool-cases n.init) [ inl e ↦ ground arith | inr e ↦ ground arith ]

ready_with :
    (load : Hash → Hash) (n : HashNames) (c : Option Bytes)
    → CoherentWith c n
    → CoherentWith c (hash_ready load n)
ready_with load n none h = h
ready_with load n (some name) (ready, e, found, same) = rw ready (refl, e, found, same)

ready-Coherent : (load : Hash → Hash) (n : HashNames) → Coherent n → Coherent (hash_ready load n)
ready-Coherent load n h = rw (ready_cache load n) (ready_with load n n.cache h)

cached_answer :
    (load : Hash → Hash) (number : Bytes → Option ℕ) (n : HashNames) (arg : Bytes)
    → is_cached n.cache arg ≡ true
    → hash_a2n load number n arg ≡ (n, some n.res)
unfolding hash_a2n
cached_answer load number n arg hit = rw hit refl

found_answer :
    (load : Hash → Hash) (number : Bytes → Option ℕ) (n : HashNames) (arg : Bytes) (e : HashEntry)
    → n.init ≡ true
    → buckets_loop 256 n.hash arg ≡ some e
    → looked_up load number n arg ≡ some e.id
found_answer load number n arg e ready found = rw (ready, found) refl

-- Whatever was read before, as long as the cache is coherent, as it is at the start with nothing in
-- it: a reading answers what the search of the buckets, filled from the files if they were not read,
-- answers with the number of the text behind it, and it leaves a coherent cache.
pub hash_a2n-Coherent :
    (load : Hash → Hash) (number : Bytes → Option ℕ) (n : HashNames) (arg : Bytes)
    → Coherent n
    → ((hash_a2n load number n arg).1 ≡ looked_up load number n arg)
      × Coherent ((hash_a2n load number n arg).0)
unfolding hash_a2n
hash_a2n-Coherent load number n arg h = by_cache n.cache refl h
  where
    searched :
        is_cached n.cache arg ≡ false
        → ((hash_a2n load number n arg).1 ≡ looked_up load number n arg)
          × Coherent ((hash_a2n load number n arg).0)
    searched other = elim (Option-cases (buckets_loop 256 ((hash_ready load n).hash) arg)) [
      | inl e ↦ rw (other, e) (refl, ready-Coherent load n h)
      | inr (c, e) ↦
          let named = buckets_loop-name 256 ((hash_ready load n).hash) arg c e in
          rw (other, e)
            (
              refl,
              (
                ready_init load n,
                c,
                ap (buckets_loop 256 (hash_ready load n).hash) named ∙ e,
                refl,
              ),
            )
    ]

    by_cache :
        (c : Option Bytes)
        → n.cache ≡ c
        → CoherentWith c n
        → ((hash_a2n load number n arg).1 ≡ looked_up load number n arg)
          × Coherent ((hash_a2n load number n arg).0)
    by_cache none z k = searched (rw z refl)
    by_cache (some name) z (ready, e, found, same) = elim (Bool-cases (bytes_eq name arg)) [
      | inr other ↦ searched (rw z other)
      | inl this ↦
          let same_text = bytes_eq→eq name arg this in
          let hit = cached_answer load number n arg (rw z this) in
          let found' = ap (buckets_loop 256 n.hash) (sym same_text) ∙ found in
          (
            ap (λ (r : HashNames × Option ℕ). r.1) hit
                ∙ ap some (sym same)
                ∙ sym (found_answer load number n arg e ready found'),
            subst (λ (r : HashNames × Option ℕ). Coherent r.0) (sym hit) h,
          )
    ]

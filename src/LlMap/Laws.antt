-- ===== src/LlMap/Laws.antt =====
-- Searching a chain, when entries are removed, added and changed, and the invariant of the tables.
use libiproute.Prelude.{
  ℕ, ◌<◌, ◌≡◌, refl, sym, ap, ◌∙◌, arith, Bool, true, false, none, some, List, [], ◌∷◌, All, ◌==◌,
  Bool-cases, inl, inr, ==→eq,
}
use libiproute.LlMap.{Cache, Map, find, has_index, remove, update}

module _ (test : Cache → Bool) (heap : ℕ → Cache) where
  pub find-test : (c : List ℕ) (p : ℕ) → find test heap c ≡ some p → test (heap p) ≡ true
  unfolding find
  find-test [] p e = cc
  find-test (q ∷ c) p e = ground (arith, find-test c p)

  pub find-remove_ne :
      (p : ℕ) (c : List ℕ) → test (heap p) ≡ false → find test heap (remove p c) ≡ find test heap c
  unfolding find remove
  find-remove_ne p [] h = refl
  find-remove_ne p (q ∷ c) h = elim (Bool-cases (q == p)) [
    | inl same ↦
        let e = ==→eq q p same in
        ground (arith, find-remove_ne p c h, ap (λ (t : ℕ). test (heap t)) e)
    | inr differs ↦ ground (arith, find-remove_ne p c h)
  ]

  find-remove_absent :
      (p : ℕ) (c : List ℕ) → find test heap c ≡ none → find test heap (remove p c) ≡ none
  unfolding find remove
  find-remove_absent p [] h = refl
  find-remove_absent p (q ∷ c) h = ground (arith, find-remove_absent p c)

  -- An entry that is not in the chain may change.
  pub find-update :
      (p : ℕ) (im : Cache) (c : List ℕ)
      → All (λ (q : ℕ). (q == p) ≡ false) c
      → find test (update heap p im) c ≡ find test heap c
  unfolding find
  find-update p im [] h = refl
  find-update p im (q ∷ c) (h, hs) = ground (arith, find-update p im c hs)

  -- An entry may change in what the test does not see.
  pub find-update_same :
      (p : ℕ) (im : Cache) (c : List ℕ)
      → test im ≡ test (heap p)
      → find test (update heap p im) c ≡ find test heap c
  unfolding find
  find-update_same p im [] h = refl
  find-update_same p im (q ∷ c) h = elim (Bool-cases (q == p)) [
    | inl same ↦
        let e = ==→eq q p same in
        ground (arith, find-update_same p im c h, ap (λ (t : ℕ). test (heap t)) e)
    | inr differs ↦ ground (arith, find-update_same p im c h)
  ]

-- No two entries of a chain have the same index.
abbrev pub Distinct : (ℕ → Cache) → List ℕ → Type 0
Distinct heap [] = Unit
Distinct heap (p ∷ c) = (find (has_index (heap p).index) heap c ≡ none) × Distinct heap c

pub Distinct-remove :
    (heap : ℕ → Cache) (p : ℕ) (c : List ℕ) → Distinct heap c → Distinct heap (remove p c)
unfolding remove
Distinct-remove heap p [] h = tt
Distinct-remove heap p (q ∷ c) (h, hs) = elim (Bool-cases (q == p)) [
  | inl same ↦ rw same (Distinct-remove heap p c hs)
  | inr differs ↦
      rw differs
        (find-remove_absent (has_index (heap q).index) heap p c h, Distinct-remove heap p c hs)
]

other_pointer :
    (heap : ℕ → Cache) (i p q : ℕ)
    → ((heap q).index == i) ≡ false
    → ((heap p).index == i) ≡ true
    → (q == p) ≡ false
other_pointer heap i p q h k = elim (Bool-cases (q == p)) [
  | inl same ↦ let e = ap (λ (t : ℕ). (heap t).index == i) (==→eq q p same) in cc
  | inr differs ↦ differs
]

-- An entry that is found by its index is the only one.
pub find-remove_self :
    (heap : ℕ → Cache) (i p : ℕ) (c : List ℕ)
    → Distinct heap c
    → find (has_index i) heap c ≡ some p
    → find (has_index i) heap (remove p c) ≡ none
unfolding find remove
find-remove_self heap i p [] d e = refl
find-remove_self heap i p (q ∷ c) (d, ds) e = elim (Bool-cases ((heap q).index == i)) [
  | inl found ↦
      let first : q ≡ p = ground arith in
      let index = ==→eq (heap q).index i found in
      let none_left = rw index at d in
      ground (arith, find-remove_absent (has_index i) heap p c none_left)
  | inr other ↦
      let later : find (has_index i) heap c ≡ some p = ground arith in
      ground (
        arith,
        find-test (has_index i) heap c p later,
        find-remove_self heap i p c ds later,
        other_pointer heap i p q,
      )
]

pub Distinct-update :
    (heap : ℕ → Cache) (p : ℕ) (im : Cache) (c : List ℕ)
    → All (λ (q : ℕ). (q == p) ≡ false) c
    → Distinct heap c
    → Distinct (update heap p im) c
Distinct-update heap p im [] h d = tt
Distinct-update heap p im (q ∷ c) (h, hs) (d, ds) =
    rw h
      (find-update (has_index (heap q).index) heap p im c hs ∙ d, Distinct-update heap p im c hs ds)

pub same_index :
    (heap : ℕ → Cache) (p : ℕ) (im : Cache) (q : ℕ)
    → im.index ≡ (heap p).index
    → (update heap p im q).index ≡ (heap q).index
same_index heap p im q h = elim (Bool-cases (q == p)) [
  | inl same ↦ let e = ap (λ (t : ℕ). (heap t).index) (==→eq q p same) in rw same (h ∙ sym e)
  | inr differs ↦ rw differs refl
]

pub Distinct-update_same :
    (heap : ℕ → Cache) (p : ℕ) (im : Cache) (c : List ℕ)
    → im.index ≡ (heap p).index
    → Distinct heap c
    → Distinct (update heap p im) c
Distinct-update_same heap p im [] h d = tt
Distinct-update_same heap p im (q ∷ c) h (d, ds) = (
  rw (same_index heap p im q h) (
      find-update_same (has_index (heap q).index) heap p im c
        (ap (λ (t : ℕ). t == (heap q).index) h)
      ∙ d),
  Distinct-update_same heap p im c h ds,
)

-- What holds of the map between two messages.
pub record IsMap (m : Map) : Type 0 where
  pub idx_live : (h : ℕ) → All (λ (p : ℕ). m.live p ≡ true) (m.idx_head h)
  pub name_live : (h : ℕ) → All (λ (p : ℕ). m.live p ≡ true) (m.name_head h)
  pub fresh : (p : ℕ) → m.live p ≡ true → p < m.next
  pub unique : (h : ℕ) → Distinct m.heap (m.idx_head h)

pub live_elsewhere :
    (live : ℕ → Bool) (p : ℕ) (c : List ℕ)
    → All (λ (q : ℕ). live q ≡ true) c
    → All (λ (q : ℕ). update live p false q ≡ true) (remove p c)
unfolding remove
live_elsewhere live p [] h = tt
live_elsewhere live p (q ∷ c) (h, hs) = elim (Bool-cases (q == p)) [
  | inl same ↦ rw same (live_elsewhere live p c hs)
  | inr differs ↦ rw differs (ground arith, live_elsewhere live p c hs)
]

pub still_live :
    (live : ℕ → Bool) (p : ℕ) (c : List ℕ)
    → All (λ (q : ℕ). live q ≡ true) c
    → All (λ (q : ℕ). update live p true q ≡ true) c
still_live live p [] h = tt
still_live live p (q ∷ c) (h, hs) = (ground arith, still_live live p c hs)

pub remove-live :
    (live : ℕ → Bool) (p : ℕ) (c : List ℕ)
    → All (λ (q : ℕ). live q ≡ true) c
    → All (λ (q : ℕ). live q ≡ true) (remove p c)
unfolding remove
remove-live live p [] h = tt
remove-live live p (q ∷ c) (h, hs) = elim (Bool-cases (q == p)) [
  | inl same ↦ rw same (remove-live live p c hs)
  | inr differs ↦ rw differs (h, remove-live live p c hs)
]

-- A fresh address is in no chain.
pub not_fresh :
    (m : Map) (c : List ℕ)
    → IsMap m
    → All (λ (p : ℕ). m.live p ≡ true) c
    → All (λ (p : ℕ). (p == m.next) ≡ false) c
not_fresh m [] v h = tt
not_fresh m (p ∷ c) v (h, hs) = (ground (arith, v.fresh p h), not_fresh m c v hs)

-- ===== src/LlMap/Index.antt =====
-- What each change of the tables makes of the search by index.
use libiproute.Prelude.{
  ℕ, ◌≡◌, refl, ap, ◌∙◌, arith, Bool, true, false, none, some, List, [], ◌∷◌, All, ◌==◌,
  if◌then◌else◌, Bool-cases, inl, inr, ==→eq, eq→==, Bytes, bytes_eq,
}
use libiproute.LlMap.{
  Cache, Map, find, has_index, update, forget, change, enter, hlist_del, hlist_add_head, idx_slot,
  name_slot, ll_get_by_index,
}
use libiproute.LlMap.Laws.{
  Distinct, IsMap, find-test, find-remove_ne, find-update, find-update_same, Distinct-remove,
  find-remove_self, Distinct-update, Distinct-update_same, live_elsewhere, still_live, remove-live,
  not_fresh,
}

pub find-live :
    (test : Cache → Bool) (heap : ℕ → Cache) (live : ℕ → Bool) (c : List ℕ) (p : ℕ)
    → All (λ (q : ℕ). live q ≡ true) c
    → find test heap c ≡ some p
    → live p ≡ true
unfolding find
find-live test heap live [] p h e = cc
find-live test heap live (q ∷ c) p (h, hs) e = elim (Bool-cases (test (heap q))) [
  | inl here ↦ let same : q ≡ p = ground arith in rw same at h
  | inr later ↦ find-live test heap live c p hs (ground arith)
]

pub forget-IsMap : (m : Map) (p : ℕ) → IsMap m → IsMap (forget m p)
unfolding forget
forget-IsMap m p v = record {
  idx_live = λ h. live_elsewhere m.live p (m.idx_head h) (v.idx_live h);
  name_live = λ h. live_elsewhere m.live p (m.name_head h) (v.name_live h);
  fresh = λ q e. ground (arith, v.fresh q);
  unique = λ h. Distinct-remove m.heap p (m.idx_head h) (v.unique h);
}

pub get-forget :
    (m : Map) (i p j : ℕ)
    → IsMap m
    → ll_get_by_index m i ≡ some p
    → ll_get_by_index (forget m p) j ≡ (if j == i then none else ll_get_by_index m j)
unfolding ll_get_by_index forget
get-forget m i p j v e = elim (Bool-cases (j == i)) [
  | inl same ↦
      rw (same, ==→eq j i same)
        (find-remove_self m.heap i p (m.idx_head (idx_slot i)) (v.unique (idx_slot i)) e)
  | inr differs ↦ rw differs (
      find-remove_ne (has_index j) m.heap p (m.idx_head (idx_slot j))
        (ground (arith, find-test (has_index i) m.heap (m.idx_head (idx_slot i)) p e)))
]

-- The new entry, and the others, in a chain.
fresh_head :
    (m : Map) (im : Cache) (h : ℕ) → IsMap m → All (λ (p : ℕ). (p == m.next) ≡ false) (m.idx_head h)
fresh_head m im h v = not_fresh m (m.idx_head h) v (v.idx_live h)

pub updated_self : (heap : ℕ → Cache) (p : ℕ) (im : Cache) → update heap p im p ≡ im
updated_self heap p im = rw (eq→== p p refl) refl

enter-Distinct :
    (m : Map) (im : Cache) (h : ℕ)
    → IsMap m
    → find (has_index im.index) m.heap (m.idx_head (idx_slot im.index)) ≡ none
    → Distinct (update m.heap m.next im) (hlist_add_head m.next (idx_slot im.index) m.idx_head h)
enter-Distinct m im h v new = elim (Bool-cases (h == idx_slot im.index)) [
  | inl here ↦
      rw (here, updated_self m.heap m.next im)
        (
          find-update (has_index im.index) m.heap m.next im (m.idx_head h) (fresh_head m im h v)
              ∙ ap (λ (k : ℕ). find (has_index im.index) m.heap (m.idx_head k))
                  (==→eq h (idx_slot im.index) here)
              ∙ new,
          Distinct-update m.heap m.next im (m.idx_head h) (fresh_head m im h v) (v.unique h),
        )
  | inr elsewhere ↦
      rw elsewhere
        (Distinct-update m.heap m.next im (m.idx_head h) (fresh_head m im h v) (v.unique h))
]

pub enter-IsMap :
    (m : Map) (im : Cache) → IsMap m → ll_get_by_index m im.index ≡ none → IsMap (enter m im)
unfolding enter ll_get_by_index
enter-IsMap m im v new = record {
  idx_live = λ h. added (idx_slot im.index) h (m.idx_head h) (v.idx_live h);
  name_live = λ h. added (name_slot im.name) h (m.name_head h) (v.name_live h);
  fresh = λ q e. ground (arith, v.fresh q);
  unique = λ h. enter-Distinct m im h v new;
}
  where
    added :
        (slot h : ℕ) (c : List ℕ)
        → All (λ (p : ℕ). m.live p ≡ true) c
        → All (λ (p : ℕ). update m.live m.next true p ≡ true) (if h == slot then m.next ∷ c else c)
    added slot h c live = elim (Bool-cases (h == slot)) [
      | inl here ↦ rw here (ground arith, still_live m.live m.next c live)
      | inr elsewhere ↦ rw elsewhere (still_live m.live m.next c live)
    ]

find-first :
    (m : Map) (im : Cache) (j h : ℕ)
    → IsMap m
    → find (has_index j) (update m.heap m.next im) (m.next ∷ m.idx_head h)
      ≡ (if im.index == j then some m.next else find (has_index j) m.heap (m.idx_head h))
unfolding find
find-first m im j h v =
    rw
      (
        updated_self m.heap m.next im,
        find-update (has_index j) m.heap m.next im (m.idx_head h) (fresh_head m im h v),
      )
      refl

==_comm : (a b : ℕ) → (a == b) ≡ (b == a)
==_comm a b = ground arith

pub get-enter :
    (m : Map) (im : Cache) (j : ℕ)
    → IsMap m
    → ll_get_by_index (enter m im) j ≡ (if j == im.index then some m.next else ll_get_by_index m j)
unfolding enter ll_get_by_index
get-enter m im j v = elim (Bool-cases (idx_slot j == idx_slot im.index)) [
  | inl same ↦ rw (same, find-first m im j (idx_slot j) v, ==_comm im.index j) refl
  | inr differs ↦
      let other : (j == im.index) ≡ false = elim (Bool-cases (j == im.index)) [
        | inl equal ↦ let e = ap idx_slot (==→eq j im.index equal) in ground (arith, e)
        | inr n ↦ n
      ] in
      rw
        (
          differs,
          other,
          find-update (has_index j) m.heap m.next im (m.idx_head (idx_slot j))
              (fresh_head m im (idx_slot j) v),
        )
        refl
]

pub change-IsMap :
    (m : Map) (p flags : ℕ) (ifname : Bytes)
    → IsMap m
    → m.live p ≡ true
    → IsMap (change m p flags ifname)
unfolding change
change-IsMap m p flags ifname v alive = elim (Bool-cases (bytes_eq (m.heap p).name ifname)) [
  | inl same ↦ rw same (record {
    idx_live = v.idx_live;
    name_live = v.name_live;
    fresh = v.fresh;
    unique = λ h.
        Distinct-update_same m.heap p (record (m.heap p) { flags = flags }) (m.idx_head h) refl
          (v.unique h);
  })
  | inr renamed ↦ rw renamed (record {
    idx_live = v.idx_live;
    name_live = λ h. moved h;
    fresh = v.fresh;
    unique = λ h.
        Distinct-update_same m.heap p (record (m.heap p) { flags = flags }) (m.idx_head h) refl
          (v.unique h);
  })
]
  where
    moved :
        (h : ℕ)
        → All
            (λ (q : ℕ). m.live q ≡ true)
            (hlist_add_head p (name_slot ifname) (hlist_del p m.name_head) h)
    moved h = elim (Bool-cases (h == name_slot ifname)) [
      | inl here ↦ rw here (alive, remove-live m.live p (m.name_head h) (v.name_live h))
      | inr elsewhere ↦ rw elsewhere (remove-live m.live p (m.name_head h) (v.name_live h))
    ]

pub get-change :
    (m : Map) (p flags : ℕ) (ifname : Bytes) (j : ℕ)
    → ll_get_by_index (change m p flags ifname) j ≡ ll_get_by_index m j
unfolding ll_get_by_index change
get-change m p flags ifname j =
    let kept =
      find-update_same (has_index j) m.heap p (record (m.heap p) { flags = flags })
        (m.idx_head (idx_slot j)) refl in
    elim (Bool-cases (bytes_eq (m.heap p).name ifname)) [
      | inl same ↦ rw same kept
      | inr renamed ↦ rw renamed kept
    ]

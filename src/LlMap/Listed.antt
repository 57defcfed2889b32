-- ===== src/LlMap/Listed.antt =====
-- The chains of lib/ll_map.c for the names: in which chain an entry stands, before and after a change.
pub mod Told
use libiproute.Prelude.{
  ℕ, ◌≡◌, refl, sym, ap, ◌∙◌, arith, Bool, true, false, ◌||◌, Option, none, some, List, [], ◌∷◌,
  All, ◌==◌, if◌then◌else◌, Bool-cases, Option-cases, inl, inr, ==→eq, eq→==, Bytes, bytes_eq,
}
use libiproute.Prelude.Int.{ℤ, pos, negsuc}
use libiproute.LlMap.{
  Cache, Map, remove, name_slot, ll_get_by_index, entry_of, forget, change, enter,
}
use libiproute.LlMap.Event.{Event, other, short, unterminated, nameless, deleted, named, apply}
use libiproute.LlMap.Laws.{IsMap, not_fresh}
use libiproute.LlMap.Index.{get-forget, get-enter, get-change}
use libiproute.LlMap.Refines.{Links, get-index, differ}

abbrev pub is_in : ℕ → List ℕ → Bool
is_in p [] = false
is_in p (q ∷ c) = q == p || is_in p c

-- The name under whose hash the entry of an index stands, if there is an entry.
abbrev pub Listed : Type 0
Listed = ℕ → Option Bytes

abbrev pub relist : Listed → ℕ → Option Bytes → Listed
relist l i name j = if j == i then name else l j

-- A new entry stands under its name; an entry goes to another name that it is told, unless that is the
-- name that it has.
abbrev pub list_name : Bool → Option Cache → ℕ → Bytes → Listed → Listed
list_name has_memory (some old) i name l =
    if bytes_eq old.name name then l else relist l i (some name)
list_name true none i name l = relist l i (some name)
list_name false none i name l = l

abbrev pub Listed_step : Bool → Links → Listed → Event → Listed
Listed_step has_memory s l (deleted i) = relist l i none
Listed_step has_memory s l (named i type flags ifname) = list_name has_memory (s i) i ifname l
Listed_step has_memory s l other = l
Listed_step has_memory s l short = l
Listed_step has_memory s l unterminated = l
Listed_step has_memory s l nameless = l

-- The entry that an index finds stands in the chain of that name, and in no other.
abbrev pub IsListed : Map → Listed → Type 0
IsListed m l =
    (j p : ℕ)
    → ll_get_by_index m j ≡ some p
    → (name : Bytes) × (l j ≡ some name)
      × ((h : ℕ) → is_in p (m.name_head h) ≡ (h == name_slot name))

is_in-remove_ne : (q p : ℕ) (c : List ℕ) → (q == p) ≡ false → is_in q (remove p c) ≡ is_in q c
unfolding remove
is_in-remove_ne q p [] h = refl
is_in-remove_ne q p (r ∷ c) h = elim (Bool-cases (r == p)) [
  | inl same ↦
      let other : (r == q) ≡ false = ground (arith, h, same) in
      rw (same, other) (is_in-remove_ne q p c h)
  | inr differs ↦ rw (differs, is_in-remove_ne q p c h) refl
]

is_in-remove_self : (p : ℕ) (c : List ℕ) → is_in p (remove p c) ≡ false
unfolding remove
is_in-remove_self p [] = refl
is_in-remove_self p (r ∷ c) = elim (Bool-cases (r == p)) [
  | inl same ↦ rw same (is_in-remove_self p c)
  | inr differs ↦ rw (differs, is_in-remove_self p c, differs) refl
]

is_in-absent : (p : ℕ) (c : List ℕ) → All (λ (q : ℕ). (q == p) ≡ false) c → is_in p c ≡ false
is_in-absent p [] h = refl
is_in-absent p (r ∷ c) (h, hs) = rw (h, is_in-absent p c hs) refl

-- Two indexes have two entries.
other_entry :
    (m : Map) (i j p q : ℕ)
    → IsMap m
    → ll_get_by_index m i ≡ some p
    → ll_get_by_index m j ≡ some q
    → (j == i) ≡ false
    → (q == p) ≡ false
other_entry m i j p q v e f differs =
    let (at_i, alive) = get-index m i p v e in
    let (at_j, alive') = get-index m j q v f in
    differ q p (λ same. ground (arith, ap (λ (t : ℕ). (m.heap t).index) same, at_i, at_j))

pub forget-IsListed :
    (m : Map) (i p : ℕ) (l : Listed)
    → IsMap m
    → ll_get_by_index m i ≡ some p
    → IsListed m l
    → IsListed (forget m p) (relist l i none)
unfolding forget
forget-IsListed m i p l v e listed j q f =
    let cases = sym (get-forget m i p j v e) ∙ f in
    elim (Bool-cases (j == i)) [
      | inl same ↦ let gone = rw same at cases in cc
      | inr differs ↦
          let found : ll_get_by_index m j ≡ some q = rw differs at cases in
          let (name, under, chain) = listed j q found in
          let apart = other_entry m i j p q v e found differs in
          (name, rw differs under, λ h. is_in-remove_ne q p (m.name_head h) apart ∙ chain h)
    ]

-- At the front of one chain.
added_first :
    (p slot h : ℕ) (c : List ℕ)
    → is_in p c ≡ false
    → is_in p (if h == slot then p ∷ c else c) ≡ (h == slot)
added_first p slot h c absent = elim (Bool-cases (h == slot)) [
  | inl here ↦ rw (here, eq→== p p refl) refl
  | inr elsewhere ↦ rw elsewhere absent
]

added_other :
    (q p slot h : ℕ) (c : List ℕ)
    → (q == p) ≡ false
    → is_in q (if h == slot then p ∷ c else c) ≡ is_in q c
added_other q p slot h c differs =
    let other : (p == q) ≡ false = ground arith in
    elim (Bool-cases (h == slot)) [
      | inl here ↦ rw (here, other) refl
      | inr elsewhere ↦ rw elsewhere refl
    ]

pub enter-IsListed :
    (m : Map) (im : Cache) (l : Listed)
    → IsMap m
    → IsListed m l
    → IsListed (enter m im) (relist l im.index (some im.name))
unfolding enter
enter-IsListed m im l v listed j q f =
    let cases = sym (get-enter m im j v) ∙ f in
    elim (Bool-cases (j == im.index)) [
      | inl same ↦
          let new : m.next ≡ q = ground (arith, rw same at cases) in
          (
            im.name,
            rw same refl,
            λ h. rw (← new) (
                added_first m.next (name_slot im.name) h (m.name_head h) (
                  is_in-absent m.next (m.name_head h)
                    (not_fresh m (m.name_head h) v (v.name_live h)))),
          )
      | inr differs ↦
          let found : ll_get_by_index m j ≡ some q = rw differs at cases in
          let (name, under, chain) = listed j q found in
          let (index, alive) = get-index m j q v found in
          let old : (q == m.next) ≡ false = ground (arith, v.fresh q alive) in
          (
            name,
            rw differs under,
            λ h. added_other q m.next (name_slot im.name) h (m.name_head h) old ∙ chain h,
          )
    ]

pub change-IsListed :
    (m : Map) (i p flags : ℕ) (ifname : Bytes) (l : Listed)
    → IsMap m
    → ll_get_by_index m i ≡ some p
    → IsListed m l
    → IsListed
        (change m p flags ifname)
        (if bytes_eq (m.heap p).name ifname then l else relist l i (some ifname))
unfolding change
change-IsListed m i p flags ifname l v e listed j q f =
    let found : ll_get_by_index m j ≡ some q = sym (get-change m p flags ifname j) ∙ f in
    let (name, under, chain) = listed j q found in
    elim (Bool-cases (bytes_eq (m.heap p).name ifname)) [
      | inl kept ↦ (name, rw kept under, λ h. rw kept (chain h))
      | inr renamed ↦ elim (Bool-cases (j == i)) [
        | inl same ↦
            let here : p ≡ q =
              ground (arith, e, found, ap (λ (t : ℕ). ll_get_by_index m t) (==→eq j i same)) in
            (
              ifname,
              rw (renamed, same) refl,
              λ h.
                  rw (renamed, ← here)
                    (added_first p (name_slot ifname) h (remove p (m.name_head h))
                      (is_in-remove_self p (m.name_head h))),
            )
        | inr differs ↦
            let apart = other_entry m i j p q v e found differs in
            (
              name,
              rw (renamed, differs) under,
              λ h. rw renamed (
                  added_other q p (name_slot ifname) h (remove p (m.name_head h)) apart
                  ∙ is_in-remove_ne q p (m.name_head h) apart
                  ∙ chain h),
            )
      ]
    ]

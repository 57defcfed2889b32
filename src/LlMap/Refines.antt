-- ===== src/LlMap/Refines.antt =====
-- The tables of hash chains and the function from indexes to entries that they stand for.
use libiproute.Prelude.{
  ℕ, ◌≡◌, ◌≢◌, bytes_eq, refl, ap, ◌∙◌, arith, Bool, true, false, Option, none, some, ◌==◌,
  if◌then◌else◌, Bool-cases, Option-cases, inl, inr, ==→eq, Bytes,
}
use libiproute.Prelude.Int.{ℤ, pos, negsuc}
use libiproute.LlMap.{
  idx_slot, Cache, Map, has_index, update, forget, change, enter, ll_get_by_index, entry_of,
}
use libiproute.LlMap.Event.{Event, other, short, unterminated, nameless, deleted, named, apply}
use libiproute.LlMap.Laws.{IsMap, find-test}
use libiproute.LlMap.Index.{
  find-live, forget-IsMap, get-forget, enter-IsMap, get-enter, change-IsMap, get-change,
  updated_self,
}

-- What is known of the links: an entry for an index, or none.
abbrev pub Links : Type 0
Links = ℕ → Option Cache

abbrev pub put : Links → ℕ → Option Cache → Links
put s i e j = if j == i then e else s j

-- A known link keeps its name and its type.
abbrev pub learn : Bool → Links → Cache → Option Cache → Links
learn has_memory s im (some old) = put s im.index (some (record old { flags = im.flags }))
learn true s im none = put s im.index (some im)
learn false s im none = s

-- What a message makes of the knowledge.
abbrev pub Links_step : Bool → Links → Event → Links
Links_step has_memory s (deleted i) = put s i none
Links_step has_memory s (named i type flags ifname) =
    learn has_memory s (record { flags = flags; index = i; type = type; name = ifname }) (s i)
Links_step has_memory s other = s
Links_step has_memory s short = s
Links_step has_memory s unterminated = s
Links_step has_memory s nameless = s

-- The index of an entry that is found, and that it is allocated.
pub get-index :
    (m : Map) (j q : ℕ)
    → IsMap m
    → ll_get_by_index m j ≡ some q
    → ((m.heap q).index ≡ j) × (m.live q ≡ true)
unfolding ll_get_by_index
get-index m j q v e = (
  ==→eq (m.heap q).index j (find-test (has_index j) m.heap (m.idx_head (idx_slot j)) q e),
  find-live (has_index j) m.heap m.live (m.idx_head (idx_slot j)) q (v.idx_live (idx_slot j)) e,
)

pub differ : (p q : ℕ) → p ≢ q → (p == q) ≡ false
differ p q h = elim (Bool-cases (p == q)) [ inl same ↦ absurd (h (==→eq p q same)) | inr n ↦ n ]

entry-forget :
    (m : Map) (i p j : ℕ)
    → IsMap m
    → ll_get_by_index m i ≡ some p
    → entry_of (forget m p) j ≡ put (entry_of m) i none j
unfolding forget
entry-forget m i p j v e = elim (Bool-cases (j == i)) [
  | inl same ↦ rw (get-forget m i p j v e, same) refl
  | inr differs ↦ rw (get-forget m i p j v e, differs) refl
]

entry-enter :
    (m : Map) (im : Cache) (j : ℕ)
    → IsMap m
    → entry_of (enter m im) j ≡ put (entry_of m) im.index (some im) j
unfolding enter
entry-enter m im j v = elim (Bool-cases (j == im.index)) [
  | inl same ↦ rw (get-enter m im j v, same, updated_self m.heap m.next im) refl
  | inr differs ↦ elim (Option-cases (ll_get_by_index m j)) [
    | inl unknown ↦ rw (get-enter m im j v, differs, unknown) refl
    | inr (q, found) ↦
        let (index, alive) = get-index m j q v found in
        let elsewhere = differ q m.next (λ e. omega (arith, v.fresh q alive)) in
        rw (get-enter m im j v, differs, found, elsewhere) refl
  ]
]

pub heap-change :
    (m : Map) (p flags : ℕ) (ifname : Bytes)
    → (change m p flags ifname).heap ≡ update m.heap p (record (m.heap p) { flags = flags })
unfolding change
heap-change m p flags ifname = elim (Bool-cases (bytes_eq (m.heap p).name ifname)) [
  | inl same ↦ rw same refl
  | inr renamed ↦ rw renamed refl
]

entry-change :
    (m : Map) (p i flags j : ℕ) (ifname : Bytes)
    → IsMap m
    → ll_get_by_index m i ≡ some p
    → entry_of (change m p flags ifname) j
      ≡ put (entry_of m) i (some (record (m.heap p) { flags = flags })) j
entry-change m p i flags j ifname v e = elim (Bool-cases (j == i)) [
  | inl same ↦
      let here = ap (λ (k : ℕ). ll_get_by_index m k) (==→eq j i same) ∙ e in
      rw
        (
          get-change m p flags ifname j,
          heap-change m p flags ifname,
          same,
          here,
          updated_self m.heap p (record (m.heap p) { flags = flags }),
        )
        refl
  | inr differs ↦ elim (Option-cases (ll_get_by_index m j)) [
    | inl unknown ↦ rw (get-change m p flags ifname j, differs, unknown) refl
    | inr (q, found) ↦
        let (index, alive) = get-index m j q v found in
        let (index', alive') = get-index m i p v e in
        let elsewhere =
          differ q p
            (λ same. ground (arith, ap (λ (t : ℕ). (m.heap t).index) same, index, index')) in
        rw (get-change m p flags ifname j, heap-change m p flags ifname, differs, found, elsewhere)
          refl
  ]
]

-- What `some (m, r)` shows of the map.
apply_result :
    (b : Bool) (s : Links) (m m' : Map) (r r' : ℤ)
    → ◌≡◌ {A = Option (Map × ℤ)} (some (m, r)) (some (m', r'))
    → IsMap m × ((j : ℕ) → entry_of m j ≡ s j)
    → IsMap m' × ((j : ℕ) → entry_of m' j ≡ s j)
apply_result b s m m' r r' e h =
    let same = ap (λ (x : Option (Map × ℤ)). elim x [ none ↦ m | some y ↦ y.0 ]) e in rw same at h

entry-unknown :
    (m : Map) (i j : ℕ) → ll_get_by_index m i ≡ none → entry_of m j ≡ put (entry_of m) i none j
entry-unknown m i j unknown = elim (Bool-cases (j == i)) [
  | inl same ↦
      let here = ap (λ (k : ℕ). entry_of m k) (==→eq j i same) in rw (same, here, unknown) refl
  | inr differs ↦ rw differs refl
]

-- A link of which there is no entry, with memory for one and without.
enter-refines :
    (b : Bool) (m m' : Map) (r : ℤ) (im : Cache)
    → IsMap m
    → ll_get_by_index m im.index ≡ none
    → ◌≡◌ {A = Option (Map × ℤ)}
        (if b then some (enter m im, pos 0) else some (m, pos 0))
        (some (m', r))
    → IsMap m' × ((j : ℕ) → entry_of m' j ≡ learn b (entry_of m) im none j)
enter-refines true m m' r im v unknown e =
    apply_result true (put (entry_of m) im.index (some im)) (enter m im) m' (pos 0) r e
      (enter-IsMap m im v unknown, λ j. entry-enter m im j v)
enter-refines false m m' r im v unknown e =
    apply_result false (entry_of m) m m' (pos 0) r e (v, λ j. refl)

-- A message keeps the tables in order, and changes the knowledge as it says.
pub apply-refines :
    (has_memory : Bool) (m m' : Map) (r : ℤ) (e : Event)
    → IsMap m
    → apply has_memory m e ≡ some (m', r)
    → IsMap m' × ((j : ℕ) → entry_of m' j ≡ Links_step has_memory (entry_of m) e j)
unfolding apply
apply-refines b m m' r other v e = apply_result b (entry_of m) m m' (pos 0) r e (v, λ j. refl)
apply-refines b m m' r short v e = apply_result b (entry_of m) m m' (negsuc 0) r e (v, λ j. refl)
apply-refines b m m' r unterminated v e = cc
apply-refines b m m' r nameless v e = cc
apply-refines b m m' r (deleted i) v e = elim (Option-cases (ll_get_by_index m i)) [
  | inl unknown ↦
      apply_result b (put (entry_of m) i none) m m' (pos 0) r (ground arith)
        (v, λ j. entry-unknown m i j unknown)
  | inr (p, found) ↦
      apply_result b (put (entry_of m) i none) (forget m p) m' (pos 0) r (ground arith)
        (forget-IsMap m p v, λ j. entry-forget m i p j v found)
]
apply-refines b m m' r (named i type flags ifname) v e = elim (Option-cases (ll_get_by_index m i)) [
  | inr (p, found) ↦
      let links = put (entry_of m) i (some (record (m.heap p) { flags = flags })) in
      let known : entry_of m i ≡ some (m.heap p) = rw found refl in
      rw known (
        apply_result b links (change m p flags ifname) m' (pos 0) r (ground arith) (
          change-IsMap m p flags ifname v (get-index m i p v found).1,
          λ j. entry-change m p i flags j ifname v found,
        ))
  | inl unknown ↦
      let absent : entry_of m i ≡ none = rw unknown refl in
      rw absent (
        enter-refines b m m' r (record { flags = flags; index = i; type = type; name = ifname }) v
          unknown (rw (unknown, apply) at e))
]

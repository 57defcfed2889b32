-- ===== src/LlMap/Listed/Told.antt =====
-- The chain of an entry of lib/ll_map.c, message by message.
use libiproute.Prelude.{
  ℕ, ◌≡◌, refl, sym, ap, ◌∙◌, arith, Bool, true, false, Option, none, some, ◌==◌, if◌then◌else◌,
  Bool-cases, Option-cases, inl, inr, ==→eq, bytes_eq,
}
use libiproute.Prelude.Int.{ℤ, pos, negsuc}
use libiproute.LlMap.{Cache, Map, ll_get_by_index, entry_of, forget, change, enter}
use libiproute.LlMap.Event.{Event, other, short, unterminated, nameless, deleted, named, apply}
use libiproute.LlMap.Laws.{IsMap}
use libiproute.LlMap.Listed.{
  Listed, relist, list_name, Listed_step, IsListed, forget-IsListed, enter-IsListed,
  change-IsListed,
}

result-IsListed :
    (m m' : Map) (r r' : ℤ) (l : Listed)
    → ◌≡◌ {A = Option (Map × ℤ)} (some (m, r)) (some (m', r'))
    → IsListed m l
    → IsListed m' l
result-IsListed m m' r r' l e h =
    let same = ap (λ (x : Option (Map × ℤ)). elim x [ none ↦ m | some y ↦ y.0 ]) e in rw same at h

unknown-IsListed :
    (m : Map) (i : ℕ) (l : Listed)
    → ll_get_by_index m i ≡ none
    → IsListed m l
    → IsListed m (relist l i none)
unknown-IsListed m i l unknown listed j q f = elim (Bool-cases (j == i)) [
  | inl same ↦
      let gone = ap (λ (t : ℕ). ll_get_by_index m t) (sym (==→eq j i same)) ∙ f in
      let clash = sym unknown ∙ gone in cc
  | inr differs ↦ let (name, under, chain) = listed j q f in (name, rw differs under, chain)
]

new-IsListed :
    (b : Bool) (m m' : Map) (r : ℤ) (im : Cache) (l : Listed)
    → IsMap m
    → IsListed m l
    → ◌≡◌ {A = Option (Map × ℤ)}
        (if b then some (enter m im, pos 0) else some (m, pos 0))
        (some (m', r))
    → IsListed m' (list_name b none im.index im.name l)
new-IsListed true m m' r im l v h e =
    result-IsListed (enter m im) m' (pos 0) r (relist l im.index (some im.name)) e
      (enter-IsListed m im l v h)
new-IsListed false m m' r im l v h e = result-IsListed m m' (pos 0) r l e h

-- A message leaves each entry in the chain that it says.
pub apply-IsListed :
    (has_memory : Bool) (m m' : Map) (r : ℤ) (l : Listed) (e : Event)
    → IsMap m
    → IsListed m l
    → apply has_memory m e ≡ some (m', r)
    → IsListed m' (Listed_step has_memory (entry_of m) l e)
unfolding apply
apply-IsListed b m m' r l other v h e = result-IsListed m m' (pos 0) r l e h
apply-IsListed b m m' r l short v h e = result-IsListed m m' (negsuc 0) r l e h
apply-IsListed b m m' r l unterminated v h e = cc
apply-IsListed b m m' r l nameless v h e = cc
apply-IsListed b m m' r l (deleted i) v h e = elim (Option-cases (ll_get_by_index m i)) [
  | inl unknown ↦
      result-IsListed m m' (pos 0) r (relist l i none) (ground arith)
        (unknown-IsListed m i l unknown h)
  | inr (p, found) ↦
      result-IsListed (forget m p) m' (pos 0) r (relist l i none) (ground arith)
        (forget-IsListed m i p l v found h)
]
apply-IsListed b m m' r l (named i type flags ifname) v h e =
    elim (Option-cases (ll_get_by_index m i)) [
      | inr (p, found) ↦
          let known : entry_of m i ≡ some (m.heap p) = rw found refl in
          rw known (
            result-IsListed (change m p flags ifname) m' (pos 0) r
              (if bytes_eq (m.heap p).name ifname then l else relist l i (some ifname))
              (ground arith) (change-IsListed m i p flags ifname l v found h))
      | inl unknown ↦
          let absent : entry_of m i ≡ none = rw unknown refl in
          rw absent (
            new-IsListed b m m' r (record { flags = flags; index = i; type = type; name = ifname })
              l v h (rw (unknown, apply) at e))
    ]

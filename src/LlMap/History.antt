-- ===== src/LlMap/History.antt =====
-- The map after a sequence of messages: `ll_remember_index` on each, as `rtnl_dump_filter` calls it.
use libiproute.Prelude.{
  ℕ, ◌≡◌, refl, ap, ◌∙◌, Bool, true, false, Option, none, some, List, [], ◌∷◌, All, Option-cases,
  inl, inr,
}
use libiproute.Prelude.Int.{ℤ, pos, negsuc}
use libiproute.Netlink.Build.{Msg}
use libiproute.LlMap.{Cache, Map, entry_of, empty_map, find, ll_get_by_index, forget, change, enter}
use libiproute.LlMap.Event.{
  Event, other, short, unterminated, nameless, deleted, named, read_event, apply, ll_remember_index,
}
use libiproute.LlMap.Laws.{IsMap}
use libiproute.LlMap.Listed.{Listed, IsListed, Listed_step}
use libiproute.LlMap.Listed.Told.{apply-IsListed}
use libiproute.LlMap.Refines.{Links, Links_step, apply-refines}

abbrev pub after : Option (Map × ℤ) → (Map → Option Map) → Option Map
after none k = none
after (some y) k = k y.0

-- Each message, and whether there is memory for an entry then.
pub remember_all : Map → List (Bool × Msg) → Option Map
unfolding ll_remember_index
remember_all m [] = some m
remember_all m ((has_memory, n) ∷ msgs) =
    after (ll_remember_index has_memory m n) (λ m'. remember_all m' msgs)

-- What the messages tell, one after the other.
abbrev pub Links_run : Links → List (Bool × Msg) → Links
Links_run s [] = s
Links_run s ((has_memory, n) ∷ msgs) = Links_run (Links_step has_memory s (read_event n)) msgs

-- Where the entries stand then.
abbrev pub Listed_run : Links → Listed → List (Bool × Msg) → Listed
Listed_run s l [] = l
Listed_run s l ((has_memory, n) ∷ msgs) =
    let e = read_event n in
    Listed_run (Links_step has_memory s e) (Listed_step has_memory s l e) msgs

-- A message of which the code reads no byte that is not there.
abbrev pub IsReadable : Event → Type 0
IsReadable unterminated = ⊥
IsReadable nameless = ⊥
IsReadable e = Unit

pub empty_map-IsMap : IsMap empty_map
unfolding empty_map
empty_map-IsMap = record {
  idx_live = λ h. tt;
  name_live = λ h. tt;
  fresh = λ p e. cc;
  unique = λ h. tt;
}

pub empty_map-IsListed : IsListed empty_map (λ j. none)
unfolding empty_map ll_get_by_index find
empty_map-IsListed j p e = cc

-- A link message of which no byte is missing.
abbrev pub IsLink : Event → Type 0
IsLink short = ⊥
IsLink unterminated = ⊥
IsLink nameless = ⊥
IsLink e = Unit

enter_succeeds :
    (b : Bool) (m : Map) (im : Cache)
    → ll_get_by_index m im.index ≡ none
    → (m' : Map) × (apply b m (named im.index im.type im.flags im.name) ≡ some (m', pos 0))
unfolding apply
enter_succeeds true m im unknown = (enter m im, rw (unknown, apply) refl)
enter_succeeds false m im unknown = (m, rw (unknown, apply) refl)

pub apply_succeeds :
    (b : Bool) (m : Map) (e : Event) → IsLink e → (m' : Map) × (apply b m e ≡ some (m', pos 0))
unfolding apply
apply_succeeds b m other h = (m, refl)
apply_succeeds b m short h = absurd h
apply_succeeds b m unterminated h = absurd h
apply_succeeds b m nameless h = absurd h
apply_succeeds b m (deleted i) h = elim (Option-cases (ll_get_by_index m i)) [
  | inl unknown ↦ (m, rw (unknown, apply) refl)
  | inr (p, found) ↦ (forget m p, rw (found, apply) refl)
]
apply_succeeds b m (named i type flags ifname) h = elim (Option-cases (ll_get_by_index m i)) [
  | inr (p, found) ↦ (change m p flags ifname, rw (found, apply) refl)
  | inl unknown ↦
      enter_succeeds b m (record { flags = flags; index = i; type = type; name = ifname }) unknown
]

apply_returns :
    (b : Bool) (m : Map) (e : Event) → IsReadable e → (y : Map × ℤ) × (apply b m e ≡ some y)
unfolding apply
apply_returns b m other h = ((m, pos 0), refl)
apply_returns b m short h = ((m, negsuc 0), refl)
apply_returns b m unterminated h = absurd h
apply_returns b m nameless h = absurd h
apply_returns b m (deleted i) h =
    let (m', e) = apply_succeeds b m (deleted i) tt in ((m', pos 0), e)
apply_returns b m (named i type flags ifname) h =
    let (m', e) = apply_succeeds b m (named i type flags ifname) tt in ((m', pos 0), e)

-- From tables that are in order, with each entry in the chain of the name for its index in `l` alone, as
-- in the empty tables, and after any messages of which none leads the code to bytes that are not there:
-- the tables are in order again and hold for every index what the messages told of it in turn, the
-- flags of the last message, the name and the type of the first one since the link was last deleted.
-- Each entry stands in the chain of one name alone: the last name told that was not its own, and its
-- own until then.
pub remember_all-refines :
    (m : Map) (l : Listed) (msgs : List (Bool × Msg))
    → IsMap m
    → IsListed m l
    → All (λ (y : Bool × Msg). IsReadable (read_event y.1)) msgs
    → (m' : Map) × (remember_all m msgs ≡ some m')
      × IsMap m'
      × ((j : ℕ) → entry_of m' j ≡ Links_run (entry_of m) msgs j)
      × IsListed m' (Listed_run (entry_of m) l msgs)
unfolding remember_all ll_remember_index
remember_all-refines m l [] v w h = (m, refl, v, λ j. refl, w)
remember_all-refines m l ((b, n) ∷ msgs) v w (h, hs) =
    let ((m', r), e) = apply_returns b m (read_event n) h in
    let (v', step) = apply-refines b m m' r (read_event n) v e in
    let l' = Listed_step b (entry_of m) l (read_event n) in
    let w' = apply-IsListed b m m' r l (read_event n) v w e in
    let (last, run, v'', links, w'') = remember_all-refines m' l' msgs v' w' hs in
    let same : entry_of m' ≡ Links_step b (entry_of m) (read_event n) = λ i j. step j i in
    (
      last,
      ap (λ (o : Option (Map × ℤ)). after o (λ m''. remember_all m'' msgs)) e ∙ run,
      v'',
      λ j. links j ∙ ap (λ (s : Links). Links_run s msgs j) same,
      rw same at w'',
    )

-- ===== src/LlMap/Names.antt =====
-- Names and indexes of links, there and back.
use libiproute.Prelude.{
  ℕ, ◌^◌, ◌<◌, ◌≡◌, ◌≢◌, refl, ap, ◌∙◌, arith, Option, none, some, eq→==, Bytes, bytes_eq_self,
  take,
}
use libiproute.LlMap.{
  Cache, Map, find, enter, name_slot, ifnamsiz, ll_get_by_name, ll_get_by_index, entry_of,
  ll_idx_n2a, ll_index_to_name, ll_name_to_index,
}
use libiproute.LlMap.Laws.{IsMap}
use libiproute.LlMap.Index.{updated_self, get-enter}
use libiproute.LlMap.Rename.{ll_idx_a2n-ll_idx_n2a}

get_by_name-enter : (m : Map) (im : Cache) → ll_get_by_name (enter m im) im.name ≡ some m.next
unfolding ll_get_by_name enter find
get_by_name-enter m im =
    rw
      (
        eq→== (name_slot im.name) (name_slot im.name) refl,
        updated_self m.heap m.next im,
        bytes_eq_self (take ifnamsiz im.name),
      )
      refl

entry-new : (m : Map) (im : Cache) → IsMap m → entry_of (enter m im) im.index ≡ some im
unfolding enter
entry-new m im v =
    rw (get-enter m im im.index v, eq→== im.index im.index refl, updated_self m.heap m.next im) refl

heap-enter : (m : Map) (im : Cache) → (enter m im).heap m.next ≡ im
unfolding enter
heap-enter m im = updated_self m.heap m.next im

module _ (if_indextoname : ℕ → Option Bytes) (if_nametoindex : Bytes → ℕ) where
  -- A link that was just entered is printed by its name, and its name gives its index, whatever
  -- the system would say.
  pub ll_name_to_index-enter :
      (m : Map) (im : Cache)
      → IsMap m
      → im.index ≢ 0
      → (ll_index_to_name if_indextoname if_nametoindex (enter m im) im.index ≡ im.name)
        × (ll_name_to_index if_indextoname if_nametoindex (enter m im) (some im.name) ≡ im.index)
  unfolding ll_index_to_name ll_name_to_index
  ll_name_to_index-enter m im v h = (
    ground (arith, entry-new m im v),
    ground (arith, get_by_name-enter m im, ap (λ (x : Cache). x.index) (heap-enter m im)),
  )

  -- The index of a link that neither the map nor the system knows is printed as a name that is
  -- read back as the index, where the map and the system have no link with that name.
  pub ll_name_to_index-ll_index_to_name :
      (m : Map) (idx : ℕ)
      → 0 < idx
      → idx < 2 ^ 32
      → ll_get_by_index m idx ≡ none
      → if_indextoname idx ≡ none
      → ll_get_by_name m (ll_idx_n2a idx) ≡ none
      → if_nametoindex (ll_idx_n2a idx) ≡ 0
      → ll_name_to_index if_indextoname if_nametoindex m
          (some (ll_index_to_name if_indextoname if_nametoindex m idx))
        ≡ idx
  unfolding ll_index_to_name ll_name_to_index
  ll_name_to_index-ll_index_to_name m idx pos bound unknown nameless free other =
      let back = ll_idx_a2n-ll_idx_n2a idx bound in
      let name : ll_index_to_name if_indextoname if_nametoindex m idx ≡ ll_idx_n2a idx =
        ground (arith, unknown, nameless) in
      ap (λ (s : Bytes). ll_name_to_index if_indextoname if_nametoindex m (some s)) name
      ∙ ground (arith, free, other, back)

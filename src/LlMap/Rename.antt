-- ===== src/LlMap/Rename.antt =====
-- Searching by name: after a new entry, after a change of name, and for a link without an entry.
use libiproute.Prelude.{
  ℕ, ◌^◌, ◌<◌, ◌≡◌, ◌≢◌, refl, sym, ap, ◌∙◌, arith, Bool, false, some, List, [], ◌∷◌, ◌==◌,
  Bool-cases, inl, inr, eq→==, Bytes, bytes_eq, bytes_eq→eq, take, take-whole,
}
use libiproute.CLib.{print_num, strtoul}
use libiproute.CLib.Parse.{decimal, strtoul-print_before}
use libiproute.CLib.Print.{length-print_num_le}
use libiproute.LlMap.{
  Cache, Map, find, has_name, remove, update, change, name_slot, ifnamsiz, ll_get_by_name,
  ll_idx_n2a, ll_idx_a2n, scanned,
}
use libiproute.LlMap.Laws.{find-test}
use libiproute.LlMap.Refines.{heap-change}
use libiproute.LlMap.Index.{updated_self}

-- An entry that was removed from a chain is not found in it.
find-remove_never :
    (test : Cache → Bool) (heap : ℕ → Cache) (p : ℕ) (c : List ℕ)
    → find test heap (remove p c) ≢ some p
unfolding find remove
find-remove_never test heap p [] e = cc
find-remove_never test heap p (q ∷ c) e = elim (Bool-cases (q == p)) [
  | inl same ↦ find-remove_never test heap p c (rw same at e)
  | inr differs ↦ elim (Bool-cases (test (heap q))) [
    | inl here ↦ let first : q ≡ p = ground arith in ground (arith, eq→== q p first)
    | inr later ↦ find-remove_never test heap p c (ground arith)
  ]
]

-- Where a change of name takes an entry.
change_names :
    (m : Map) (p flags : ℕ) (t x : Bytes)
    → bytes_eq (m.heap p).name t ≡ false
    → (name_slot x == name_slot t) ≡ false
    → ll_get_by_name (change m p flags t) x
      ≡ find
          (has_name x)
          (update m.heap p (record (m.heap p) { flags = flags }))
          (remove p (m.name_head (name_slot x)))
unfolding ll_get_by_name change
change_names m p flags t x new elsewhere = rw (new, elsewhere) refl

name_kept :
    (m : Map) (p flags : ℕ) (t : Bytes)
    → (change m p flags t).heap p ≡ record (m.heap p) { flags = flags }
name_kept m p flags t =
    rw (heap-change m p flags t) (updated_self m.heap p (record (m.heap p) { flags = flags }))

-- An entry whose link gets another name is found by neither of the two names, if they fall into
-- different chains and differ in their first 16 characters.
pub rename_lost :
    (m : Map) (p flags : ℕ) (t : Bytes)
    → (name_slot (m.heap p).name == name_slot t) ≡ false
    → bytes_eq (take ifnamsiz (m.heap p).name) (take ifnamsiz t) ≡ false
    → (ll_get_by_name (change m p flags t) (m.heap p).name ≢ some p)
      × (ll_get_by_name (change m p flags t) t ≢ some p)
unfolding ll_get_by_name
rename_lost m p flags t slots names =
    let new : bytes_eq (m.heap p).name t ≡ false = elim (Bool-cases (bytes_eq (m.heap p).name t)) [
      | inl same ↦
          let e = ap name_slot (bytes_eq→eq (m.heap p).name t same) in
          ground (arith, eq→== (name_slot (m.heap p).name) (name_slot t) e)
      | inr differs ↦ differs
    ] in
    (
      λ e.
          find-remove_never (has_name (m.heap p).name)
            (update m.heap p (record (m.heap p) { flags = flags })) p
            (m.name_head (name_slot (m.heap p).name))
            (sym (change_names m p flags t (m.heap p).name new slots) ∙ e),
      λ e.
          let found =
            find-test (has_name t) (change m p flags t).heap
              ((change m p flags t).name_head (name_slot t)) p e in
          let name = ap (λ (im : Cache). has_name t im) (name_kept m p flags t) in
          ground (arith, found, name),
    )

-- The name that an index gets without an entry is read back as the index.
pub ll_idx_a2n-ll_idx_n2a : (idx : ℕ) → idx < 2 ^ 32 → ll_idx_a2n (ll_idx_n2a idx) ≡ idx
unfolding ll_idx_a2n ll_idx_n2a print_num
ll_idx_a2n-ll_idx_n2a idx h =
    let short = length-print_num_le 9 idx (omega arith) in
    let whole = take-whole 13 (print_num 10 idx) (omega (arith, short)) in
    let read = strtoul-print_before decimal idx [] tt (omega arith) in
    let text = ap (strtoul 10) whole ∙ read in ap scanned text ∙ omega arith

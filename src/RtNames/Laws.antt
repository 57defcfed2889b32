-- ===== src/RtNames/Laws.antt =====
-- The tables of lib/rt_names.c: printing and reading a name, and the cache that a reading leaves.
use libiproute.Prelude.{
  ℕ, zero, suc, ◌+◌, ◌-◌, ◌%◌, ◌^◌, ◌≤◌, ◌<◌, ◌≡◌, ◌≢◌, refl, ap, ◌∙◌, arith, true, false, Option,
  none, some, [], ◌∷◌, ltb, leb, Bytes, value_or, bytes_eq, bytes_eq→eq, bytes_eq_self, length,
  take, take-whole, get_or, Bool-cases, Option-cases, inl, inr, ◌⊎◌,
}
use libiproute.Prelude.Int.{ℤ, pos}
use libiproute.CLib.{strtoul, print_num}
use libiproute.CLib.Print.{length-print_num_le}
use libiproute.CLib.Parse.{automatic, strtoul-print_before}
use libiproute.RtNames.{Table, Names, is_name, is_cached, find_name, number, search_names, a2n, n2a}

-- What is read of a text that is no name, whatever becomes of it then.
abbrev pub read_as : ℕ → Bytes → ℕ
read_as base arg = elim (strtoul base arg) [ none ↦ 0 | some p ↦ p.value ]

number_res :
    (base : ℕ) (n : Names) (arg : Bytes)
    → number base n arg ≡ (record n { res = read_as base arg }, (number base n arg).1)
unfolding number
number_res base n arg = elim (Option-cases (strtoul base arg)) [
  | inl e ↦ rw (e, number, read_as)
  | inr (p, e) ↦ rw (e, number, read_as)
]

-- What is read of a text that is not in the cache nor in the table.
unknown_text :
    (load : Table → Option Table) (base : ℕ) (n : Names) (arg : Bytes)
    → n.init ≡ true
    → is_cached n.cache arg ≡ false
    → find_name n.tab 0 arg ≡ none
    → a2n load base n arg ≡ some (number base n arg)
unfolding a2n
unknown_text load base n arg ready other unknown = rw (other, ready, unknown, search_names)

known_text :
    (load : Table → Option Table) (base : ℕ) (n : Names) (arg : Bytes) (j : ℕ)
    → n.init ≡ true
    → is_cached n.cache arg ≡ false
    → find_name n.tab 0 arg ≡ some j
    → a2n load base n arg ≡ some (record n { cache = some arg; res = j }, some j)
unfolding a2n
known_text load base n arg j ready other known = rw (other, ready, known, search_names)

-- A number of the table's size is read back.
number_read :
    (n : Names) (i : ℕ) → i < 256 → number 0 n (print_num 10 i) ≡ (record n { res = i }, some i)
unfolding number print_num
number_read n i h =
    let small : ltb 255 i ≡ false = ground arith in
    rw (strtoul-print_before automatic i [] tt (omega arith), number, small)

-- After a reading by name, which the cache remembers, and one of a text that is in no table: the
-- name is then read as the number that the other text was, refused or not, in 32 bits.
pub a2n_stale :
    (load : Table → Option Table) (base : ℕ) (n : Names) (name arg : Bytes)
    → n.init ≡ true
    → n.cache ≡ some name
    → bytes_eq name arg ≡ false
    → find_name n.tab 0 arg ≡ none
    → (n' : Names) × (r : Option ℕ) × (a2n load base n arg ≡ some (n', r))
      × (a2n load base n' name ≡ some (n', some (read_as base arg % 2 ^ 32)))
unfolding a2n search_names number
a2n_stale load base n name arg ready cached other unknown = (
  record n { res = read_as base arg },
  (number base n arg).1,
  unknown_text load base n arg ready (not_cached n.cache cached) unknown
      ∙ ap some (number_res base n arg),
  from_cache n.cache cached,
)
  where
    not_cached : (c : Option Bytes) → c ≡ some name → is_cached c arg ≡ false
    not_cached c e = rw e other

    hit : (c : Option Bytes) → c ≡ some name → is_cached c name ≡ true
    hit c e = rw e (bytes_eq_self name)

    from_cache :
        (c : Option Bytes)
        → c ≡ some name
        → a2n load base (record n { res = read_as base arg; cache = c }) name
          ≡ some (record n { res = read_as base arg; cache = c }, some (read_as base arg % 2 ^ 32))
    from_cache c e = rw (hit c e)

is_name-some : (t : Option Bytes) (arg : Bytes) → is_name t arg ≡ true → t ≡ some arg
is_name-some none arg h = cc
is_name-some (some name) arg h = ap some (bytes_eq→eq name arg h)

find_name-found :
    (tab : Table) (i : ℕ) (arg : Bytes) (j : ℕ)
    → find_name tab i arg ≡ some j
    → (i ≤ j) × (j < i + length tab) × (get_or tab (j - i) none ≡ some arg)
unfolding find_name
find_name-found [] i arg j h = cc
find_name-found (t ∷ tab) i arg j h = elim (Bool-cases (is_name t arg)) [
  | inl e ↦
      let here : j ≡ i = ground arith in
      let first : j - i ≡ 0 = omega arith in
      (omega arith, omega arith, rw first (is_name-some t arg e))
  | inr e ↦
      let behind = find_name-found tab (i + 1) arg j (ground arith) in
      let next : j - i ≡ suc (j - (i + 1)) = omega (arith, behind.0) in
      (omega (arith, behind.0), omega (arith, behind.1), rw next behind.2)
]

find_name-ne-none :
    (tab : Table) (i k : ℕ) (name : Bytes)
    → get_or tab k none ≡ some name
    → find_name tab i name ≢ none
unfolding find_name
find_name-ne-none [] i k name h e = cc
find_name-ne-none (t ∷ tab) i zero name h e =
    ground (arith, ap (λ (o : Option Bytes). is_name o name) h, bytes_eq_self name)
find_name-ne-none (t ∷ tab) i (suc k) name h e =
    ground (arith, find_name-ne-none tab (i + 1) k name h)

module _ (load : Table → Option Table) (out unnamed : ℤ → Bytes) (n : Names)
    (ready : n.init ≡ true) where
  -- What is printed of an `id` inside the table.
  abbrev shown : ℕ → ℕ → Bytes
  shown id len = value_or (get_or n.tab id none) (take (len - 1) (unnamed (pos id)))

  n2a-shown : (id len : ℕ) → id < 256 → n2a load out unnamed n (pos id) len ≡ some (n, shown id len)
  unfolding n2a
  n2a-shown id len h =
      let inside : leb 256 id ≡ false = ground arith in
      elim (Option-cases (get_or n.tab id none)) [
        | inl e ↦ ground arith
        | inr (name, e) ↦ ground arith
      ]

  -- With the files read, nothing in the cache, and numbers of up to three digits for what has no
  -- name: the text that n2a prints for an `id` of the table is read by a2n as an `id` for which n2a
  -- prints the same text.
  pub a2n-n2a :
      (id len : ℕ)
      → n.cache ≡ none
      → length n.tab ≡ 256
      → ((i : ℕ) → i < 256 → unnamed (pos i) ≡ print_num 10 i)
      → id < 256
      → 4 ≤ len
      → (text : Bytes) × (n' : Names) × (j : ℕ) × (n2a load out unnamed n (pos id) len
          ≡ some (n, text))
        × (a2n load 0 n text ≡ some (n', some j))
        × (n2a load out unnamed n (pos j) len ≡ some (n, text))
  a2n-n2a id len empty size decimal h room =
      elim (Option-cases (find_name n.tab 0 (shown id len))) [
        | inr (j, e) ↦
            let (low, high, found) = find_name-found n.tab 0 (shown id len) j e in
            let same : j - 0 ≡ j = omega arith in
            let at_j : get_or n.tab j none ≡ some (shown id len) = rw same at found in
            (
              shown id len,
              record n { cache = some (shown id len); res = j },
              j,
              n2a-shown id len h,
              known_text load 0 n (shown id len) j ready (uncached (shown id len)) e,
              n2a-shown j len (omega arith) ∙ ap (λ (t : Bytes). some (n, t)) (rw at_j refl),
            )
        | inl e ↦
            let text = number_text (Option-cases (get_or n.tab id none)) e in
            (
              shown id len,
              record n { res = id },
              id,
              n2a-shown id len h,
              unknown_text load 0 n (shown id len) ready (uncached (shown id len)) e
                  ∙ ap (λ (t : Bytes). some (number 0 n t)) text
                  ∙ ap some (number_read n id h),
              n2a-shown id len h,
            )
      ]
    where
      uncached : (text : Bytes) → is_cached n.cache text ≡ false
      uncached text = rw empty refl

      number_text :
          (get_or n.tab id none ≡ none) ⊎ ((name : Bytes) × (get_or n.tab id none ≡ some name))
          → find_name n.tab 0 (shown id len) ≡ none
          → shown id len ≡ print_num 10 id
      number_text (inl z) e =
          rw (z, decimal id h)
            (take-whole (len - 1) (print_num 10 id)
              (omega (arith, length-print_num_le 2 id (omega arith))))
      number_text (inr (name, z)) e = absurd (find_name-ne-none n.tab 0 id name z (rw z at e))

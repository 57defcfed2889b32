-- ===== src/Parts/Laws.antt =====
-- Dotted and colon-separated addresses of lib/utils.c, printed and read.
use libiproute.Prelude.{
  ℕ, zero, suc, ◌≤◌, ◌<◌, ◌≡◌, refl, arith, false, ap, inl, inr, Option, none, some, List, [], ◌∷◌,
  ◌++◌, length, Bytes, Option-cases, List-cases,
}
use libiproute.CLib.{strtoul, print_num, char_value, ulong_max}
use libiproute.CLib.Print.{print_num-append}
use libiproute.CLib.Parse.{Reads, automatic, hexadecimal, strtoul-print_before}
use libiproute.Parts.{before, parts_loop, get_addr_ipv4, get_addr64, addr64_n2a}

abbrev pub AllWithin : ℕ → List ℕ → Type 0
AllWithin limit [] = Unit
AllWithin limit (n ∷ ns) = (n ≤ limit) × AllWithin limit ns

-- Numbers printed in base `b` with `sep` between them.
unfoldable pub separated : ℕ → ℕ → ℕ → List ℕ → Bytes
separated b sep n [] = print_num b n
separated b sep n (m ∷ ns) = print_num b n ++ sep ∷ separated b sep m ns

pub read_number :
    {base b : ℕ} (r : Reads base b) (n : ℕ)
    → n ≤ ulong_max
    → strtoul base (print_num b n) ≡ some (record { value = n; erange = false; rest = [] })
unfolding print_num
read_number r n h = strtoul-print_before r n [] tt h

module _ {base b : ℕ} (r : Reads base b) (sep limit : ℕ) (apart : char_value sep ≡ none)
    (fits : limit ≤ ulong_max) where
  parts_loop-separated :
      (n : ℕ) (ns : List ℕ) (rounds : ℕ)
      → AllWithin limit (n ∷ ns)
      → length ns < rounds
      → parts_loop sep base limit rounds (separated b sep n ns) ≡ some (n ∷ ns)
  unfolding parts_loop separated
  parts_loop-separated n ns zero h k = absurd (omega arith)
  parts_loop-separated n [] (suc rounds) (h, _) k = ground (arith, read_number r n (omega arith))
  parts_loop-separated n (m ∷ ns) (suc rounds) (h, hs) k =
      rw (print_num-append b n (sep ∷ separated b sep m ns)) (
        ground (
          arith,
          strtoul-print_before r n (sep ∷ separated b sep m ns) apart (omega arith),
          parts_loop-separated m ns rounds hs (omega arith),
        ))

before-AllWithin :
    (limit rounds n : ℕ) (m : Option (List ℕ)) (ns : List ℕ)
    → n ≤ limit
    → ((ms : List ℕ) → m ≡ some ms → AllWithin limit ms × (length ms ≤ rounds))
    → before n m ≡ some ns
    → AllWithin limit ns × (1 ≤ length ns) × (length ns ≤ suc rounds)
before-AllWithin limit rounds n none ns h k e = cc
before-AllWithin limit rounds n (some ms) ns h k e = ground (arith, k ms refl)

parts_loop-AllWithin :
    (sep base limit rounds : ℕ) (s : Bytes) (ns : List ℕ)
    → parts_loop sep base limit rounds s ≡ some ns
    → AllWithin limit ns × (1 ≤ length ns) × (length ns ≤ rounds)
unfolding parts_loop
parts_loop-AllWithin sep base limit zero s ns e = cc
parts_loop-AllWithin sep base limit (suc rounds) s ns e = elim (Option-cases (strtoul base s)) [
  | inl q ↦ ground arith
  | inr (p, q) ↦ elim (List-cases p.rest) [
    | inl t ↦ ground arith
    | inr (c, s', t) ↦
        before-AllWithin limit rounds p.value (parts_loop sep base limit rounds s') ns
          (ground arith)
          (λ ms same.
            let (all, some_digit, few) = parts_loop-AllWithin sep base limit rounds s' ms same in
            (all, few))
          (ground arith)
  ]
]

-- A dotted address of one to four bytes is read as those bytes.
pub get_addr_ipv4-separated :
    (n : ℕ) (ns : List ℕ)
    → AllWithin 255 (n ∷ ns)
    → length ns < 4
    → get_addr_ipv4 (separated 10 b'.' n ns) ≡ some (n ∷ ns)
unfolding get_addr_ipv4
get_addr_ipv4-separated n ns h k =
    parts_loop-separated automatic b'.' 255 refl (omega arith) n ns 4 h k

-- What the two parsers accept is one to four numbers, all in range.
pub get_addr-AllWithin :
    (s t : Bytes) (ns ws : List ℕ)
    → get_addr_ipv4 s ≡ some ns
    → get_addr64 t ≡ some ws
    → (AllWithin 255 ns × (1 ≤ length ns) × (length ns ≤ 4))
      × (AllWithin 0xffff ws × (1 ≤ length ws) × (length ws ≤ 4))
unfolding get_addr_ipv4 get_addr64
get_addr-AllWithin s t ns ws e f =
    (parts_loop-AllWithin b'.' 0 255 4 s ns e, parts_loop-AllWithin b':' 16 0xffff 4 t ws f)

addr64_n2a-separated : (v : ℕ) (ws : List ℕ) → addr64_n2a (v ∷ ws) ≡ separated 16 b':' v ws
unfolding addr64_n2a separated
addr64_n2a-separated v [] = refl
addr64_n2a-separated v (w ∷ ws) =
    ap (λ (s : Bytes). print_num 16 v ++ b':' ∷ s) (addr64_n2a-separated w ws)

-- `get_addr64` reads back the four words that `addr64_n2a` prints.
pub get_addr64-addr64_n2a :
    (a b c d : ℕ)
    → AllWithin 0xffff (a ∷ b ∷ c ∷ d ∷ [])
    → get_addr64 (addr64_n2a (a ∷ b ∷ c ∷ d ∷ [])) ≡ some (a ∷ b ∷ c ∷ d ∷ [])
unfolding get_addr64
get_addr64-addr64_n2a a b c d h = rw (addr64_n2a-separated a (b ∷ c ∷ d ∷ [])) (
    parts_loop-separated hexadecimal b':' 0xffff refl (omega arith) a (b ∷ c ∷ d ∷ []) 4 h
      (omega arith))

-- ===== src/Dnet/Print.antt =====
-- The digits that lib/dnet_ntop.c writes.
use Prim.Native.Nat.{bit_and}
use libiproute.Prelude.{
  ℕ, zero, suc, ◌+◌, ◌*◌, ◌/◌, ◌%◌, ◌^◌, ◌≤◌, ◌<◌, ◌≡◌, arith, false, ap, ◌∙◌, inl, inr, Bool-cases,
  some, [], ◌∷◌, ◌++◌, append_assoc, length, length-append, All, All-append, Bytes, if◌then◌else◌,
  ltb,
}
use libiproute.Prelude.Bits.{bit_and-low_mask}
use libiproute.Dnet.{
  af_decnet, Digits, print_area, print_node, terminated, finish, dnet_ntop1, dnet_ntop,
}

-- The decimal digits of a number, from the place 10^k down.
unfoldable pub decimals : ℕ → ℕ → Bytes
decimals zero n = (n + b'0') ∷ []
decimals (suc k) n = (n / 10 ^ suc k + b'0') ∷ decimals k (n % 10 ^ suc k)

abbrev pub area_text : ℕ → Bytes
area_text n = if ltb n 10 then decimals 0 n else decimals 1 n

abbrev pub node_text : ℕ → Bytes
node_text n =
    if ltb n 10
    then decimals 0 n
    else if ltb n 100
    then decimals 1 n
    else if ltb n 1000
    then decimals 2 n
    else decimals 3 n

area_digits :
    (len n : ℕ)
    → n < 64
    → 8 ≤ len
    → let d = print_area len n in (d.str ≡ area_text n) × (d.full ≡ false)
unfolding print_area decimals
area_digits len n h k = (ground arith, ground arith)

abbrev NodeDigits : ℕ → ℕ → Bytes → Type 0
NodeDigits len n s = let d = print_node len s n in (d.str ≡ s ++ node_text n) × (d.full ≡ false)

NodeDigits-one : (len n a b : ℕ) → n < 1024 → 8 ≤ len → NodeDigits len n (a ∷ b ∷ [])
unfolding print_node decimals
NodeDigits-one len n a b h k = (ground arith, ground arith)

NodeDigits-two : (len n a b c : ℕ) → n < 1024 → 8 ≤ len → NodeDigits len n (a ∷ b ∷ c ∷ [])
unfolding print_node decimals
NodeDigits-two len n a b c h k = (ground arith, ground arith)

abbrev pub dnet_text : ℕ → ℕ → Bytes
dnet_text area node = area_text area ++ b'.' ∷ node_text node

after_area :
    (len node : ℕ) (s : Bytes) (area : ℕ)
    → area < 64
    → s ≡ area_text area
    → node < 1024
    → 8 ≤ len
    → NodeDigits len node (s ++ b'.' ∷ [])
unfolding decimals
after_area len node s area h e k l = elim (Bool-cases (ltb area 10)) [
  | inl small ↦ rw (e, small) (NodeDigits-one len node _ b'.' k l)
  | inr large ↦ rw (e, large) (NodeDigits-two len node _ _ b'.' k l)
]

length-area_text : (area : ℕ) → length (area_text area) ≤ 2
unfolding decimals
length-area_text area = ground arith

pub length-node_text : (node : ℕ) → length (node_text node) ≤ 4
unfolding decimals
length-node_text node = ground arith

node_mask : (area node : ℕ) → node < 1024 → bit_and (area * 2 ^ 10 + node) 0x3ff ≡ node
node_mask area node h = omega (arith, bit_and-low_mask 10 (area * 2 ^ 10 + node))

area_shift : (area node : ℕ) → node < 1024 → (area * 2 ^ 10 + node) / 2 ^ 10 ≡ area
area_shift area node h = omega arith

finish-terminated :
    (len : ℕ) (d : Digits) (s : Bytes)
    → d.full ≡ false
    → d.str ≡ s
    → length s < len
    → finish len d ≡ terminated s
unfolding finish
finish-terminated len d s e f h = ground arith

length-dnet_text : (area node : ℕ) → length (dnet_text area node) ≤ 7
length-dnet_text area node = omega (
  arith,
  length-append (area_text area) (b'.' ∷ node_text node),
  length-area_text area,
  length-node_text node,
)

print_node-text :
    (len area node : ℕ)
    → area < 64
    → node < 1024
    → 8 ≤ len
    → finish len (print_node len ((print_area len area).str ++ b'.' ∷ []) node)
      ≡ terminated (dnet_text area node)
print_node-text len area node h k l =
    let (str, room) = area_digits len area h l in
    let (rest, room') = after_area len node _ area h str k l in
    finish-terminated len _ (dnet_text area node) room'
      (rest
        ∙ append_assoc _ (b'.' ∷ []) (node_text node)
        ∙ ap (λ (s : Bytes). s ++ b'.' ∷ node_text node) str)
      (omega (arith, length-dnet_text area node))

dnet_ntop1-text :
    (len area node : ℕ)
    → area < 64
    → node < 1024
    → 8 ≤ len
    → dnet_ntop1 (area * 2 ^ 10 + node) len ≡ terminated (dnet_text area node)
unfolding dnet_ntop1
dnet_ntop1-text len area node h k l =
    let (str, room) = area_digits len area h l in
    rw (area_shift area node k, node_mask area node k)
      (ground (
        arith,
        ap (λ (s : Bytes). length s) str,
        length-area_text area,
        print_node-text len area node h k l,
      ))

pub dnet_ntop-number :
    (len area node : ℕ)
    → area < 64
    → node < 1024
    → 8 ≤ len
    → dnet_ntop af_decnet (area * 2 ^ 10 + node) len ≡ some (terminated (dnet_text area node))
unfolding dnet_ntop
dnet_ntop-number len area node h k l = ap some (dnet_ntop1-text len area node h k l)

-- What is printed is digits and a dot.
module _ (P : ℕ → Type 0) (each : (d : ℕ) → d < 10 → P (d + b'0')) where
  area_text-All : (area : ℕ) → area < 64 → All P (area_text area)
  unfolding decimals
  area_text-All area h = elim (Bool-cases (ltb area 10)) [
    | inl e ↦ rw e (each area (ground arith), tt)
    | inr e ↦ rw e (each (area / 10) (omega arith), (each (area % 10) (omega arith), tt))
  ]

  node_text-All : (node : ℕ) → node < 1024 → All P (node_text node)
  unfolding decimals
  node_text-All node h = elim (Bool-cases (ltb node 10)) [
    | inl e ↦ rw e (each node (ground arith), tt)
    | inr e ↦ elim (Bool-cases (ltb node 100)) [
      | inl f ↦ rw (e, f) (each (node / 10) (ground arith), (each (node % 10) (omega arith), tt))
      | inr f ↦ elim (Bool-cases (ltb node 1000)) [
        | inl g ↦
            rw (e, f, g)
              (
                each (node / 100) (ground arith),
                (each (node % 100 / 10) (omega arith), (each (node % 100 % 10) (omega arith), tt)),
              )
        | inr g ↦
            rw (e, f, g)
              (
                each (node / 1000) (omega arith),
                (
                  each (node % 1000 / 100) (omega arith),
                  (
                    each (node % 1000 % 100 / 10) (omega arith),
                    (each (node % 1000 % 100 % 10) (omega arith), tt),
                  ),
                ),
              )
      ]
    ]
  ]

  pub dnet_text-All :
      (area node : ℕ) → P b'.' → area < 64 → node < 1024 → All P (dnet_text area node)
  dnet_text-All area node dot h k =
      All-append P (area_text area) (b'.' ∷ node_text node) (area_text-All area h)
        (dot, node_text-All node k)

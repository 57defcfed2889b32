-- ===== src/Mpls/Laws.antt =====
-- The texts of `mpls_ntop` of lib/mpls_ntop.c, and the stacks that `mpls_pton` reads.
use Prim.Native.Nat.{bit_and, bit_or}
use libiproute.Prelude.{
  ℕ, zero, suc, ◌+◌, ◌-◌, ◌*◌, ◌/◌, ◌%◌, ◌^◌, ◌≤◌, ◌<◌, ◌≡◌, refl, arith, false, Option, none, some,
  List, [], ◌∷◌, ◌++◌, append_assoc, inl, inr, Option-cases, List-cases, length, length-append,
  Bytes, All, All-append, if◌then◌else◌, leb,
}
use libiproute.Prelude.Bits.{bit_or_fields, bit_and-two_pow}
use libiproute.CLib.{strtoul, digit_char, print_num, print_before}
use libiproute.CLib.Print.{Ends, print_num-append, print_num-All}
use libiproute.CLib.Parse.{automatic, strtoul-print_before}
use libiproute.Mpls.{
  s_mask, prepend, mpls_pton1, mpls_pton, mpls_ntop1, mpls_ntop, text, too_big, af_mpls, done,
}

abbrev pub Labels : List ℕ → Type 0
Labels [] = Unit
Labels (l ∷ ls) = (l < 2 ^ 20) × Labels ls

-- The entries of a stack: the last one alone has the bottom-of-stack bit.
unfoldable pub entries : ℕ → List ℕ → List ℕ
entries l [] = (l * 2 ^ 12 + s_mask) ∷ []
entries l (m ∷ ls) = (l * 2 ^ 12) ∷ entries m ls

unfoldable pub stack_text : ℕ → List ℕ → Bytes
stack_text l [] = print_num 10 l
stack_text l (m ∷ ls) = print_num 10 l ++ b'/' ∷ stack_text m ls

set_bottom : (l : ℕ) → bit_or (l * 2 ^ 12) s_mask ≡ l * 2 ^ 12 + s_mask
set_bottom l = bit_or_fields 12 l s_mask (omega arith)

read_label :
    (l : ℕ) (rest : Bytes)
    → l < 2 ^ 20
    → Ends rest
    → strtoul 0 (print_before 10 l rest) ≡ some (record { value = l; erange = false; rest = rest })
read_label l rest h e = strtoul-print_before automatic l rest e (omega arith)

mpls_pton1-stack_text :
    (l : ℕ) (ls : List ℕ) (room : ℕ)
    → l < 2 ^ 20
    → Labels ls
    → length ls < room
    → mpls_pton1 room (stack_text l ls) ≡ some (entries l ls)
unfolding mpls_pton1 stack_text entries
mpls_pton1-stack_text l ls zero h k r = absurd (omega arith)
mpls_pton1-stack_text l [] (suc room) h k r =
    unfold print_num in ground (arith, read_label l [] h tt, set_bottom l)
mpls_pton1-stack_text l (m ∷ ls) (suc room) h (hm, k) r =
    rw (print_num-append 10 l (b'/' ∷ stack_text m ls)) (
      ground (
        arith,
        read_label l (b'/' ∷ stack_text m ls) h refl,
        mpls_pton1-stack_text m ls room hm k (omega arith),
      ))

pub bottom_clear : (l : ℕ) → bit_and (l * 2 ^ 12) s_mask ≡ 0
bottom_clear l = omega (arith, bit_and-two_pow 8 (l * 2 ^ 12))

pub bottom_set : (l : ℕ) → bit_and (l * 2 ^ 12 + s_mask) s_mask ≡ s_mask
bottom_set l = omega (arith, bit_and-two_pow 8 (l * 2 ^ 12 + s_mask))

pub bottom_label : (l : ℕ) → (l * 2 ^ 12 + s_mask) / 2 ^ 12 ≡ l
bottom_label l = omega arith

pub upper_label : (l : ℕ) → l * 2 ^ 12 / 2 ^ 12 ≡ l
upper_label l = omega arith

-- The text comes out whole where it and its NUL fit the buffer, and else not at all.
pub mpls_ntop1-entries :
    (l : ℕ) (ls : List ℕ) (destlen : ℕ)
    → mpls_ntop1 (entries l ls) destlen
      ≡ (if leb destlen (length (stack_text l ls)) then too_big else text (stack_text l ls))
unfolding mpls_ntop1 stack_text entries
mpls_ntop1-entries l [] destlen = rw (bottom_label l, bottom_set l)
mpls_ntop1-entries l (m ∷ ls) destlen =
    rw (upper_label l, bottom_clear l)
      (ground (
        arith,
        length-append (print_num 10 l) (b'/' ∷ stack_text m ls),
        append_assoc (print_num 10 l) (b'/' ∷ []) (stack_text m ls),
        mpls_ntop1-entries m ls (destlen - length (print_num 10 l) - 1),
      ))

pub mpls_ntop-entries :
    (l : ℕ) (ls : List ℕ) (buflen : ℕ)
    → length (stack_text l ls) < buflen
    → mpls_ntop af_mpls (entries l ls) buflen ≡ some (text (stack_text l ls))
unfolding mpls_ntop
mpls_ntop-entries l ls buflen room = ground (arith, mpls_ntop1-entries l ls buflen)

pub mpls_pton-stack_text :
    (l : ℕ) (ls : List ℕ) (alen : ℕ)
    → l < 2 ^ 20
    → Labels ls
    → 4 * (length ls + 1) ≤ alen
    → mpls_pton af_mpls (stack_text l ls) alen ≡ done (entries l ls)
unfolding mpls_pton
mpls_pton-stack_text l ls alen h k fits =
    rw (mpls_pton1-stack_text l ls (alen / 4) h k (omega arith))

-- A stack of labels below 2^20 is printed by `mpls_ntop` where it fits the text buffer, and
-- `mpls_pton` reads the same entries back where they fit the label buffer.
pub mpls_pton-mpls_ntop :
    (l : ℕ) (ls : List ℕ) (buflen alen : ℕ)
    → l < 2 ^ 20
    → Labels ls
    → length (stack_text l ls) < buflen
    → 4 * (length ls + 1) ≤ alen
    → (s : Bytes) × (mpls_ntop af_mpls (entries l ls) buflen ≡ some (text s))
      × (mpls_pton af_mpls s alen ≡ done (entries l ls))
mpls_pton-mpls_ntop l ls buflen alen h k room fits =
    (stack_text l ls, mpls_ntop-entries l ls buflen room, mpls_pton-stack_text l ls alen h k fits)

-- Labels below 2^20, and the bottom-of-stack bit on the last entry alone.
abbrev pub IsStack : List ℕ → Type 0
IsStack [] = ⊥
IsStack (e ∷ []) = (e / 2 ^ 12 < 2 ^ 20) × (e % 2 ^ 12 ≡ s_mask)
IsStack (e ∷ f ∷ es) = (e / 2 ^ 12 < 2 ^ 20) × (e % 2 ^ 12 ≡ 0) × IsStack (f ∷ es)

prepend-IsStack :
    (v room : ℕ) (m : Option (List ℕ)) (es : List ℕ)
    → v < 2 ^ 20
    → ((fs : List ℕ) → m ≡ some fs → IsStack fs × (length fs ≤ room))
    → prepend (v * 2 ^ 12) m ≡ some es
    → IsStack es × (length es ≤ suc room)
prepend-IsStack v room none es h k e = cc
prepend-IsStack v room (some []) es h k e = absurd ((k [] refl).0)
prepend-IsStack v room (some (f ∷ fs)) es h k e = ground (arith, k (f ∷ fs) refl)

-- Whatever `mpls_pton1` accepts is a stack of labels below 2^20 with the bottom-of-stack bit on
-- the last entry alone, and there is room for its entries.
pub mpls_pton1-IsStack :
    (room : ℕ) (s : Bytes) (es : List ℕ)
    → mpls_pton1 room s ≡ some es
    → IsStack es × (length es ≤ room)
unfolding mpls_pton1
mpls_pton1-IsStack zero s es e = cc
mpls_pton1-IsStack (suc room) s es e = elim (Option-cases (strtoul 0 s)) [
  | inl q ↦ ground arith
  | inr (p, q) ↦ elim (List-cases p.rest) [
    | inl r ↦ ground (arith, set_bottom p.value)
    | inr (c, name', r) ↦ ground (
      arith,
      prepend-IsStack p.value room (mpls_pton1 room name') es (ground arith)
          (mpls_pton1-IsStack room name') (ground arith),
    )
  ]
]

-- What is printed is digits and slashes.
pub stack_text-All :
    (P : ℕ → Type 0) (each : (d : ℕ) → d < 10 → P (digit_char d)) (slash : P b'/') (l : ℕ)
    (ls : List ℕ)
    → All P (stack_text l ls)
unfolding stack_text
stack_text-All P each slash l [] = print_num-All P 10 (omega arith) each l
stack_text-All P each slash l (m ∷ ls) =
    All-append P (print_num 10 l) (b'/' ∷ stack_text m ls) (print_num-All P 10 (omega arith) each l)
      (slash, stack_text-All P each slash m ls)

pub entries-lt :
    (l : ℕ) (ls : List ℕ) → l < 2 ^ 20 → Labels ls → All (λ (e : ℕ). e < 2 ^ 32) (entries l ls)
unfolding entries
entries-lt l [] h k = (omega arith, tt)
entries-lt l (m ∷ ls) h (hm, k) = (omega arith, entries-lt m ls hm k)

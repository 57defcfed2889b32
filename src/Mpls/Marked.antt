-- ===== src/Mpls/Marked.antt =====
-- Label stacks with any traffic class and TTL, and `mpls_ntop` of lib/mpls_ntop.c, which shows the labels.
use Prim.Native.Nat.{bit_and}
use libiproute.Prelude.{
  ℕ, ◌/◌, ◌%◌, ◌^◌, ◌<◌, ◌≡◌, refl, ap, ◌∙◌, arith, some, List, [], ◌∷◌, All, map, length,
}
use libiproute.Prelude.Bits.{bit_and-two_pow}
use libiproute.Mpls.{s_mask, mpls_ntop1, mpls_ntop, text, af_mpls}
use libiproute.Mpls.Laws.{
  Labels, entries, stack_text, bottom_clear, bottom_set, bottom_label, upper_label,
  mpls_ntop-entries,
}

-- The label of an entry: its upper 20 bits.
abbrev pub label_of : ℕ → ℕ
label_of e = e / 2 ^ 12

-- Entries of 32 bits, with the bottom-of-stack bit on the last one alone.
unfoldable pub Marked : ℕ → List ℕ → Type 0
Marked e [] = (e < 2 ^ 32) × (e / 2 ^ 8 % 2 ≡ 1)
Marked e (f ∷ es) = (e < 2 ^ 32) × (e / 2 ^ 8 % 2 ≡ 0) × Marked f es

-- The same labels with the traffic class and the TTL 0.
abbrev pub bare : ℕ → List ℕ → List ℕ
bare e es = entries (label_of e) (map label_of es)

pub Marked-Labels :
    (e : ℕ) (es : List ℕ) → Marked e es → (label_of e < 2 ^ 20) × Labels (map label_of es)
unfolding Marked
Marked-Labels e [] (h, bottom) = (omega arith, tt)
Marked-Labels e (f ∷ es) (h, upper, hs) = (omega arith, Marked-Labels f es hs)

pub Marked-lt : (e : ℕ) (es : List ℕ) → Marked e es → All (λ (x : ℕ). x < 2 ^ 32) (e ∷ es)
unfolding Marked
Marked-lt e [] (h, bottom) = (h, tt)
Marked-lt e (f ∷ es) (h, upper, hs) = (h, Marked-lt f es hs)

mpls_ntop1-bare :
    (e : ℕ) (es : List ℕ) (destlen : ℕ)
    → Marked e es
    → mpls_ntop1 (e ∷ es) destlen ≡ mpls_ntop1 (bare e es) destlen
unfolding mpls_ntop1 entries Marked
mpls_ntop1-bare e [] destlen (h, bottom) =
    let marked : bit_and e s_mask ≡ s_mask = omega (arith, bit_and-two_pow 8 e, bottom) in
    rw (marked, bottom_label (label_of e), bottom_set (label_of e)) refl
mpls_ntop1-bare e (f ∷ es) destlen (h, upper, hs) =
    let clear : bit_and e s_mask ≡ 0 = omega (arith, bit_and-two_pow 8 e, upper) in
    rw (clear, upper_label (label_of e), bottom_clear (label_of e), mpls_ntop1-bare f es) refl

pub mpls_ntop-Marked :
    (e : ℕ) (es : List ℕ) (buflen : ℕ)
    → Marked e es
    → length (stack_text (label_of e) (map label_of es)) < buflen
    → mpls_ntop af_mpls (e ∷ es) buflen ≡ some (text (stack_text (label_of e) (map label_of es)))
unfolding mpls_ntop
mpls_ntop-Marked e es buflen h room =
    ap some (mpls_ntop1-bare e es buflen h)
    ∙ mpls_ntop-entries (label_of e) (map label_of es) buflen room

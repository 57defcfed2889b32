-- ===== src/U32/Parse/Laws.antt =====
-- The selectors that the matches of tc/f_u32.c leave.
use libiproute.Prelude.{
  ℕ, zero, suc, ◌+◌, ◌-◌, ◌*◌, ◌^◌, ◌<◌, ◌≡◌, refl, arith, Bool, true, false, ◌||◌, Option, none,
  some, [], ◌∷◌, ltb, if◌then◌else◌, ◌>>=◌, >>=-eq-some, Bytes, codes, All, length, ◌≤◌, Bool-cases,
  inl, inr, ◌⊎◌,
}
use libiproute.Prelude.Int.{ℤ, pos, negsuc, add_ℕ}
use libiproute.Numbers.{get_u32}
use libiproute.Numbers.Laws.{get_u32-lt}
use libiproute.Address.{word}
use libiproute.U32.{Sel, pack_key, pack_key32, pack_key16, pack_key8}
use libiproute.U32.Laws.{IsKey, Packs, pack_key-Packs}
use libiproute.U32.Fields.{PacksField, pack_key8-PacksField, pack_key16-PacksField}
use libiproute.U32.Room.{Room, pack_key-Room, pack_key16-Room, pack_key8-Room}
use libiproute.U32.Parse.{
  Args, Outcome, left_over, refuse_if, optional_at, key_and_mask, parse_u32, parse_u16, parse_u8,
  prefix_mask, ip6_loop, parse_ip6_class, parse_udp, parse_icmp, is,
}
use libiproute.U32.Match.{ether_loop}

-- The keys are well-formed, and there are no more than 128.
abbrev pub IsSelector : Sel → Type 0
IsSelector sel = All IsKey sel.keys × (length sel.keys ≤ 128)

-- A selector that is made of another one is well-formed where that one is.
abbrev pub KeepsKeys : Sel → Option Sel → Type 0
KeepsKeys sel none = Unit
KeepsKeys sel (some sel') = IsSelector sel → IsSelector sel'

abbrev pub Keeps : Sel → Outcome → Type 0
Keeps sel none = Unit
Keeps sel (some (sel', args)) = IsSelector sel → IsSelector sel'

module _ (sel : Sel) where
  of_Packs :
      (key mask : ℕ) (off offmask : ℤ) (r : Option Sel)
      → (All IsKey sel.keys → Packs (λ o m. 0) sel key mask off offmask r)
      → Room sel r
      → KeepsKeys sel r
  of_Packs key mask off offmask none h room = tt
  of_Packs key mask off offmask (some sel') h room = λ ik. ((h ik.0).0, room ik.1)

  of_PacksField :
      (field limit key mask : ℕ) (r : Option Sel)
      → (All IsKey sel.keys → PacksField (λ o m. 0) sel field limit key mask r)
      → Room sel r
      → KeepsKeys sel r
  of_PacksField field limit key mask none h room = tt
  of_PacksField field limit key mask (some sel') h room = λ ik. ((h ik.0).0, room ik.1)

  pub pack_key-KeepsKeys :
      (key mask : ℕ) (off offmask : ℤ)
      → mask < 2 ^ 32
      → KeepsKeys sel (pack_key sel key mask off offmask)
  pack_key-KeepsKeys key mask off offmask h =
      of_Packs key mask off offmask (pack_key sel key mask off offmask)
        (pack_key-Packs (λ o m. 0) (λ o m. omega arith) sel key mask off offmask h)
        (pack_key-Room sel key mask off offmask)

  pub pack_key16-KeepsKeys :
      (key mask : ℕ) (off offmask : ℤ) → KeepsKeys sel (pack_key16 sel key mask off offmask)
  pack_key16-KeepsKeys key mask off offmask =
      of_PacksField _ _ key mask (pack_key16 sel key mask off offmask)
        (λ ik. pack_key16-PacksField (λ o m. 0) (λ o m. omega arith) sel ik key mask off offmask)
        (pack_key16-Room sel key mask off offmask)

  pub pack_key8-KeepsKeys :
      (key mask : ℕ) (off offmask : ℤ) → KeepsKeys sel (pack_key8 sel key mask off offmask)
  pack_key8-KeepsKeys key mask off offmask =
      of_PacksField _ _ key mask (pack_key8 sel key mask off offmask)
        (λ ik. pack_key8-PacksField (λ o m. 0) (λ o m. omega arith) sel ik key mask off offmask)
        (pack_key8-Room sel key mask off offmask)

  pub left_over-Keeps :
      (args : Args) (r : Option Sel) → KeepsKeys sel r → Keeps sel (left_over args r)
  left_over-Keeps args none h = tt
  left_over-Keeps args (some sel') h = h

  pub bind-Keeps :
      {A : Type 0} (o : Option A) (f : A → Outcome)
      → ((a : A) → o ≡ some a → Keeps sel (f a))
      → Keeps sel (o >>= f)
  bind-Keeps none f h = tt
  bind-Keeps (some a) f h = h a refl

  pub if-Keeps :
      (b : Bool) (x y : Outcome) → Keeps sel x → Keeps sel y → Keeps sel (if b then x else y)
  if-Keeps true x y hx hy = hx
  if-Keeps false x y hx hy = hy

module _ (stale : Bool) where
  key_and_mask-lt :
      (args : Args) (key mask : ℕ) (rest : Args)
      → key_and_mask stale args ≡ some (key, mask, rest)
      → mask < 2 ^ 32
  key_and_mask-lt [] key mask rest h = cc
  key_and_mask-lt (k ∷ []) key mask rest h = cc
  key_and_mask-lt (k ∷ m ∷ args) key mask rest h =
      let (a, first, more) = >>=-eq-some (get_u32 stale (some k) 0) _ h in
      let (b, second, last) = >>=-eq-some (get_u32 stale (some m) 16) _ more in
      ground (arith, get_u32-lt stale (some m) 16 b)

  pub parse_u32-Keeps :
      (args : Args) (sel : Sel) (off offmask : ℤ) → Keeps sel (parse_u32 stale args sel off offmask)
  unfolding parse_u32 pack_key32
  parse_u32-Keeps args sel off offmask =
      bind-Keeps sel (key_and_mask stale args) _ (λ (key, mask, rest) e.
        bind-Keeps sel (optional_at stale rest off offmask) _ (λ (off', offmask', rest') f.
          left_over-Keeps sel rest' _
            (pack_key-KeepsKeys sel key mask off' offmask' (key_and_mask-lt args key mask rest e))))

  pub parse_u16-Keeps :
      (args : Args) (sel : Sel) (off offmask : ℤ) → Keeps sel (parse_u16 stale args sel off offmask)
  unfolding parse_u16
  parse_u16-Keeps args sel off offmask =
      bind-Keeps sel (key_and_mask stale args) _ (λ (key, mask, rest) e.
        bind-Keeps sel (optional_at stale rest off offmask) _ (λ (off', offmask', rest') f.
          left_over-Keeps sel rest' _ (pack_key16-KeepsKeys sel key mask off' offmask')))

  pub parse_u8-Keeps :
      (args : Args) (sel : Sel) (off offmask : ℤ) → Keeps sel (parse_u8 stale args sel off offmask)
  unfolding parse_u8
  parse_u8-Keeps args sel off offmask =
      bind-Keeps sel (key_and_mask stale args) _ (λ (key, mask, rest) e. if-Keeps sel _ none _ tt (
        bind-Keeps sel (optional_at stale rest off offmask) _ (λ (off', offmask', rest') f.
          left_over-Keeps sel rest' _ (pack_key8-KeepsKeys sel key mask off' offmask'))))

  pub parse_ip6_class-Keeps : (args : Args) (sel : Sel) → Keeps sel (parse_ip6_class stale args sel)
  unfolding parse_ip6_class
  parse_ip6_class-Keeps args sel =
      bind-Keeps sel (key_and_mask stale args) _
        (λ (key, mask, rest) e. class key mask rest (Bool-cases (ltb 0xff mask)))
    where
      class :
          (key mask : ℕ) (rest : Args)
          → (ltb 0xff mask ≡ true) ⊎ (ltb 0xff mask ≡ false)
          → Keeps sel (
              refuse_if
                (ltb 0xff key || ltb 0xff mask)
                (left_over rest (pack_key sel (key * 2 ^ 20) (mask * 2 ^ 20) (pos 0) (pos 0))))
      class key mask rest (inl e) = elim (Bool-cases (ltb 0xff key)) [
        | inl k ↦ rw k tt
        | inr k ↦ rw (k, e) tt
      ]
      class key mask rest (inr e) = if-Keeps sel (ltb 0xff key || ltb 0xff mask) none _ tt (
          left_over-Keeps sel rest _
            (pack_key-KeepsKeys sel (key * 2 ^ 20) (mask * 2 ^ 20) (pos 0) (pos 0) (ground arith)))

  pub parse_udp-Keeps : (args : Args) (sel : Sel) → Keeps sel (parse_udp stale args sel)
  unfolding parse_udp
  parse_udp-Keeps [] sel = tt
  parse_udp-Keeps (a ∷ []) sel = tt
  parse_udp-Keeps (a ∷ b ∷ args) sel =
      if-Keeps sel (is a (codes "src")) _ _ (parse_u16-Keeps (b ∷ args) sel (pos 0) (negsuc 0)) (
        if-Keeps sel (is a (codes "dst")) _ none (parse_u16-Keeps (b ∷ args) sel (pos 2) (negsuc 0))
          tt)

  pub parse_icmp-Keeps : (args : Args) (sel : Sel) → Keeps sel (parse_icmp stale args sel)
  unfolding parse_icmp
  parse_icmp-Keeps [] sel = tt
  parse_icmp-Keeps (a ∷ []) sel = tt
  parse_icmp-Keeps (a ∷ b ∷ args) sel =
      if-Keeps sel (is a (codes "type")) _ _ (parse_u8-Keeps (b ∷ args) sel (pos 0) (negsuc 0)) (
        if-Keeps sel (is a (codes "code")) _ none (parse_u8-Keeps (b ∷ args) sel (pos 1) (negsuc 0))
          tt)

pub prefix_mask-lt : (n : ℕ) → prefix_mask n < 2 ^ 32
prefix_mask-lt zero = omega arith
prefix_mask-lt (suc n) = omega arith

then-Keeps :
    (sel : Sel) (r : Option Sel) (f : Sel → Option Sel)
    → KeepsKeys sel r
    → ((s : Sel) → KeepsKeys s (f s))
    → KeepsKeys sel (r >>= f)
then-Keeps sel none f h k = tt
then-Keeps sel (some s) f h k = joined (f s) (k s)
  where
    joined : (o : Option Sel) → KeepsKeys s o → KeepsKeys sel o
    joined none i = tt
    joined (some t) i = λ ik. i (h ik)

if-KeepsKeys :
    (sel : Sel) (b : Bool) (x y : Option Sel)
    → KeepsKeys sel x
    → KeepsKeys sel y
    → KeepsKeys sel (if b then x else y)
if-KeepsKeys sel true x y hx hy = hx
if-KeepsKeys sel false x y hx hy = hy

pub ip6_loop-KeepsKeys :
    (rounds i : ℕ) (address : Bytes) (plen : ℕ) (off offmask : ℤ) (sel : Sel)
    → KeepsKeys sel (ip6_loop rounds i address plen off offmask sel)
unfolding ip6_loop
ip6_loop-KeepsKeys zero i address plen off offmask sel = λ ik. ik
ip6_loop-KeepsKeys (suc rounds) i address plen off offmask sel =
    if-KeepsKeys sel (ltb (32 * i) plen) _ (some sel)
      (then-Keeps sel _ _
        (pack_key-KeepsKeys sel (word address i) _ (add_ℕ off (4 * i)) offmask mask_lt)
        (λ s. ip6_loop-KeepsKeys rounds (i + 1) address plen off offmask s))
      (λ ik. ik)
  where
    mask_lt : (if ltb (32 * i + 31) plen then 0xffff_ffff else prefix_mask (plen - 32 * i)) < 2 ^ 32
    mask_lt = elim (Bool-cases (ltb (32 * i + 31) plen)) [
      | inl e ↦ rw e (omega arith)
      | inr e ↦ rw e (prefix_mask-lt (plen - 32 * i))
    ]

pub ether_loop-KeepsKeys :
    (address : Bytes) (i : ℕ) (off offmask : ℤ) (sel : Sel)
    → KeepsKeys sel (ether_loop address i off offmask sel)
unfolding ether_loop
ether_loop-KeepsKeys [] i off offmask sel = λ ik. ik
ether_loop-KeepsKeys (b ∷ address) i off offmask sel =
    then-Keeps sel _ _ (pack_key8-KeepsKeys sel b 0xff (add_ℕ off i) offmask)
      (λ s. ether_loop-KeepsKeys address (i + 1) off offmask s)

-- ===== src/SsFilter/Patch.antt =====
-- `ssfilter_patch` of misc/ss.c, instruction by instruction.
use libiproute.Prelude.{
  ℕ, zero, suc, ◌+◌, ◌-◌, ◌*◌, ◌/◌, ◌%◌, ◌^◌, ◌<◌, ◌≤◌, ◌≡◌, ◌≢◌, refl, arith, false, some, [], ◌∷◌,
  ◌++◌, ltb, ◌==◌, if◌then◌else◌, Bytes, length, Bool-cases, inl, inr, take, drop,
  take-length-append, drop-length-append,
}
use libiproute.SsFilter.Compile.{patch_loop}
use libiproute.SsFilter.Code.{piece}

-- The distance of an exit after the patch, where `behind` bytes of the patched code follow.
abbrev pub moved : ℕ → ℕ → ℕ → ℕ
moved out behind reloc = if out == behind then out + reloc else out

-- The patch of `len` bytes makes `a'` of `a`, with as many rounds as bytes or more.
abbrev pub Patches : Bytes → ℕ → ℕ → Bytes → Type 0
Patches a len reloc a' = (rounds : ℕ) → len ≤ rounds → patch_loop rounds a len reloc ≡ some a'

pub nothing_left : (a : Bytes) (reloc : ℕ) → Patches a 0 reloc a
unfolding patch_loop
nothing_left a reloc zero h = refl
nothing_left [] reloc (suc rounds) h = refl
nothing_left (c ∷ []) reloc (suc rounds) h = refl
nothing_left (c ∷ y ∷ []) reloc (suc rounds) h = refl
nothing_left (c ∷ y ∷ n0 ∷ []) reloc (suc rounds) h = refl
nothing_left (c ∷ y ∷ n0 ∷ n1 ∷ a) reloc (suc rounds) h = refl

pub four_more : (p : Bytes) → 4 + length p ≡ suc (suc (suc (suc (length p))))
four_more p = omega arith

-- The header and the operands, and what stands behind them.
module _ (a b c d : ℕ) where
  drop_op : (p s : Bytes) → drop (4 + length p) (a ∷ b ∷ c ∷ d ∷ (p ++ s)) ≡ s
  drop_op p s = rw (four_more p) (drop-length-append p s)

  take_op : (p s : Bytes) → take (4 + length p) (a ∷ b ∷ c ∷ d ∷ (p ++ s)) ≡ a ∷ b ∷ c ∷ d ∷ p
  take_op p s = rw (four_more p, take-length-append p s)

-- One instruction.
patch_one :
    (code : ℕ) (p : Bytes) (no_len behind reloc : ℕ) (s t : Bytes)
    → no_len < 2 ^ 16
    → Patches s behind reloc t
    → Patches
        (piece code p no_len ++ s)
        (4 + length p + behind)
        reloc
        (piece code p (if no_len == 4 + length p + behind + 4 then no_len + reloc else no_len) ++ t)
unfolding patch_loop
patch_one code p no_len behind reloc s t h rest zero k = absurd (omega arith)
patch_one code p no_len behind reloc s t h rest (suc rounds) k =
    let read : no_len % 256 + 256 * (no_len / 256 % 256) ≡ no_len = omega arith in
    let more : (4 + length p + behind == 0) ≡ false = ground arith in
    let inside : ltb (4 + length p + behind) (4 + length p) ≡ false = ground arith in
    let left : 4 + length p + behind - (4 + length p) ≡ behind = omega arith in
    let tail = rest rounds (omega arith) in
    elim (Bool-cases (no_len == 4 + length p + behind + 4)) [
      | inl e ↦ rw (read, more, inside, e, drop_op, left, tail, take_op)
      | inr e ↦ rw (read, more, inside, e, drop_op, left, tail, take_op)
    ]

-- The bytes that follow are patched, too: `s` becomes `t`.
module _ (behind reloc : ℕ) (s t : Bytes) (rest : Patches s behind reloc t) where
  -- A condition with the failing exit.
  pub patch_leaf :
      (code : ℕ) (p : Bytes) (out : ℕ)
      → 8 + length p + out < 2 ^ 16
      → Patches
          (piece code p (4 + length p + 4 + out) ++ s)
          (4 + length p + behind)
          reloc
          (piece code p (4 + length p + 4 + moved out behind reloc) ++ t)
  patch_leaf code p out h =
      rw (no_len) at (patch_one code p (4 + length p + 4 + out) behind reloc s t (omega arith) rest)
    where
      no_len :
          (if 4 + length p + 4 + out == 4 + length p + behind + 4
            then 4 + length p + 4 + out + reloc
            else 4 + length p + 4 + out)
          ≡ 4 + length p + 4 + moved out behind reloc
      no_len = ground arith

  -- An instruction that does not go to the failing exit.
  pub patch_inner :
      (code : ℕ) (p : Bytes) (no_len : ℕ)
      → no_len < 2 ^ 16
      → no_len ≢ 8 + length p + behind
      → Patches (piece code p no_len ++ s) (4 + length p + behind) reloc (piece code p no_len ++ t)
  patch_inner code p no_len h ne = rw same at (patch_one code p no_len behind reloc s t h rest)
    where
      same : (if no_len == 4 + length p + behind + 4 then no_len + reloc else no_len) ≡ no_len
      same = ground arith

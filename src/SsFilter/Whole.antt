-- ===== src/SsFilter/Whole.antt =====
-- The code that `ssfilter_bytecompile` of misc/ss.c yields for a whole filter, by its parts.
use libiproute.Prelude.{
  ℕ, ◌+◌, ◌-◌, ◌^◌, ◌<◌, ◌≡◌, refl, ap, arith, Bool, true, false, ◌||◌, some, List, [], ◌∷◌, ◌++◌,
  if◌then◌else◌, ◌==◌, length, Bool-cases, inl, inr,
}
use libiproute.SsFilter.{
  AaFilter, Filter, s_auto, d_cond, s_cond, d_ge, d_le, s_ge, s_le, dev_cond, mark_mask, conj, disj,
  neg,
}
use libiproute.SsFilter.Compile.{
  bc_s_cond, bc_d_cond, hostcond, addr_len, hosts_loop, hosts_len, ssfilter_patch,
  ssfilter_bytecompile,
}
use libiproute.SsFilter.Code.{
  hosts_code, code_of, code_size, length-hostcond, length-hosts_code, length-code_size,
}
use libiproute.SsFilter.Patch.{nothing_left}
use libiproute.SsFilter.Moves.{patch-code_of}

hosts_loop-hosts_code :
    (pad : ℕ × ℕ) (code : ℕ) (a : AaFilter) (len at : ℕ) (rest : List AaFilter)
    → len ≡ at + hosts_len a rest
    → hosts_loop pad code a len at rest ≡ hosts_code pad code a rest 0
unfolding hosts_loop hosts_code hosts_len
hosts_loop-hosts_code (pad0, pad1) code a len at [] h =
    let no_len : 4 + length (hostcond pad0 pad1 a) + 4 + 0 ≡ addr_len a + 16 =
      omega (arith, length-hostcond pad0 pad1 a) in
    let yes_len : 4 + length (hostcond pad0 pad1 a) ≡ addr_len a + 12 =
      omega (arith, length-hostcond pad0 pad1 a) in
    rw (no_len, yes_len)
hosts_loop-hosts_code (pad0, pad1) code a len at (b ∷ rest) h =
    let no_len : 4 + length (hostcond pad0 pad1 a) + 4 ≡ addr_len a + 16 =
      omega (arith, length-hostcond pad0 pad1 a) in
    let yes_len : 4 + length (hostcond pad0 pad1 a) ≡ addr_len a + 12 =
      omega (arith, length-hostcond pad0 pad1 a) in
    let left : len - (at + addr_len a + 12) ≡ 4 + length (hosts_code (pad0, pad1) code a rest 0) =
      omega (arith, length-hosts_code (pad0, pad1) code a rest 0) in
    rw (
      no_len,
      yes_len,
      left,
      hosts_loop-hosts_code (pad0, pad1) code a len (at + addr_len a + 12 + 4) rest (omega arith),
    )

unfoldable pub has_device : Filter → Bool
has_device (dev_cond a) = true
has_device (conj f g) = has_device f || has_device g
has_device (disj f g) = has_device f || has_device g
has_device (neg f) = has_device f
has_device f = false

-- What the compiler yields, no abort included.
module _ (pad : ℕ × ℕ) where
  patch-whole :
      (f g : Filter)
      → code_size f + code_size g + 4 < 2 ^ 16
      → ssfilter_patch
          (code_of pad f 0 ++ code_of pad g 0)
          (length (code_of pad f 0))
          (length (code_of pad g 0))
        ≡ some (code_of pad (conj f g) 0)
  unfolding ssfilter_patch code_of
  patch-whole f g h =
      let G = code_of pad g 0 in
      let lf = length-code_size pad f 0 in
      let lg = length-code_size pad g 0 in
      let patched =
        patch-code_of pad f 0 0 (length G) G G (omega (arith, lf)) (nothing_left G (length G))
          (length (code_of pad f 0)) (omega arith) in
      let len : length (code_of pad f 0) + 0 ≡ length (code_of pad f 0) = omega arith in
      let out : 0 + length G ≡ length G + 0 = omega arith in rw (len) at (rw (out) at patched)

  size-pos : (f : Filter) → has_device f ≡ false → 0 < code_size f
  unfolding has_device hosts_len
  size-pos s_auto h = omega arith
  size-pos (d_cond a []) h = omega arith
  size-pos (d_cond a (b ∷ rest)) h = omega arith
  size-pos (s_cond a []) h = omega arith
  size-pos (s_cond a (b ∷ rest)) h = omega arith
  size-pos (d_ge x) h = omega arith
  size-pos (d_le x) h = omega arith
  size-pos (s_ge x) h = omega arith
  size-pos (s_le x) h = omega arith
  size-pos (dev_cond a) h = cc
  size-pos (mark_mask a) h = omega arith
  size-pos (conj f g) h = ground (arith, size-pos f)
  size-pos (disj f g) h = omega arith
  size-pos (neg f) h = omega arith

  pub code_of-ne-nil : (f : Filter) → has_device f ≡ false → (length (code_of pad f 0) == 0) ≡ false
  code_of-ne-nil f h = ground (arith, size-pos f, length-code_size pad f 0)

  pub ssfilter_bytecompile-code_of :
      (f : Filter)
      → code_size f + 4 < 2 ^ 16
      → ssfilter_bytecompile pad f ≡ some (if has_device f then [] else code_of pad f 0)
  unfolding ssfilter_bytecompile has_device code_of
  ssfilter_bytecompile-code_of s_auto h = refl
  ssfilter_bytecompile-code_of (d_cond a rest) h =
      ap some (hosts_loop-hosts_code pad bc_d_cond a (hosts_len a rest) 0 rest (omega arith))
  ssfilter_bytecompile-code_of (s_cond a rest) h =
      ap some (hosts_loop-hosts_code pad bc_s_cond a (hosts_len a rest) 0 rest (omega arith))
  ssfilter_bytecompile-code_of (d_ge x) h = refl
  ssfilter_bytecompile-code_of (d_le x) h = refl
  ssfilter_bytecompile-code_of (s_ge x) h = refl
  ssfilter_bytecompile-code_of (s_le x) h = refl
  ssfilter_bytecompile-code_of (dev_cond a) h = refl
  ssfilter_bytecompile-code_of (mark_mask a) h = refl
  ssfilter_bytecompile-code_of (conj f g) h =
      rw
        (ssfilter_bytecompile-code_of f (omega arith), ssfilter_bytecompile-code_of g (omega arith))
        (elim (Bool-cases (has_device f)) [
          | inl d ↦ rw d
          | inr d ↦ elim (Bool-cases (has_device g)) [
            | inl e ↦ rw (d, e, code_of-ne-nil f d)
            | inr e ↦
                rw (d, e, code_of-ne-nil f d, code_of-ne-nil g e) (patch-whole f g (omega arith))
          ]
        ])
  ssfilter_bytecompile-code_of (disj f g) h =
      rw
        (ssfilter_bytecompile-code_of f (omega arith), ssfilter_bytecompile-code_of g (omega arith))
        (elim (Bool-cases (has_device f)) [
          | inl d ↦ rw d
          | inr d ↦ elim (Bool-cases (has_device g)) [
            | inl e ↦ rw (d, e, code_of-ne-nil f d)
            | inr e ↦ rw (d, e, code_of-ne-nil f d, code_of-ne-nil g e)
          ]
        ])
  ssfilter_bytecompile-code_of (neg f) h =
      rw (ssfilter_bytecompile-code_of f (omega arith))
        (elim (Bool-cases (has_device f)) [ inl d ↦ rw d | inr d ↦ rw (d, code_of-ne-nil f d) ])

-- ===== src/SsFilter/Moves.antt =====
-- The patch of the code of a whole filter of misc/ss.c, jump by jump.
use mathlib.Core.Path.{subst}
use libiproute.Prelude.{
  ℕ, ◌+◌, ◌%◌, ◌^◌, ◌<◌, ◌≡◌, refl, sym, ap, ◌∙◌, arith, List, [], ◌∷◌, ◌++◌, Bytes, length,
  length-append, append_assoc,
}
use libiproute.SsFilter.{
  AaFilter, Filter, s_auto, d_cond, s_cond, d_ge, d_le, s_ge, s_le, dev_cond, mark_mask, conj, disj,
  neg,
}
use libiproute.Prelude.Int.{wrapped}
use libiproute.SsFilter.Compile.{
  bc_jmp, bc_s_ge, bc_s_le, bc_d_ge, bc_d_le, bc_auto, bc_s_cond, bc_d_cond, bc_mark_cond, op, le32,
  hostcond,
}
use libiproute.SsFilter.Code.{piece, jump, hosts_code, code_of, length-hosts_code, length-code_of}
use libiproute.SsFilter.Patch.{moved, Patches, patch_leaf, patch_inner}

resize : (a b : Bytes) {n m : ℕ} (reloc : ℕ) → n ≡ m → Patches a n reloc b → Patches a m reloc b
resize a b reloc e h = subst (λ k. Patches a k reloc b) e h

reshape :
    {a a' b b' : Bytes} {n m : ℕ} (reloc : ℕ)
    → a ≡ a'
    → n ≡ m
    → b ≡ b'
    → Patches a n reloc b
    → Patches a' m reloc b'
reshape {a' = a'} {b = b} {n = n} {m = m} reloc ea e eb h =
    subst (λ x. Patches a' m reloc x) eb
      (subst (λ k. Patches a' k reloc b) e (subst (λ x. Patches x n reloc b) ea h))

moved-add :
    (l out behind reloc : ℕ) → moved (l + out) (l + behind) reloc ≡ l + moved out behind reloc
moved-add l out behind reloc = ground arith

moved_inner : (behind reloc : ℕ) → 0 < behind → moved 0 behind reloc ≡ 0
moved_inner behind reloc h = ground arith

-- A code of two parts.
regroup :
    (cf cg s cf' cg' t : Bytes) (n behind reloc : ℕ)
    → n ≡ length cf + (length cg + behind)
    → Patches (cf ++ (cg ++ s)) n reloc (cf' ++ (cg' ++ t))
    → Patches ((cf ++ cg) ++ s) (length (cf ++ cg) + behind) reloc ((cf' ++ cg') ++ t)
regroup cf cg s cf' cg' t n behind reloc e =
    reshape reloc (sym (append_assoc cf cg s)) (omega (arith, length-append cf cg))
      (sym (append_assoc cf' cg' t))

retarget :
    (pad : ℕ × ℕ) (f : Filter) (a u : Bytes) (n reloc : ℕ) {o o' : ℕ}
    → o ≡ o'
    → Patches a n reloc (code_of pad f o ++ u)
    → Patches a n reloc (code_of pad f o' ++ u)
retarget pad f a u n reloc e = subst (λ k. Patches a n reloc (code_of pad f k ++ u)) e

same_length :
    (pad : ℕ × ℕ) (f : Filter) (out out' : ℕ)
    → length (code_of pad f out) ≡ length (code_of pad f out')
same_length pad f out out' = length-code_of pad f out ∙ sym (length-code_of pad f out')

module _ (pad0 pad1 code : ℕ) (a : AaFilter) (out behind reloc : ℕ) (s t : Bytes) where
  pub patch-hosts :
      (rest : List AaFilter)
      → length (hosts_code (pad0, pad1) code a rest out) + 4 + out < 2 ^ 16
      → Patches s behind reloc t
      → Patches
          (hosts_code (pad0, pad1) code a rest out ++ s)
          (length (hosts_code (pad0, pad1) code a rest out) + behind)
          reloc
          (hosts_code (pad0, pad1) code a rest (moved out behind reloc) ++ t)
  unfolding hosts_code
  patch-hosts [] h k =
      resize _ _ reloc (omega arith)
        (patch_leaf behind reloc s t k code (hostcond pad0 pad1 a) out (omega arith))
  patch-hosts (b ∷ rest) h k =
      reshape reloc
        (sym (append_assoc (piece code hc (4 + length hc + 4)) (jump (4 + length tail) ++ tail) s))
        (omega (arith, long))
        (ap (λ (l : ℕ). piece code hc (4 + length hc + 4) ++ (jump (4 + l) ++ (tail' ++ t))) same
          ∙ sym (
              append_assoc (piece code hc (4 + length hc + 4)) (jump (4 + length tail') ++ tail')
                t))
        (patch_inner (4 + (length tail + behind)) reloc (jump (4 + length tail) ++ (tail ++ s))
          (jump (4 + length tail) ++ (tail' ++ t))
          (patch_inner (length tail + behind) reloc (tail ++ s) (tail' ++ t)
            (patch-hosts rest (omega (arith, long)) k) bc_jmp [] (4 + length tail)
            (omega (arith, long)) (λ e. omega arith))
          code hc (4 + length hc + 4) (omega (arith, long)) (λ e. omega arith))
    where
      hc : Bytes
      hc = hostcond pad0 pad1 a

      tail : Bytes
      tail = hosts_code (pad0, pad1) code a rest out

      tail' : Bytes
      tail' = hosts_code (pad0, pad1) code a rest (moved out behind reloc)

      same : length tail ≡ length tail'
      same =
          length-hosts_code (pad0, pad1) code a rest out
          ∙ sym (length-hosts_code (pad0, pad1) code a rest (moved out behind reloc))

      long : length (hc ++ (jump (4 + length tail) ++ tail)) ≡ length hc + (4 + length tail)
      long = omega (arith, length-append hc (jump (4 + length tail) ++ tail))

pub patch-code_of :
    (pad : ℕ × ℕ) (f : Filter) (out behind reloc : ℕ) (s t : Bytes)
    → length (code_of pad f out) + 4 + out < 2 ^ 16
    → Patches s behind reloc t
    → Patches
        (code_of pad f out ++ s)
        (length (code_of pad f out) + behind)
        reloc
        (code_of pad f (moved out behind reloc) ++ t)
unfolding code_of
patch-code_of pad s_auto out behind reloc s t h k =
    resize _ _ reloc (omega arith) (patch_leaf behind reloc s t k bc_auto [] out (omega arith))
patch-code_of (pad0, pad1) (d_cond a rest) out behind reloc s t h k =
    patch-hosts pad0 pad1 bc_d_cond a out behind reloc s t rest h k
patch-code_of (pad0, pad1) (s_cond a rest) out behind reloc s t h k =
    patch-hosts pad0 pad1 bc_s_cond a out behind reloc s t rest h k
patch-code_of pad (d_ge x) out behind reloc s t h k =
    patch_leaf behind reloc s t k bc_d_ge (op 0 0 (wrapped 16 x.port)) out (omega arith)
patch-code_of pad (d_le x) out behind reloc s t h k =
    patch_leaf behind reloc s t k bc_d_le (op 0 0 (wrapped 16 x.port)) out (omega arith)
patch-code_of pad (s_ge x) out behind reloc s t h k =
    patch_leaf behind reloc s t k bc_s_ge (op 0 0 (wrapped 16 x.port)) out (omega arith)
patch-code_of pad (s_le x) out behind reloc s t h k =
    patch_leaf behind reloc s t k bc_s_le (op 0 0 (wrapped 16 x.port)) out (omega arith)
patch-code_of pad (dev_cond a) out behind reloc s t h k = resize _ _ reloc (omega arith) k
patch-code_of pad (mark_mask a) out behind reloc s t h k =
    patch_leaf behind reloc s t k bc_mark_cond (le32 (a.mark % 2 ^ 32) ++ le32 (a.mask % 2 ^ 32))
      out (omega arith)
patch-code_of pad (conj f g) out behind reloc s t h k =
    let cg = code_of pad g out in
    let cf = code_of pad f (length cg + out) in
    let out' = moved out behind reloc in
    let cg' = code_of pad g out' in
    let cf' = code_of pad f (length cg' + out') in
    let exit : moved (length cg + out) (length cg + behind) reloc ≡ length cg' + out' =
      omega (arith, moved-add (length cg) out behind reloc, same_length pad g out out') in
    let tail = patch-code_of pad g out behind reloc s t (omega (arith, length-append cf cg)) k in
    regroup cf cg s cf' cg' t _ behind reloc refl (
      retarget pad f _ _ _ reloc exit (
        patch-code_of pad f (length cg + out) (length cg + behind) reloc (cg ++ s) (cg' ++ t)
          (omega (arith, length-append cf cg)) tail))
patch-code_of pad (disj f g) out behind reloc s t h k =
    let cg = code_of pad g out in
    let cf = code_of pad f 0 in
    let out' = moved out behind reloc in
    let cg' = code_of pad g out' in
    let over = length cg + 4 in
    let whole = length-append cf (jump over ++ cg) in
    let tail = patch-code_of pad g out behind reloc s t (omega (arith, whole)) k in
    let jumped =
      patch_inner (length cg + behind) reloc (cg ++ s) (cg' ++ t) tail bc_jmp [] over
        (omega (arith, whole)) (λ e. omega arith) in
    let moved_all =
      retarget pad f _ _ _ reloc (moved_inner (4 + (length cg + behind)) reloc (omega arith)) (
        patch-code_of pad f 0 (4 + (length cg + behind)) reloc (jump over ++ (cg ++ s))
          (jump over ++ (cg' ++ t)) (omega (arith, whole)) jumped) in
    regroup cf (jump over ++ cg) s cf (jump (length cg' + 4) ++ cg') t _ behind reloc (omega arith)
      (subst
        (λ l.
          Patches (cf ++ ((jump over ++ cg) ++ s)) (length cf + (4 + (length cg + behind))) reloc
            (cf ++ ((jump (l + 4) ++ cg') ++ t)))
        (same_length pad g out out') moved_all)
patch-code_of pad (neg f) out behind reloc s t h k =
    let cf = code_of pad f 0 in
    let whole = length-append cf (jump (8 + out)) in
    let tail = patch_leaf behind reloc s t k bc_jmp [] out (omega (arith, whole)) in
    regroup cf (jump (8 + out)) s cf (jump (8 + moved out behind reloc)) t _ behind reloc
      (omega arith)
      (retarget pad f _ _ _ reloc (moved_inner (4 + behind) reloc (omega arith)) (
        patch-code_of pad f 0 (4 + behind) reloc (jump (8 + out) ++ s)
          (jump (8 + moved out behind reloc) ++ t) (omega (arith, whole)) tail))

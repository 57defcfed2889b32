-- ===== src/SsFilter/Exits.antt =====
-- Code of misc/ss.c on the kernel's machine, and its failing exit, wherever that was moved to.
use native.Mathlib.Nat.{zero-add, suc-add}
use libiproute.Prelude.{
  ℕ, suc, ◌+◌, ◌-◌, ◌*◌, ◌/◌, ◌%◌, ◌^◌, ◌<◌, ◌≡◌, ap, ◌∙◌, arith, Bool, true, false, ◌&&◌, ◌||◌,
  not, List, [], ◌∷◌, ◌++◌, leb, if◌then◌else◌, Bytes, length, length-append, append_assoc,
  take-length-append, Bool-cases, inl, inr,
}
use libiproute.SsFilter.{
  AaFilter, Filter, s_auto, d_cond, s_cond, d_ge, d_le, s_ge, s_le, dev_cond, mark_mask, conj, disj,
  neg,
}
use libiproute.Prelude.Int.{wrapped}
use libiproute.SsFilter.Compile.{
  bc_jmp, bc_s_ge, bc_s_le, bc_d_ge, bc_d_le, bc_auto, bc_s_cond, bc_d_cond, bc_mark_cond, op, le32,
  hostcond,
}
use libiproute.SsFilter.Code.{IsRunnable, piece, jump, hosts_code, code_of}
use libiproute.SsFilter.Machine.{Machine, go}
use libiproute.SsFilter.Patch.{four_more}

go-append : (run : Bytes → Bool) (s t : Bytes) (n : ℕ) → go run (length s + n) (s ++ t) ≡ go run n t
go-append run [] t n = rw zero-add
go-append run (x ∷ s) t n =
    let shorter : leb (suc (length s + n)) (suc (length (s ++ t)))
        ≡ leb (length s + n) (length (s ++ t)) =
      ground arith in
    rw (suc-add, shorter) (go-append run s t n)

module _ (m : Machine) (pad : ℕ × ℕ) where
  -- What the conditions of a filter say, of a host condition only its first address.
  unfoldable pub meaning : Filter → Bool
  meaning s_auto = m.test bc_auto []
  meaning (d_cond a rest) = m.test bc_d_cond (hostcond pad.0 pad.1 a)
  meaning (s_cond a rest) = m.test bc_s_cond (hostcond pad.0 pad.1 a)
  meaning (d_ge x) = m.test bc_d_ge (op 0 0 (wrapped 16 x.port))
  meaning (d_le x) = m.test bc_d_le (op 0 0 (wrapped 16 x.port))
  meaning (s_ge x) = m.test bc_s_ge (op 0 0 (wrapped 16 x.port))
  meaning (s_le x) = m.test bc_s_le (op 0 0 (wrapped 16 x.port))
  meaning (dev_cond a) = false
  meaning (mark_mask a) = m.test bc_mark_cond (le32 (a.mark % 2 ^ 32) ++ le32 (a.mask % 2 ^ 32))
  meaning (conj f g) = meaning f && meaning g
  meaning (disj f g) = meaning f || meaning g
  meaning (neg f) = not (meaning f)

  abbrev pub Exits : Bytes → ℕ → Bool → Type 0
  Exits code out holds =
      (rest : Bytes)
      → m.run (code ++ rest) ≡ (if holds then m.run rest else go m.run (4 + out) rest)

  go-through : (s rest : Bytes) → go m.run (length s) (s ++ rest) ≡ m.run rest
  go-through s rest =
      let here : leb 0 (length rest) ≡ true = ground arith in
      ap (λ (n : ℕ). go m.run n (s ++ rest)) (omega arith) ∙ go-append m.run s rest 0 ∙ rw here

  leaf-Exits :
      (code : ℕ) (p : Bytes) (out : ℕ)
      → bc_jmp < code
      → 8 + length p + out < 2 ^ 16
      → Exits (piece code p (4 + length p + 4 + out)) out (m.test code p)
  leaf-Exits code p out h k rest =
      m.run_cond code (4 + length p) _ _ (p ++ rest) h (omega arith) (omega arith)
      ∙ rw (read, size, take-length-append p rest) taken
    where
      read :
          (4 + length p + 4 + out) % 256 + 256 * ((4 + length p + 4 + out) / 256 % 256)
          ≡ 4 + length p + 4 + out
      read = omega arith

      size : 4 + length p - 4 ≡ length p
      size = omega arith

      taken :
          go m.run
            (if m.test code p then 4 + length p else 4 + length p + 4 + out)
            (piece code p (4 + length p + 4 + out) ++ rest)
          ≡ (if m.test code p then m.run rest else go m.run (4 + out) rest)
      taken = elim (Bool-cases (m.test code p)) [
        | inl e ↦ rw e (
            ap (λ (n : ℕ). go m.run n (piece code p (4 + length p + 4 + out) ++ rest)) (four_more p)
            ∙ go-through (piece code p (4 + length p + 4 + out)) rest)
        | inr e ↦ rw e (
            ap (λ (n : ℕ). go m.run n (piece code p (4 + length p + 4 + out) ++ rest)) (omega arith)
            ∙ go-append m.run (piece code p (4 + length p + 4 + out)) rest (4 + out))
      ]

  jump-past :
      (s : Bytes) (n : ℕ) (rest : Bytes)
      → 4 + length s + n < 2 ^ 16
      → m.run (jump (4 + length s + n) ++ (s ++ rest)) ≡ go m.run n rest
  jump-past s n rest h =
      m.run_jump 4 _ _ (s ++ rest) (omega arith)
      ∙ rw read (
          ap (λ (k : ℕ). go m.run k (jump (4 + length s + n) ++ (s ++ rest))) (omega arith)
          ∙ go-append m.run (jump (4 + length s + n) ++ s) rest n)
    where
      read : (4 + length s + n) % 256 + 256 * ((4 + length s + n) / 256 % 256) ≡ 4 + length s + n
      read = omega arith

  conj-Exits :
      (p q : Bytes) (out : ℕ) (v w : Bool)
      → Exits p (length q + out) v
      → Exits q out w
      → Exits (p ++ q) out (v && w)
  conj-Exits p q out true w hp hq rest = rw append_assoc (hp (q ++ rest) ∙ hq rest)
  conj-Exits p q out false w hp hq rest = rw append_assoc (
      hp (q ++ rest)
      ∙ ap (λ (n : ℕ). go m.run n (q ++ rest)) (omega arith)
      ∙ go-append m.run q rest (4 + out))

  disj-Exits :
      (p q : Bytes) (out : ℕ) (v w : Bool)
      → 4 + length q < 2 ^ 16
      → Exits p 0 v
      → Exits q out w
      → Exits (p ++ (jump (4 + length q) ++ q)) out (v || w)
  disj-Exits p q out true w h hp hq rest = rw append_assoc (
      hp (jump (4 + length q) ++ (q ++ rest))
      ∙ ap (λ (n : ℕ). m.run (jump n ++ (q ++ rest))) (omega arith)
      ∙ jump-past q 0 rest (omega arith)
      ∙ go-through [] rest)
  disj-Exits p q out false w h hp hq rest = rw append_assoc (
      hp (jump (4 + length q) ++ (q ++ rest))
      ∙ go-through (jump (4 + length q)) (q ++ rest)
      ∙ hq rest)

  neg-Exits :
      (p : Bytes) (out : ℕ) (v : Bool)
      → 8 + out < 2 ^ 16
      → Exits p 0 v
      → Exits (p ++ jump (8 + out)) out (not v)
  neg-Exits p out true h hp rest = rw append_assoc (
      hp (jump (8 + out) ++ rest)
      ∙ ap (λ (n : ℕ). m.run (jump n ++ rest)) (omega arith)
      ∙ jump-past [] (4 + out) rest (omega arith))
  neg-Exits p out false h hp rest =
      rw append_assoc (hp (jump (8 + out) ++ rest) ∙ go-through (jump (8 + out)) rest)

  hosts-Exits :
      (code : ℕ) (a : AaFilter) (hosts : List AaFilter) (out : ℕ)
      → bc_jmp < code
      → length (hosts_code pad code a hosts out) + 4 + out < 2 ^ 16
      → Exits (hosts_code pad code a hosts out) out (m.test code (hostcond pad.0 pad.1 a))
  unfolding hosts_code
  hosts-Exits code a [] out h k = leaf-Exits code (hostcond pad.0 pad.1 a) out h (omega arith)
  hosts-Exits code a (b ∷ hosts) out h k = rw same at (
      disj-Exits (piece code hc (4 + length hc + 4)) tail out (m.test code hc) (m.test code hc)
        (omega (arith, long)) first (hosts-Exits code a hosts out h (omega (arith, long))))
    where
      hc : Bytes
      hc = hostcond pad.0 pad.1 a

      tail : Bytes
      tail = hosts_code pad code a hosts out

      long : length (hc ++ (jump (4 + length tail) ++ tail)) ≡ length hc + (4 + length tail)
      long = omega (arith, length-append hc (jump (4 + length tail) ++ tail))

      first : Exits (piece code hc (4 + length hc + 4)) 0 (m.test code hc)
      first =
          let no_len : 4 + length hc + 4 + 0 ≡ 4 + length hc + 4 = omega arith in
          rw no_len at (leaf-Exits code hc 0 h (omega (arith, long)))

      same : (m.test code hc || m.test code hc) ≡ m.test code hc
      same = ground arith

  -- All but the conditions on devices.
  pub code_of-Exits :
      (f : Filter) (out : ℕ)
      → IsRunnable f
      → length (code_of pad f out) + 4 + out < 2 ^ 16
      → Exits (code_of pad f out) out (meaning f)
  unfolding code_of meaning
  code_of-Exits s_auto out r k = leaf-Exits bc_auto [] out (omega arith) (omega arith)
  code_of-Exits (d_cond a hosts) out r k = hosts-Exits bc_d_cond a hosts out (omega arith) k
  code_of-Exits (s_cond a hosts) out r k = hosts-Exits bc_s_cond a hosts out (omega arith) k
  code_of-Exits (d_ge x) out r k =
      leaf-Exits bc_d_ge (op 0 0 (wrapped 16 x.port)) out (omega arith) (omega arith)
  code_of-Exits (d_le x) out r k =
      leaf-Exits bc_d_le (op 0 0 (wrapped 16 x.port)) out (omega arith) (omega arith)
  code_of-Exits (s_ge x) out r k =
      leaf-Exits bc_s_ge (op 0 0 (wrapped 16 x.port)) out (omega arith) (omega arith)
  code_of-Exits (s_le x) out r k =
      leaf-Exits bc_s_le (op 0 0 (wrapped 16 x.port)) out (omega arith) (omega arith)
  code_of-Exits (dev_cond a) out r k = absurd r
  code_of-Exits (mark_mask a) out r k =
      leaf-Exits bc_mark_cond (le32 (a.mark % 2 ^ 32) ++ le32 (a.mask % 2 ^ 32)) out (omega arith)
        (omega arith)
  code_of-Exits (conj f g) out (rf, rg) k =
      let p = code_of pad f (length (code_of pad g out) + out) in
      conj-Exits p (code_of pad g out) out (meaning f) (meaning g)
        (code_of-Exits f (length (code_of pad g out) + out) rf
          (omega (arith, length-append p (code_of pad g out))))
        (code_of-Exits g out rg (omega (arith, length-append p (code_of pad g out))))
  code_of-Exits (disj f g) out (rf, rg) k =
      let q = code_of pad g out in
      let long = length-append (code_of pad f 0) (jump (length q + 4) ++ q) in
      let swap : 4 + length q ≡ length q + 4 = omega arith in
      rw swap at (
        disj-Exits (code_of pad f 0) q out (meaning f) (meaning g) (omega (arith, long))
          (code_of-Exits f 0 rf (omega (arith, long)))
          (code_of-Exits g out rg (omega (arith, long))))
  code_of-Exits (neg f) out r k =
      let long = length-append (code_of pad f 0) (jump (8 + out)) in
      neg-Exits (code_of pad f 0) out (meaning f) (omega (arith, long))
        (code_of-Exits f 0 r (omega (arith, long)))

-- ===== src/SsFilter/Code.antt =====
-- The code of a filter, written at once with the distance `out` by which its failing exit is to be
-- moved.
use libiproute.Prelude.{
  ℕ, zero, suc, ◌+◌, ◌%◌, ◌^◌, ◌≡◌, refl, sym, ap, ◌∙◌, arith, List, [], ◌∷◌, ◌++◌, Bytes, length,
  length-append,
}
use libiproute.Prelude.Int.{wrapped}
use libiproute.SsFilter.{
  AaFilter, Filter, s_auto, d_cond, s_cond, d_ge, d_le, s_ge, s_le, dev_cond, mark_mask, conj, disj,
  neg,
}
use libiproute.SsFilter.Compile.{
  bc_jmp, bc_s_ge, bc_s_le, bc_d_ge, bc_d_le, bc_auto, bc_s_cond, bc_d_cond, bc_mark_cond, op, le32,
  addr_len, hostcond, bytes_from, hosts_len,
}

-- A filter without conditions on devices, for which there is no code.
abbrev pub IsRunnable : Filter → Type 0
IsRunnable s_auto = Unit
IsRunnable (d_cond a rest) = Unit
IsRunnable (s_cond a rest) = Unit
IsRunnable (d_ge a) = Unit
IsRunnable (d_le a) = Unit
IsRunnable (s_ge a) = Unit
IsRunnable (s_le a) = Unit
IsRunnable (dev_cond a) = ⊥
IsRunnable (mark_mask a) = Unit
IsRunnable (conj f g) = IsRunnable f × IsRunnable g
IsRunnable (disj f g) = IsRunnable f × IsRunnable g
IsRunnable (neg f) = IsRunnable f

-- An instruction with its operands.
abbrev pub piece : ℕ → Bytes → ℕ → Bytes
piece code operands no_len = op code (4 + length operands) no_len ++ operands

abbrev pub jump : ℕ → Bytes
jump no_len = op bc_jmp 4 no_len

unfoldable pub hosts_code : (ℕ × ℕ) → ℕ → AaFilter → List AaFilter → ℕ → Bytes
hosts_code (pad0, pad1) code a [] out =
    piece code (hostcond pad0 pad1 a) (4 + length (hostcond pad0 pad1 a) + 4 + out)
hosts_code (pad0, pad1) code a (b ∷ rest) out =
    piece code (hostcond pad0 pad1 a) (4 + length (hostcond pad0 pad1 a) + 4)
    ++ (jump (4 + length (hosts_code (pad0, pad1) code a rest out))
        ++ hosts_code (pad0, pad1) code a rest out)

unfoldable pub code_of : (ℕ × ℕ) → Filter → ℕ → Bytes
code_of pad s_auto out = piece bc_auto [] (8 + out)
code_of pad (d_cond a rest) out = hosts_code pad bc_d_cond a rest out
code_of pad (s_cond a rest) out = hosts_code pad bc_s_cond a rest out
code_of pad (d_ge x) out = piece bc_d_ge (op 0 0 (wrapped 16 x.port)) (12 + out)
code_of pad (d_le x) out = piece bc_d_le (op 0 0 (wrapped 16 x.port)) (12 + out)
code_of pad (s_ge x) out = piece bc_s_ge (op 0 0 (wrapped 16 x.port)) (12 + out)
code_of pad (s_le x) out = piece bc_s_le (op 0 0 (wrapped 16 x.port)) (12 + out)
code_of pad (dev_cond a) out = []
code_of pad (mark_mask a) out =
    piece bc_mark_cond (le32 (a.mark % 2 ^ 32) ++ le32 (a.mask % 2 ^ 32)) (16 + out)
code_of pad (conj f g) out = code_of pad f (length (code_of pad g out) + out) ++ code_of pad g out
code_of pad (disj f g) out =
    code_of pad f 0 ++ (jump (length (code_of pad g out) + 4) ++ code_of pad g out)
code_of pad (neg f) out = code_of pad f 0 ++ jump (8 + out)

-- The bytes of the code.
abbrev pub code_size : Filter → ℕ
code_size s_auto = 4
code_size (d_cond a rest) = hosts_len a rest
code_size (s_cond a rest) = hosts_len a rest
code_size (d_ge x) = 8
code_size (d_le x) = 8
code_size (s_ge x) = 8
code_size (s_le x) = 8
code_size (dev_cond a) = 0
code_size (mark_mask a) = 12
code_size (conj f g) = code_size f + code_size g
code_size (disj f g) = code_size f + code_size g + 4
code_size (neg f) = code_size f + 4

length-bytes_from : (d : Bytes) (i n : ℕ) → length (bytes_from d i n) ≡ n
unfolding bytes_from
length-bytes_from d i zero = refl
length-bytes_from d i (suc n) = ap suc (length-bytes_from d (suc i) n)

pub length-hostcond :
    (pad0 pad1 : ℕ) (a : AaFilter) → length (hostcond pad0 pad1 a) ≡ addr_len a + 8
unfolding hostcond
length-hostcond pad0 pad1 a = omega (arith, length-bytes_from a.addr.data_bytes 0 (addr_len a))

pub length-hosts_code :
    (pad : ℕ × ℕ) (code : ℕ) (a : AaFilter) (rest : List AaFilter) (out : ℕ)
    → length (hosts_code pad code a rest out) ≡ hosts_len a rest
unfolding hosts_code hosts_len
length-hosts_code (pad0, pad1) code a [] out = omega (arith, length-hostcond pad0 pad1 a)
length-hosts_code (pad0, pad1) code a (b ∷ rest) out = omega (
  arith,
  length-append (hostcond pad0 pad1 a) (
      jump (4 + length (hosts_code (pad0, pad1) code a rest out))
      ++ hosts_code (pad0, pad1) code a rest out),
  length-hostcond pad0 pad1 a,
  length-hosts_code (pad0, pad1) code a rest out,
)

pub length-code_size :
    (pad : ℕ × ℕ) (f : Filter) (out : ℕ) → length (code_of pad f out) ≡ code_size f
unfolding code_of
length-code_size pad s_auto out = refl
length-code_size pad (d_cond a rest) out = length-hosts_code pad bc_d_cond a rest out
length-code_size pad (s_cond a rest) out = length-hosts_code pad bc_s_cond a rest out
length-code_size pad (d_ge x) out = refl
length-code_size pad (d_le x) out = refl
length-code_size pad (s_ge x) out = refl
length-code_size pad (s_le x) out = refl
length-code_size pad (dev_cond a) out = refl
length-code_size pad (mark_mask a) out = refl
length-code_size pad (conj f g) out = omega (
  arith,
  length-append (code_of pad f (length (code_of pad g out) + out)) (code_of pad g out),
  length-code_size pad f (length (code_of pad g out) + out),
  length-code_size pad g out,
)
length-code_size pad (disj f g) out = omega (
  arith,
  length-append (code_of pad f 0) (jump (length (code_of pad g out) + 4) ++ code_of pad g out),
  length-code_size pad f 0,
  length-code_size pad g out,
)
length-code_size pad (neg f) out =
    omega (arith, length-append (code_of pad f 0) (jump (8 + out)), length-code_size pad f 0)

-- The distance does not change the length.
pub length-code_of :
    (pad : ℕ × ℕ) (f : Filter) (out : ℕ) → length (code_of pad f out) ≡ length (code_of pad f 0)
length-code_of pad f out = length-code_size pad f out ∙ sym (length-code_size pad f 0)

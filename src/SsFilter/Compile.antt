-- ===== src/SsFilter/Compile.antt =====
-- `ssfilter_bytecompile` and `ssfilter_patch` of misc/ss.c: from a filter to the code that the kernel
-- runs, instructions of include/uapi/linux/inet_diag.h. An instruction has its code and the length to
-- go on by if it holds (`yes`), in a byte each, the length to jump by if not (`no`), in 16 bits, and
-- its operands. There is memory; the two bytes of padding in a host condition hold what `malloc` left.
use libiproute.Prelude.{
  ℕ, zero, suc, ◌+◌, ◌-◌, ◌*◌, ◌/◌, ◌%◌, ◌^◌, ◌||◌, Option, none, some, List, [], ◌∷◌, ◌++◌, ltb,
  ◌==◌, if◌then◌else◌, ◌>>=◌, Bytes, length, take, drop, get_or,
}
use libiproute.Prelude.Int.{wrapped}
use libiproute.Address.{af_inet6}
use libiproute.SsFilter.{
  AaFilter, Filter, s_auto, d_cond, s_cond, d_ge, d_le, s_ge, s_le, dev_cond, mark_mask, conj, disj,
  neg,
}

abbrev pub bc_jmp : ℕ
bc_jmp = 1

abbrev pub bc_s_ge : ℕ
bc_s_ge = 2

abbrev pub bc_s_le : ℕ
bc_s_le = 3

abbrev pub bc_d_ge : ℕ
bc_d_ge = 4

abbrev pub bc_d_le : ℕ
bc_d_le = 5

abbrev pub bc_auto : ℕ
bc_auto = 6

abbrev pub bc_s_cond : ℕ
bc_s_cond = 7

abbrev pub bc_d_cond : ℕ
bc_d_cond = 8

abbrev pub bc_mark_cond : ℕ
bc_mark_cond = 10

-- struct inet_diag_bc_op
abbrev pub op : ℕ → ℕ → ℕ → Bytes
op code yes_len no_len = code ∷ yes_len ∷ (no_len % 256) ∷ (no_len / 256 % 256) ∷ []

abbrev pub le32 : ℕ → Bytes
le32 v = (v % 256) ∷ (v / 2 ^ 8 % 256) ∷ (v / 2 ^ 16 % 256) ∷ (v / 2 ^ 24 % 256) ∷ []

-- The first `n` bytes of an array of which the list holds those that were stored.
unfoldable pub bytes_from : Bytes → ℕ → ℕ → Bytes
bytes_from d i zero = []
bytes_from d i (suc n) = get_or d i 0 ∷ bytes_from d (suc i) n

-- Moves the jumps to the failing exit of the first `len` bytes by `reloc`. `none`: it aborts, reads
-- behind the buffer, or does not end. Each round goes on by a byte or more; as many rounds as bytes do.
unfoldable pub patch_loop : ℕ → Bytes → ℕ → ℕ → Option Bytes
patch_loop zero a len reloc = if len == 0 then some a else none
patch_loop (suc rounds) (code ∷ yes_len ∷ n0 ∷ n1 ∷ a) len reloc =
    let no_len : ℕ = n0 + 256 * n1 in
    let a' : Bytes =
      if no_len == len + 4
      then op code yes_len (no_len + reloc) ++ a
      else code ∷ yes_len ∷ n0 ∷ n1 ∷ a in
    let rest : Option Bytes = do
      a'' ← patch_loop rounds (drop yes_len a') (len - yes_len) reloc
      some (take yes_len a' ++ a'')
    in if len == 0
      then some (code ∷ yes_len ∷ n0 ∷ n1 ∷ a)
      else if ltb len yes_len
      then none
      else rest
patch_loop (suc rounds) a len reloc = if len == 0 then some a else none

unfoldable pub ssfilter_patch : Bytes → ℕ → ℕ → Option Bytes
ssfilter_patch a len reloc = patch_loop len a len reloc

-- `alen`
abbrev pub addr_len : AaFilter → ℕ
addr_len a = if a.addr.family == af_inet6 then 16 else 4

-- struct inet_diag_hostcond and the address.
unfoldable pub hostcond : ℕ → ℕ → AaFilter → Bytes
hostcond pad0 pad1 a =
    (a.addr.family % 256) ∷ wrapped 8 a.addr.bitlen ∷ pad0 ∷ pad1 ∷ le32 (wrapped 32 a.port)
    ++ bytes_from a.addr.data_bytes 0 (addr_len a)

-- The loop over the addresses: `rest` are those behind the one at hand, which stands at `at`. All
-- conditions are made of the first address, `a`.
unfoldable pub hosts_loop : (ℕ × ℕ) → ℕ → AaFilter → ℕ → ℕ → List AaFilter → Bytes
hosts_loop (pad0, pad1) code a len at [] =
    op code (addr_len a + 12) (addr_len a + 16) ++ hostcond pad0 pad1 a
hosts_loop (pad0, pad1) code a len at (b ∷ rest) =
    let here = at + addr_len a + 12 in
    (op code (addr_len a + 12) (addr_len a + 16) ++ hostcond pad0 pad1 a)
    ++ (op bc_jmp 4 (len - here) ++ hosts_loop (pad0, pad1) code a len (here + 4) rest)

-- The length that is computed before.
unfoldable pub hosts_len : AaFilter → List AaFilter → ℕ
hosts_len a [] = addr_len a + 12
hosts_len a (b ∷ rest) = addr_len a + 12 + 4 + hosts_len a rest

-- Two instructions, of which the second holds a port.
abbrev pub port_op : ℕ → AaFilter → Bytes
port_op code x = op code 8 12 ++ op 0 0 (wrapped 16 x.port)

abbrev pub both_lengths : Bytes → Bytes → Option Bytes → Option Bytes
both_lengths a1 a2 code = if length a1 == 0 || length a2 == 0 then some [] else code

-- `some []`: the length is 0, the kernel cannot run the filter. `none`: it aborts.
unfoldable pub ssfilter_bytecompile : (ℕ × ℕ) → Filter → Option Bytes
ssfilter_bytecompile pad s_auto = some (op bc_auto 4 8)
ssfilter_bytecompile pad (d_cond a rest) =
    some (hosts_loop pad bc_d_cond a (hosts_len a rest) 0 rest)
ssfilter_bytecompile pad (s_cond a rest) =
    some (hosts_loop pad bc_s_cond a (hosts_len a rest) 0 rest)
ssfilter_bytecompile pad (d_ge x) = some (port_op bc_d_ge x)
ssfilter_bytecompile pad (d_le x) = some (port_op bc_d_le x)
ssfilter_bytecompile pad (s_ge x) = some (port_op bc_s_ge x)
ssfilter_bytecompile pad (s_le x) = some (port_op bc_s_le x)
ssfilter_bytecompile pad (dev_cond a) = some []
ssfilter_bytecompile pad (mark_mask a) =
    some (op bc_mark_cond 12 16 ++ (le32 (a.mark % 2 ^ 32) ++ le32 (a.mask % 2 ^ 32)))
ssfilter_bytecompile pad (conj f g) = do
  a1 ← ssfilter_bytecompile pad f
  a2 ← ssfilter_bytecompile pad g
  both_lengths a1 a2 (ssfilter_patch (a1 ++ a2) (length a1) (length a2))
ssfilter_bytecompile pad (disj f g) = do
  a1 ← ssfilter_bytecompile pad f
  a2 ← ssfilter_bytecompile pad g
  both_lengths a1 a2 (some (a1 ++ (op bc_jmp 4 (length a2 + 4) ++ a2)))
ssfilter_bytecompile pad (neg f) = do
  a1 ← ssfilter_bytecompile pad f
  some (if length a1 == 0 then [] else a1 ++ op bc_jmp 4 8)

-- Opens this module for a run.
unfoldable pub run_compile : ℕ
unfolding ssfilter_bytecompile ssfilter_patch patch_loop hosts_loop hosts_len hostcond bytes_from
    wrapped
run_compile = 0

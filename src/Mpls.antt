-- ===== src/Mpls.antt =====
-- MPLS label stacks as text: lib/mpls_pton.c and lib/mpls_ntop.c.
-- A stack is a list of label entries, each the 32-bit value that `ntohl` gives; a text is a C string.
pub mod Laws
pub mod Marked
mod Runs
use Prim.Native.Nat.{bit_and, bit_or}
use libiproute.Prelude.{
  ℕ, zero, suc, ◌+◌, ◌-◌, ◌*◌, ◌/◌, ◌%◌, ◌^◌, Bool, Option, none, some, List, [], ◌∷◌, ◌++◌, leb,
  ltb, ◌==◌, if◌then◌else◌, ◌>>=◌, Bytes, length,
}
use libiproute.CLib.{Parsed, strtoul, print_num}

abbrev pub af_mpls : ℕ
af_mpls = 28

-- The mask and the shift of include/uapi/linux/mpls.h.
abbrev pub label_shift : ℕ
label_shift = 12

abbrev pub s_mask : ℕ
s_mask = 0x100

-- The result of `inet_pton` and its relatives: 1, 0, or -1 with EAFNOSUPPORT.
pub data Pton {ℓ} (A : Type ℓ) : Type ℓ where
  done : A → Pton A
  invalid : Pton A
  unsupported : Pton A

abbrev pub prepend : ℕ → Option (List ℕ) → Option (List ℕ)
prepend e none = none
prepend e (some es) = some (e ∷ es)

-- The loop over `count`; the first argument is the number of labels for which there is room.
pub mpls_pton1 : ℕ → Bytes → Option (List ℕ)
mpls_pton1 zero name = none
mpls_pton1 (suc room) name = elim (strtoul 0 name) [
  | none ↦ none
  | some p ↦
      if leb (2 ^ 20) p.value
      then none
      else (let entry = p.value * 2 ^ label_shift in
          elim p.rest [
            | [] ↦ some (bit_or entry s_mask ∷ [])
            | c ∷ name' ↦
                let more = prepend entry (mpls_pton1 room name') in if c == b'/' then more else none
          ])
]

-- `alen` is the size of the buffer in bytes.
unfoldable pub mpls_pton : ℕ → Bytes → ℕ → Pton (List ℕ)
mpls_pton af src alen =
    if af == af_mpls
    then elim (mpls_pton1 (alen / 4) src) [ none ↦ invalid | some es ↦ done es ]
    else unsupported

-- How `mpls_ntop` ends: with the text, with E2BIG, or past the last entry of `addr`, which the
-- code does not test for.
pub data Ntop : Type 0 where
  text : Bytes → Ntop
  too_big : Ntop
  past_end : Ntop

abbrev after : Bytes → Ntop → Ntop
after s (text t) = text (s ++ t)
after s too_big = too_big
after s past_end = past_end

-- One round for each entry, with `destlen` bytes left.
pub mpls_ntop1 : List ℕ → ℕ → Ntop
mpls_ntop1 [] destlen = past_end
mpls_ntop1 (entry ∷ addr) destlen =
    let label = entry / 2 ^ label_shift in
    let digits = print_num 10 label in
    let len = length digits in
    let more = after (digits ++ b'/' ∷ []) (mpls_ntop1 addr (destlen - len - 1)) in
    if leb destlen len then too_big else if bit_and entry s_mask == 0 then more else text digits

unfoldable pub mpls_ntop : ℕ → List ℕ → ℕ → Option Ntop
mpls_ntop af addr buflen = if af == af_mpls then some (mpls_ntop1 addr buflen) else none

-- Opens this module for a run.
unfoldable pub run_mpls : ℕ
unfolding mpls_pton mpls_pton1 mpls_ntop mpls_ntop1
run_mpls = 0

-- ===== src/Address/Text/LinkLayer.antt =====
-- The bytes of a link-layer address, as `ll_addr_a2n` of lib/ll_addr.c reads and counts them.
use libiproute.Prelude.{
  ℕ, zero, suc, ◌+◌, ◌≤◌, ◌≡◌, ◌≢◌, refl, arith, none, some, List, [], ◌∷◌, ◌++◌, length, take, All,
  Bytes, if◌then◌else◌, ltb,
}
use libiproute.CLib.{print_num}
use libiproute.CLib.Print.{print_num-All}
use libiproute.CLib.Parse.{hexadecimal}
use libiproute.Parts.Laws.{AllWithin, separated, read_number}
use libiproute.Address.Text.{split_at, scan_byte, ll_addr_loop}

unfoldable pub NoColon : ℕ → Type 0
NoColon c = c ≢ b':'

pub split_at-NoColon :
    (s t : Bytes)
    → All NoColon s
    → (split_at b':' (s ++ b':' ∷ t) ≡ (s, some t)) × (split_at b':' s ≡ (s, none))
unfolding split_at NoColon
split_at-NoColon [] t h = (refl, refl)
split_at-NoColon (c ∷ s) t (h, hs) =
    let (cut, whole) = split_at-NoColon s t hs in (ground arith, ground arith)

print_num-NoColon : (n : ℕ) → All NoColon (print_num 16 n)
unfolding NoColon
print_num-NoColon n = print_num-All NoColon 16 (omega arith) (λ d h. ground arith) n

scan_byte-print_num : (n : ℕ) → n ≤ 255 → scan_byte (print_num 16 n) ≡ some n
scan_byte-print_num n h = ground (arith, read_number hexadecimal n (omega arith))

-- Bytes in hexadecimal with colons between them are read in order while there is room. Where all
-- fit, the count is theirs; where there are more than `len` bytes, the first `len` are stored and
-- the count is `len + 1`.
pub ll_addr_loop-separated :
    (len n : ℕ) (ns : List ℕ)
    → AllWithin 255 (n ∷ ns)
    → ll_addr_loop len (separated 16 b':' n ns) ≡ (
        if ltb (length ns) len
        then some (length ns + 1, n ∷ ns)
        else some (len + 1, take len (n ∷ ns)))
unfolding ll_addr_loop separated
ll_addr_loop-separated zero n ns h = ground arith
ll_addr_loop-separated (suc len) n [] (h, _) =
    let (cut, whole) = split_at-NoColon (print_num 16 n) [] (print_num-NoColon n) in
    ground (arith, scan_byte-print_num n h)
ll_addr_loop-separated (suc len) n (m ∷ ns) (h, hs) =
    let (cut, whole) =
      split_at-NoColon (print_num 16 n) (separated 16 b':' m ns) (print_num-NoColon n) in
    ground (arith, scan_byte-print_num n h, ll_addr_loop-separated len m ns hs)

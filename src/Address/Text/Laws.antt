-- ===== src/Address/Text/Laws.antt =====
-- The parsers of addresses and prefixes in lib/utils.c, by the lengths of what they accept.
use Prim.Native.Nat.{bit_or}
use libiproute.Prelude.{
  ℕ, ◌≤◌, ◌<◌, ◌≡◌, ◌≢◌, ◌⊎◌, refl, arith, false, Bool, Option, none, some, List, [], ◌∷◌, ◌++◌,
  length, All, All-append, Bytes, codes, bytes_eq, >>=-eq-some,
}
use libiproute.Prelude.Int.{ℤ, pos, negsuc}
use libiproute.CLib.{print_num}
use libiproute.CLib.Print.{print_num-All}
use libiproute.CLib.Parse.{automatic}
use libiproute.Numbers.Laws.{get_u32-spelled, spelled-print_num}
use libiproute.Parts.{get_addr_ipv4}
use libiproute.Parts.Laws.{AllWithin, separated, get_addr_ipv4-separated}
use libiproute.Address.{
  InetPrefix, af_unspec, af_inet, af_bit_len, prefixlen_specified, set_address_type,
}
use libiproute.Address.Text.{
  split_at, has_char, get_addr_text, get_addr_typed, get_addr_1, get_netmask, with_length,
  get_prefix_1,
}

-- A length that is a number of bits, at most `limit`.
abbrev pub LenWithin : ℕ → ℤ → Type 0
LenWithin limit (pos n) = n ≤ limit
LenWithin limit (negsuc n) = ⊥

abbrev pub BitlenFits : InetPrefix → Type 0
BitlenFits p = LenWithin (af_bit_len p.family) p.bitlen

-- The text of an IPv4 prefix.
abbrev pub prefix_text : ℕ → List ℕ → ℕ → Bytes
prefix_text n ns len = separated 10 b'.' n ns ++ b'/' ∷ print_num 10 len

-- The characters of dotted addresses.
abbrev IsDotted : ℕ → Type 0
IsDotted c = (46 ≤ c) × (c ≤ 57) × (c ≢ b'/')

separated-IsDotted : (n : ℕ) (ns : List ℕ) → All IsDotted (separated 10 b'.' n ns)
unfolding separated
separated-IsDotted n [] = print_num-All IsDotted 10 (omega arith) (λ d h. ground arith) n
separated-IsDotted n (m ∷ ns) =
    All-append IsDotted (print_num 10 n) (b'.' ∷ separated 10 b'.' m ns)
      (print_num-All IsDotted 10 (omega arith) (λ d h. ground arith) n)
      (omega arith, separated-IsDotted m ns)

split_at-IsDotted : (s m : Bytes) → All IsDotted s → split_at b'/' (s ++ b'/' ∷ m) ≡ (s, some m)
unfolding split_at
split_at-IsDotted [] m h = refl
split_at-IsDotted (c ∷ s) m (h, hs) = ground (arith, split_at-IsDotted s m hs)

has_char-IsDotted : (s : Bytes) → All IsDotted s → has_char b':' s ≡ false
unfolding has_char
has_char-IsDotted [] h = refl
has_char-IsDotted (c ∷ s) (h, hs) = ground (arith, has_char-IsDotted s hs)

not_a_word :
    (s : Bytes)
    → All IsDotted s
    → (bytes_eq s (codes "default") ≡ false)
      × (bytes_eq s (codes "all") ≡ false)
      × (bytes_eq s (codes "any") ≡ false)
unfolding bytes_eq
not_a_word [] h = (refl, refl, refl)
not_a_word (c ∷ s) (h, hs) = (ground arith, ground arith, ground arith)

abbrev inet_address : Bytes → InetPrefix
inet_address bs = record {
  flags = 0;
  bytelen = 4;
  bitlen = negsuc 0;
  family = af_inet;
  data_bytes = bs;
}

module _ (inet_pton6 : Bytes → Option Bytes) where
  with_length-BitlenFits :
      (stale : Bool) (dst p : InetPrefix) (mask : Option Bytes)
      → with_length inet_pton6 stale dst mask ≡ some p
      → BitlenFits p
  unfolding with_length
  with_length-BitlenFits stale dst p none e = ground arith
  with_length-BitlenFits stale dst p (some m) e = ground arith

  -- The length of an accepted prefix is never more than its family has bits.
  pub get_prefix_1-BitlenFits :
      (stale : Bool) (arg : Bytes) (family : ℕ) (p : InetPrefix)
      → get_prefix_1 inet_pton6 stale arg family ≡ some p
      → BitlenFits p
  unfolding get_prefix_1
  get_prefix_1-BitlenFits stale arg family p e =
      let (dst, found, rest) =
        >>=-eq-some (get_addr_1 inet_pton6 (split_at b'/' arg).0 family) _ e in
      with_length-BitlenFits stale dst p (split_at b'/' arg).1 rest

  get_addr_text-IsDotted :
      (ll_addr : Bytes → Option (ℕ × Bytes)) (s bs : Bytes) (family : ℕ)
      → All IsDotted s
      → (family ≡ af_unspec) ⊎ (family ≡ af_inet)
      → get_addr_ipv4 s ≡ some bs
      → get_addr_text inet_pton6 ll_addr s family ≡ some (inet_address bs)
  unfolding get_addr_text
  get_addr_text-IsDotted ll_addr s bs family h f e =
      let (d, al, an) = not_a_word s h in ground (arith, has_char-IsDotted s h)

  get_netmask-print_num :
      (stale : Bool) (len : ℕ)
      → len ≤ 32
      → get_netmask inet_pton6 stale (print_num 10 len) 0 ≡ some len
  unfolding get_netmask
  get_netmask-print_num stale len h =
      let (u32, unsigned, u16, u8) = get_u32-spelled stale 0 (print_num 10 len) in
      ground (arith, unsigned, spelled-print_num automatic len (omega arith))

  get_addr_1-separated :
      (n : ℕ) (ns : List ℕ) (family : ℕ)
      → AllWithin 255 (n ∷ ns)
      → length ns < 4
      → (family ≡ af_unspec) ⊎ (family ≡ af_inet)
      → get_addr_1 inet_pton6 (separated 10 b'.' n ns) family
        ≡ some (set_address_type (inet_address (n ∷ ns)))
  unfolding get_addr_1 get_addr_typed
  get_addr_1-separated n ns family h k f = rw (
      get_addr_text-IsDotted _ (separated 10 b'.' n ns) (n ∷ ns) family (separated-IsDotted n ns) f
        (get_addr_ipv4-separated n ns h k))

  -- An IPv4 prefix of one to four bytes and a length of at most 32 is read as those bytes and that
  -- length, where the family is AF_INET or open.
  pub get_prefix_1-prefix_text :
      (stale : Bool) (n : ℕ) (ns : List ℕ) (len family : ℕ)
      → AllWithin 255 (n ∷ ns)
      → length ns < 4
      → len ≤ 32
      → (family ≡ af_unspec) ⊎ (family ≡ af_inet)
      → (p : InetPrefix) × (get_prefix_1 inet_pton6 stale (prefix_text n ns len) family ≡ some p)
        × (p.family ≡ af_inet)
        × (p.data_bytes ≡ n ∷ ns)
        × (p.bytelen ≡ 4)
        × (p.bitlen ≡ pos len)
  unfolding get_prefix_1 with_length set_address_type af_bit_len
  get_prefix_1-prefix_text stale n ns len family h k l f = (
    record (set_address_type (inet_address (n ∷ ns))) {
      flags = bit_or (set_address_type (inet_address (n ∷ ns))).flags prefixlen_specified;
      bitlen = pos len;
    },
    rw
        (
          split_at-IsDotted (separated 10 b'.' n ns) (print_num 10 len) (separated-IsDotted n ns),
          get_addr_1-separated n ns family h k f,
          get_netmask-print_num stale len l,
        )
        (ground arith),
    refl,
    refl,
    refl,
    refl,
  )

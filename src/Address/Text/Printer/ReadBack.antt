-- ===== src/Address/Text/Printer/ReadBack.antt =====
-- `get_addr_1` of lib/utils.c on the texts of `rt_addr_n2a_r`.
use libiproute.Prelude.{
  ℕ, suc, ◌+◌, ◌-◌, ◌*◌, ◌/◌, ◌%◌, ◌^◌, ◌≤◌, ◌<◌, ◌≡◌, map, length-map, refl, ap, ◌∙◌, arith, false,
  Option, some, List, [], ◌∷◌, Bytes, take, take-whole, length, All,
}
use libiproute.Prelude.Int.{ℤ, pos, negsuc}
use libiproute.Mpls.{af_mpls, done, mpls_ntop, mpls_pton}
use libiproute.Mpls.Marked.{label_of, Marked, bare, Marked-Labels, Marked-lt, mpls_ntop-Marked}
use libiproute.Mpls.Laws.{stack_text, stack_text-All, mpls_pton-stack_text}
use libiproute.Dnet.{af_decnet, dnet_ntop, dnet_pton}
use libiproute.Dnet.Print.{dnet_text, dnet_text-All, dnet_ntop-number}
use libiproute.Dnet.Laws.{dnet_pton-dnet_text}
use libiproute.Address.{InetPrefix, af_packet, set_address_type}
use libiproute.Address.Text.{
  ll_addr_a2n, has_char, label_len, label_bytes, get_addr_1, get_addr_typed, get_addr_text,
}
use libiproute.Address.Text.Printer.{
  shown, byte_text, arphrd_void, hex_bytes, ll_addr_n2a, rt_addr_n2a_r, dn_number, from_mpls,
  from_dnet,
}
use libiproute.Address.Text.Printer.Laws.{
  colon_text, colon_text-All, colon_bytes-colon_rest, ll_addr_loop-colon_text, AllBytes, AddrChar,
  AddrChar-not_words, Lacks, has_char-Lacks, words-label_bytes,
}

module _ (inet_ntop : ℕ → Bytes → ℕ → Option Bytes) (inet_pton6 : Bytes → Option Bytes) where
  pub ll_addr_n2a-colon_text :
      (b : ℕ) (bs : Bytes) (blen : ℕ)
      → 3 * length (b ∷ bs) ≤ blen
      → ll_addr_n2a inet_ntop (b ∷ bs) (length (b ∷ bs)) arphrd_void blen ≡ shown (colon_text b bs)
  unfolding ll_addr_n2a
  ll_addr_n2a-colon_text b bs blen room =
      let first : take (blen - 1) (byte_text b) ≡ byte_text b =
        take-whole (blen - 1) (byte_text b) (omega arith) in
      let rest : take (suc (length bs) - 1) bs ≡ bs =
        take-whole (suc (length bs) - 1) bs (omega arith) in
      let all : hex_bytes blen (length (b ∷ bs)) (b ∷ bs) ≡ shown (colon_text b bs) =
        rw (first, rest, colon_bytes-colon_rest (blen - 2) bs (omega arith)) refl in
      ground (arith, all)

  pub ll_addr_a2n-colon_text :
      (len b : ℕ) (bs : Bytes)
      → AllBytes (b ∷ bs)
      → length bs < len
      → ll_addr_a2n inet_pton6 len (colon_text b bs) ≡ some (length (b ∷ bs), b ∷ bs)
  unfolding ll_addr_a2n
  ll_addr_a2n-colon_text len b bs h room =
      let no_dot = has_char-Lacks b'.' (colon_text b bs) (
        colon_text-All (Lacks b'.') (λ d k. unfold Lacks in ground arith)
          (unfold Lacks in ground arith) b bs h) in
      rw no_dot (ll_addr_loop-colon_text len b bs h room)

  -- The address of a family with these bytes, of which `get_addr_1` counts `n` with `bits` bits.
  abbrev read_as : ℕ → ℕ → ℤ → Bytes → InetPrefix
  read_as af n bits bs = record {
    flags = 0;
    bytelen = n;
    bitlen = bits;
    family = af;
    data_bytes = bs;
  }

  abbrev pub dn_bytes : ℕ → Bytes
  dn_bytes n = (n % 256) ∷ (n / 256 % 256) ∷ []

  module _ (s : Bytes) (chars : All AddrChar s) where
    text-link :
        (n : ℕ) (bs : Bytes)
        → ll_addr_a2n inet_pton6 256 s ≡ some (n, bs)
        → get_addr_text inet_pton6 (ll_addr_a2n inet_pton6 256) s af_packet
          ≡ some (read_as af_packet n (pos (n * 8)) bs)
    unfolding get_addr_text
    text-link n bs read = let (d, l, y) = AddrChar-not_words s chars in rw (d, l, y, read) refl

    text-dnet :
        (n : ℕ)
        → has_char b':' s ≡ false
        → dnet_pton af_decnet s ≡ done n
        → get_addr_text inet_pton6 (ll_addr_a2n inet_pton6 256) s af_decnet
          ≡ some (read_as af_decnet 2 (negsuc 0) (dn_bytes n))
    unfolding get_addr_text
    text-dnet n no_colon read =
        let (d, l, y) = AddrChar-not_words s chars in rw (d, l, y, no_colon, read) refl

    text-mpls :
        (es : List ℕ)
        → has_char b':' s ≡ false
        → mpls_pton af_mpls s 256 ≡ done es
        → get_addr_text inet_pton6 (ll_addr_a2n inet_pton6 256) s af_mpls
          ≡ some (read_as af_mpls (label_len 64 0 (label_bytes es)) (pos 20) (label_bytes es))
    unfolding get_addr_text
    text-mpls es no_colon read =
        let (d, l, y) = AddrChar-not_words s chars in rw (d, l, y, no_colon, read) refl

  -- What is read of a text of an address: the family and the bytes.
  pub Reads : ℕ → Bytes → Bytes → Type 0
  Reads af s bs =
      (a : InetPrefix) × (get_addr_1 inet_pton6 s af ≡ some a)
      × (a.family ≡ af)
      × (a.data_bytes ≡ bs)

  typed :
      (s : Bytes) (af n : ℕ) (bits : ℤ) (bs : Bytes)
      → get_addr_text inet_pton6 (ll_addr_a2n inet_pton6 256) s af ≡ some (read_as af n bits bs)
      → Reads af s bs
  unfolding Reads get_addr_1 get_addr_typed set_address_type
  typed s af n bits bs e = (set_address_type (read_as af n bits bs), rw e refl, refl, refl)

  -- The addresses that are shown whole in a buffer of `buflen`, by their bytes and those that are read:
  -- up to 256 bytes of a link layer, a DECnet address, and a label stack of up to 64 entries.
  pub data Printable (buflen : ℕ) : ℕ → Bytes → Bytes → Type 0 where
    link :
        (b : ℕ) (bs : Bytes)
        → AllBytes (b ∷ bs)
        → length (b ∷ bs) ≤ 256
        → 3 * length (b ∷ bs) ≤ buflen
        → Printable buflen af_packet (b ∷ bs) (b ∷ bs)
    dnet :
        (area node : ℕ)
        → area < 64
        → node < 1024
        → 8 ≤ buflen
        → Printable buflen af_decnet
            (dn_bytes (area * 2 ^ 10 + node))
            (dn_bytes (area * 2 ^ 10 + node))
    mpls :
        (e : ℕ) (es : List ℕ)
        → Marked e es
        → length (e ∷ es) ≤ 64
        → length (stack_text (label_of e) (map label_of es)) < buflen
        → Printable buflen af_mpls (label_bytes (e ∷ es)) (label_bytes (bare e es))

  -- An address of the link layer of 1 to 256 bytes with three bytes of the buffer for each, a DECnet
  -- address with 8 bytes, or an MPLS stack of 1 to 64 entries, of which the last alone has the
  -- bottom-of-stack bit, with room for its text and a NUL: rt_addr_n2a_r shows it as a text that
  -- get_addr_1 reads, under the same family, as the same bytes, but for the traffic class and the TTL
  -- of the MPLS entries, which are read as 0.
  pub get_addr_1-rt_addr_n2a_r :
      (buflen af : ℕ) (addr read : Bytes)
      → Printable buflen af addr read
      → (s : Bytes) × (rt_addr_n2a_r inet_ntop af (length addr) addr buflen ≡ shown s)
        × Reads af s read
  unfolding rt_addr_n2a_r
  get_addr_1-rt_addr_n2a_r buflen _ _ _ (link b bs h fits room) = (
    colon_text b bs,
    ll_addr_n2a-colon_text b bs buflen room,
    typed (colon_text b bs) af_packet (length (b ∷ bs)) (pos (length (b ∷ bs) * 8)) (b ∷ bs) (
        text-link (colon_text b bs)
          (colon_text-All AddrChar (λ d k. ground arith) (omega arith) b bs h) (length (b ∷ bs))
          (b ∷ bs) (ll_addr_a2n-colon_text 256 b bs h (omega arith))),
  )
  get_addr_1-rt_addr_n2a_r buflen _ _ _ (dnet area node h k room) =
      let n = area * 2 ^ 10 + node in
      let number : dn_number (dn_bytes n) ≡ n = omega arith in
      let chars = dnet_text-All AddrChar (λ d i. omega arith) area node (omega arith) h k in
      let no_colon = has_char-Lacks b':' (dnet_text area node) (
        dnet_text-All (Lacks b':') (λ d i. unfold Lacks in ground arith) area node
          (unfold Lacks in ground arith) h k) in
      (
        dnet_text area node,
        ap (λ (m : ℕ). from_dnet (dnet_ntop af_decnet m buflen)) number
            ∙ ap from_dnet (dnet_ntop-number buflen area node h k room),
        typed (dnet_text area node) af_decnet 2 (negsuc 0) (dn_bytes n)
            (text-dnet (dnet_text area node) chars n no_colon (dnet_pton-dnet_text area node h k)),
      )
  get_addr_1-rt_addr_n2a_r buflen _ _ _ (mpls e es marked fits room) =
      let l = label_of e in
      let ls = map label_of es in
      let (h, k) = Marked-Labels e es marked in
      let chars = stack_text-All AddrChar (λ d i. ground arith) (omega arith) l ls in
      let no_colon = has_char-Lacks b':' (stack_text l ls) (
        stack_text-All (Lacks b':') (λ d i. unfold Lacks in ground arith)
          (unfold Lacks in ground arith) l ls) in
      (
        stack_text l ls,
        ap (λ (m : List ℕ). from_mpls (mpls_ntop af_mpls m buflen))
              (words-label_bytes (e ∷ es) (Marked-lt e es marked))
            ∙ ap from_mpls (mpls_ntop-Marked e es buflen marked room),
        typed (stack_text l ls) af_mpls (label_len 64 0 (label_bytes (bare e es))) (pos 20)
            (label_bytes (bare e es))
            (text-mpls (stack_text l ls) chars (bare e es) no_colon
              (mpls_pton-stack_text l ls 256 h k (omega (arith, length-map es label_of, fits)))),
      )

-- ===== src/Ipx/Laws.antt =====
-- The texts of `ipx_ntop` of lib/ipx_ntop.c, and `ipx_pton` of lib/ipx_pton.c on them.
use libiproute.Prelude.{
  ℕ, zero, suc, ◌+◌, ◌*◌, ◌/◌, ◌%◌, ◌^◌, ◌≤◌, ◌<◌, ◌≡◌, refl, sym, ap, ◌∙◌, arith, false, none,
  some, [], ◌∷◌, ◌++◌, append_assoc, append-nil, ◌==◌, Bytes, length, length-append,
}
use libiproute.Hex.{get_hex}
use libiproute.Mpls.{invalid}
use libiproute.Ipx.{
  af_ipx, IpxAddr, ipx_getnet, ipx_pton1, ipx_pton, digit_text, Printed, open_text, put_char,
  do_digit, net_digits, node_digits, ended, ipx_ntop1, ipx_ntop,
}

abbrev pub net_text : ℕ → ℕ → Bytes
net_text net zero = []
net_text net (suc i) = digit_text (net / 16 ^ i % 16) ∷ net_text net i

abbrev pub node_text : Bytes → Bytes
node_text [] = []
node_text (b ∷ node) = digit_text (b / 16 ^ 1 % 16) ∷ digit_text (b / 16 ^ 0 % 16) ∷ node_text node

put_char_room :
    (len c : ℕ) (str : Bytes)
    → length str < len
    → put_char len c (open_text str) ≡ open_text (str ++ c ∷ [])
put_char_room len c str h = ground arith

net_digits-net_text :
    (len net i : ℕ) (str : Bytes)
    → length str + i ≤ len
    → net_digits len net i (open_text str) ≡ open_text (str ++ net_text net i)
unfolding net_digits
net_digits-net_text len net zero str h = ap open_text (sym (append-nil str))
net_digits-net_text len net (suc i) str h =
    let c = digit_text (net / 16 ^ i % 16) in
    ap (net_digits len net i) (put_char_room len c str (omega arith))
    ∙ net_digits-net_text len net i (str ++ c ∷ []) (omega (arith, length-append str (c ∷ [])))
    ∙ ap open_text (append_assoc str (c ∷ []) (net_text net i))

node_digits-node_text :
    (len : ℕ) (node str : Bytes)
    → length str + 2 * length node ≤ len
    → node_digits len node (open_text str) ≡ open_text (str ++ node_text node)
unfolding node_digits
node_digits-node_text len [] str h = ap open_text (sym (append-nil str))
node_digits-node_text len (b ∷ node) str h =
    let c = digit_text (b / 16 ^ 1 % 16) in
    let d = digit_text (b / 16 ^ 0 % 16) in
    let one = length-append str (c ∷ []) in
    let two = length-append (str ++ c ∷ []) (d ∷ []) in
    ap (λ (x : Printed). node_digits len node (do_digit len b 0 x))
      (put_char_room len c str (omega arith))
    ∙ ap (node_digits len node) (put_char_room len d (str ++ c ∷ []) (omega (arith, one)))
    ∙ node_digits-node_text len node (str ++ c ∷ [] ++ d ∷ []) (omega (arith, one, two))
    ∙ ap open_text (
        append_assoc (str ++ c ∷ []) (d ∷ []) (node_text node)
        ∙ append_assoc str (c ∷ []) (d ∷ node_text node))

length-node_text : (node : Bytes) → length (node_text node) ≡ 2 * length node
length-node_text [] = refl
length-node_text (b ∷ node) = omega (arith, length-node_text node)

ipx_ntop1-text :
    (len : ℕ) (addr : IpxAddr)
    → length addr.ipx_node ≡ 6
    → 22 ≤ len
    → ipx_ntop1 len addr ≡ open_text (net_text addr.ipx_net 8 ++ b'.' ∷ node_text addr.ipx_node)
unfolding ipx_ntop1
ipx_ntop1-text len addr six room =
    let net = net_text addr.ipx_net 8 in
    let node = addr.ipx_node in
    let whole = net ++ b'.' ∷ node_text node in
    let fits : (length whole == len) ≡ false = ground (arith, length-node_text node) in
    ap (λ (x : Printed). ended len (node_digits len node (put_char len b'.' x)))
      (net_digits-net_text len addr.ipx_net 8 [] (omega arith))
    ∙ ap (λ (x : Printed). ended len (node_digits len node x))
        (put_char_room len b'.' net (omega arith))
    ∙ ap (ended len) (node_digits-node_text len node (net ++ b'.' ∷ []) (omega arith))
    ∙ rw fits refl

get_hex-digit_text : (d : ℕ) → d < 16 → get_hex (digit_text d) ≡ some d
unfolding get_hex
get_hex-digit_text d h = ground arith

-- After as many digits as there are rounds, any other character is refused.
ipx_getnet_full :
    (rounds net acc c : ℕ) (str : Bytes)
    → ipx_getnet rounds acc (net_text net rounds ++ c ∷ str) ≡ none
unfolding ipx_getnet
ipx_getnet_full zero net acc c str = refl
ipx_getnet_full (suc i) net acc c str =
    let d = net / 16 ^ i % 16 in
    rw (get_hex-digit_text d (omega arith)) (ipx_getnet_full i net (acc * 16 % 2 ^ 32 + d) c str)

-- Every address with a node of six bytes is printed by ipx_ntop, in a buffer of 22 bytes or more, as
-- eight digits, a dot and twelve digits; and ipx_pton refuses this text, as the dot stands behind
-- the eighth digit.
pub ipx_pton-ipx_ntop :
    (len : ℕ) (addr : IpxAddr)
    → length addr.ipx_node ≡ 6
    → 22 ≤ len
    → (ipx_ntop af_ipx addr len
        ≡ some (open_text (net_text addr.ipx_net 8 ++ b'.' ∷ node_text addr.ipx_node)))
      × (ipx_pton af_ipx (net_text addr.ipx_net 8 ++ b'.' ∷ node_text addr.ipx_node) ≡ invalid)
unfolding ipx_ntop ipx_pton ipx_pton1
ipx_pton-ipx_ntop len addr six room = (
  ap some (ipx_ntop1-text len addr six room),
  rw (ipx_getnet_full 8 addr.ipx_net 0 b'.' (node_text addr.ipx_node)) refl,
)

-- ===== src/Dnet/Laws.antt =====
-- How lib/dnet_pton.c reads the texts of lib/dnet_ntop.c.
use libiproute.Prelude.{
  ℕ, drop-length-append, ◌+◌, ◌*◌, ◌^◌, ◌≤◌, ◌<◌, ◌≡◌, refl, arith, false, some, [], ◌∷◌, ◌++◌,
  drop, length, ◌==◌, Bytes,
}
use libiproute.Prelude.Bits.{bit_or_fields}
use native.Mathlib.Nat.{suc-add}
use libiproute.Mpls.{done}
use libiproute.Dnet.{af_decnet, num_loop, dnet_num, dnet_pton1, dnet_pton, terminated, dnet_ntop}
use libiproute.Dnet.Print.{decimals, area_text, node_text, dnet_text, dnet_ntop-number}

pos_area : (area : ℕ) → (length (area_text area) == 0) ≡ false
unfolding decimals
pos_area area = ground arith

pub pos_node : (node : ℕ) → (length (node_text node) == 0) ≡ false
unfolding decimals
pos_node node = ground arith

num_loop-area :
    (area : ℕ) (rest : Bytes)
    → area < 64
    → dnet_num (area_text area ++ b'.' ∷ rest) ≡ (length (area_text area), area)
unfolding dnet_num num_loop decimals
num_loop-area area rest h = ground arith

pub num_loop-node :
    (node : ℕ) → node < 1024 → dnet_num (node_text node) ≡ (length (node_text node), node)
unfolding dnet_num num_loop decimals
num_loop-node node h = ground arith

pub drop_past_dot : (s t : Bytes) → drop (length s + 1) (s ++ b'.' ∷ t) ≡ t
drop_past_dot [] t = refl
drop_past_dot (c ∷ s) t = rw suc-add (drop_past_dot s t)

dnet_pton1-text :
    (area node : ℕ)
    → area < 64
    → node < 1024
    → dnet_pton1 (dnet_text area node) ≡ some (area * 2 ^ 10 + node)
unfolding dnet_pton1
dnet_pton1-text area node h k =
    rw
      (
        num_loop-area area (node_text node) h,
        drop-length-append (area_text area) (b'.' ∷ node_text node),
        drop_past_dot (area_text area) (node_text node),
        num_loop-node node k,
      )
      (ground (arith, bit_or_fields 10 area node k, pos_area area, pos_node node))

pub dnet_pton-dnet_text :
    (area node : ℕ)
    → area < 64
    → node < 1024
    → dnet_pton af_decnet (dnet_text area node) ≡ done (area * 2 ^ 10 + node)
unfolding dnet_pton
dnet_pton-dnet_text area node h k = rw (dnet_pton1-text area node h k)

-- Every DECnet address is printed whole in a buffer of 8 bytes or more, and `dnet_pton` reads it
-- back.
pub dnet_pton-dnet_ntop :
    (len area node : ℕ)
    → area < 64
    → node < 1024
    → 8 ≤ len
    → (s : Bytes) × (dnet_ntop af_decnet (area * 2 ^ 10 + node) len ≡ some (terminated s))
      × (dnet_pton af_decnet s ≡ done (area * 2 ^ 10 + node))
dnet_pton-dnet_ntop len area node h k l =
    (dnet_text area node, dnet_ntop-number len area node h k l, dnet_pton-dnet_text area node h k)

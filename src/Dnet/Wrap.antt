-- ===== src/Dnet/Wrap.antt =====
-- The sixteen bits of `dnet_num` of lib/dnet_pton.c.
use libiproute.Prelude.{
  ℕ, drop-length-append, zero, suc, ◌+◌, ◌-◌, ◌*◌, ◌/◌, ◌%◌, ◌^◌, ◌<◌, ◌≡◌, arith, ap, sym, refl,
  ◌∙◌, inl, inr, Bool-cases, ◌∷◌, ◌++◌, length, length-append, ◌==◌, ==→eq, Bytes,
}
use mathlib.Core.Path.{ap₂}
use libiproute.Prelude.Bits.{bit_or_fields}
use libiproute.CLib.{digit_char, print_loop, print_before, print_num}
use libiproute.CLib.Print.{
  div_shrinks, print_loop_last, print_loop_more, length-print_loop, print_num-append, pos_print_num,
}
use libiproute.Mpls.{done}
use libiproute.Dnet.{af_decnet, num_loop, dnet_num, dnet_pton1, dnet_pton}
use libiproute.Dnet.Print.{node_text}
use libiproute.Dnet.Laws.{num_loop-node, pos_node, drop_past_dot}

num_digit :
    (d rv dst : ℕ) (out : Bytes)
    → d < 10
    → num_loop (digit_char d ∷ out) rv dst ≡ num_loop out (rv + 1) ((dst * 10 + d) % 2 ^ 16)
unfolding num_loop
num_digit d rv dst out h = ground (arith, wrapped_once)
  where
    wrapped_once : (dst * 10 % 2 ^ 16 + d) % 2 ^ 16 ≡ (dst * 10 + d) % 2 ^ 16
    wrapped_once = omega arith

num_loop-print_loop :
    (fuel n rv : ℕ) (out : Bytes)
    → n < fuel
    → num_loop (print_loop fuel 10 n out) rv 0
      ≡ num_loop out (rv + (length (print_loop fuel 10 n out) - length out)) (n % 2 ^ 16)
num_loop-print_loop zero n rv out h = absurd (omega arith)
num_loop-print_loop (suc fuel) n rv out h = elim (Bool-cases (n / 10 == 0)) [
  | inl e ↦
      rw (print_loop_last fuel 10 n out e, num_digit (n % 10) rv 0 out (omega arith))
        (ap₂ (num_loop out) (omega arith) (omega (arith, ==→eq _ _ e)))
  | inr e ↦ rw (print_loop_more fuel 10 n out e) (
      num_loop-print_loop fuel (n / 10) rv (digit_char (n % 10) ∷ out)
        (omega (arith, div_shrinks 10 n (omega arith) e))
      ∙ num_digit (n % 10) _ (n / 10 % 2 ^ 16) out (omega arith)
      ∙ ap₂ (num_loop out)
          (omega (arith, length-print_loop fuel 10 (n / 10) (digit_char (n % 10) ∷ out)))
          (omega arith))
]

num_dot : (rest : Bytes) (rv dst : ℕ) → num_loop (b'.' ∷ rest) rv dst ≡ (rv, dst)
unfolding num_loop
num_dot rest rv dst = refl

-- The digits that are printed, and the number modulo 2^16.
dnet_num-print_num :
    (n : ℕ) (rest : Bytes)
    → dnet_num (print_num 10 n ++ b'.' ∷ rest) ≡ (length (print_num 10 n), n % 2 ^ 16)
unfolding dnet_num print_before
dnet_num-print_num n rest =
    let whole : length (print_before 10 n (b'.' ∷ rest))
        ≡ length (print_num 10 n) + length (b'.' ∷ rest) =
      ap (λ (s : Bytes). length s) (sym (print_num-append 10 n (b'.' ∷ rest)))
      ∙ length-append (print_num 10 n) (b'.' ∷ rest) in
    rw (print_num-append 10 n (b'.' ∷ rest)) (
      num_loop-print_loop (suc n) n 0 (b'.' ∷ rest) (omega arith)
      ∙ num_dot rest _ _
      ∙ ap₂ (λ (a b : ℕ). (a, b)) (omega (arith, whole)) refl)

-- An area number of `k * 2^16` more than an area below 64 is read as that area, so that numbers
-- beyond 63 are not all refused.
pub dnet_pton_wraps :
    (k area node : ℕ)
    → area < 64
    → node < 1024
    → dnet_pton af_decnet (print_num 10 (k * 2 ^ 16 + area) ++ b'.' ∷ node_text node)
      ≡ done (area * 2 ^ 10 + node)
unfolding dnet_pton dnet_pton1
dnet_pton_wraps k area node h l =
    rw
      (
        dnet_num-print_num (k * 2 ^ 16 + area) (node_text node),
        drop-length-append (print_num 10 (k * 2 ^ 16 + area)) (b'.' ∷ node_text node),
        drop_past_dot (print_num 10 (k * 2 ^ 16 + area)) (node_text node),
        num_loop-node node l,
      )
      (ground
        (arith, bit_or_fields 10 area node l, pos_print_num 10 (k * 2 ^ 16 + area), pos_node node))

-- ===== src/Prelude/Bits.antt =====
-- The laws of `bit_and`, `bit_or` and `bit_xor` at variables, from their recursion on the digits.
use Prim.Native.Nat.{
  max, differ, bit_and, bit_or, bit_xor, digits, bit_and-bitwise, bit_or-bitwise, bit_xor-bitwise,
}
use native.Mathlib.Nat.{
  pow-suc, suc-add, zero-add, mod-eq_of_lt, div-add-mod, pow-succ', div-one, one-le-pow,
  div-div-eq-div-mul,
}
use mathlib.Core.WellFounded
use libiproute.Prelude.{
  ℕ, zero, suc, ◌+◌, ◌-◌, ◌*◌, ◌/◌, ◌%◌, ◌^◌, ◌≤◌, ◌<◌, min, ◌≡◌, refl, sym, arith, ap, ◌∙◌,
}
use libiproute.Prelude.Order.{lt_wf}

-- A round beyond those that the first number needs changes nothing, and so does any number of them.
module _ (rest : ℕ → ℕ) (op : ℕ → ℕ → ℕ) where
  one_round_more :
      (x y rounds : ℕ) → x ≤ rounds → digits rest op (suc rounds) x y ≡ digits rest op rounds x y
  one_round_more zero y zero h = refl
  one_round_more zero y (suc rounds) h = refl
  one_round_more (suc x) y zero h = absurd (omega arith)
  one_round_more (suc x) y (suc rounds) h =
      omega (arith, one_round_more (suc x / 2) (y / 2) rounds (omega arith))

  rounds_to_spare : (x y extra : ℕ) → digits rest op (extra + x) x y ≡ digits rest op x x y
  rounds_to_spare x y zero = ap (λ (r : ℕ). digits rest op r x y) (zero-add x)
  rounds_to_spare x y (suc extra) =
      ap (λ (r : ℕ). digits rest op r x y) (suc-add extra x)
      ∙ one_round_more x y (extra + x) (omega arith)
      ∙ rounds_to_spare x y extra

  -- The rounds that are left behind the first digit of `suc x`.
  half_rounds :
      (x y : ℕ) → digits rest op x (suc x / 2) y ≡ digits rest op (suc x / 2) (suc x / 2) y
  half_rounds x y =
      let spare : x - suc x / 2 + suc x / 2 ≡ x = omega arith in
      ap (λ (r : ℕ). digits rest op r (suc x / 2) y) (sym spare)
      ∙ rounds_to_spare (suc x / 2) y (x - suc x / 2)

-- The lowest digit and the others.
bit_xor-differ : (x y : ℕ) → bit_xor x y ≡ bit_xor (x / 2) (y / 2) * 2 + differ (x % 2) (y % 2)
bit_xor-differ zero y = omega (arith, bit_xor-bitwise 0 (y / 2), bit_xor-bitwise 0 y)
bit_xor-differ (suc x) y = omega (
  arith,
  half_rounds (λ y. y) differ x (y / 2),
  bit_xor-bitwise (suc x / 2) (y / 2),
  bit_xor-bitwise (suc x) y,
)

pub bit_or_step : (x y : ℕ) → bit_or x y ≡ bit_or (x / 2) (y / 2) * 2 + max (x % 2) (y % 2)
bit_or_step zero y = omega (arith, bit_or-bitwise 0 (y / 2), bit_or-bitwise 0 y)
bit_or_step (suc x) y = omega (
  arith,
  half_rounds (λ y. y) max x (y / 2),
  bit_or-bitwise (suc x / 2) (y / 2),
  bit_or-bitwise (suc x) y,
)

pub bit_and_step : (x y : ℕ) → bit_and x y ≡ bit_and (x / 2) (y / 2) * 2 + min (x % 2) (y % 2)
bit_and_step zero y = omega (arith, bit_and-bitwise 0 (y / 2), bit_and-bitwise 0 y)
bit_and_step (suc x) y = omega (
  arith,
  half_rounds (λ y. zero) min x (y / 2),
  bit_and-bitwise (suc x / 2) (y / 2),
  bit_and-bitwise (suc x) y,
)

differ_bits : (x y : ℕ) → x < 2 → y < 2 → differ x y ≡ (x + y) % 2
differ_bits zero y h k = omega arith
differ_bits (suc zero) zero h k = refl
differ_bits (suc zero) (suc zero) h k = refl
differ_bits (suc zero) (suc (suc y)) h k = absurd (omega arith)
differ_bits (suc (suc x)) y h k = absurd (omega arith)

pub bit_xor_step : (a b : ℕ) → bit_xor a b ≡ bit_xor (a / 2) (b / 2) * 2 + (a % 2 + b % 2) % 2
bit_xor_step a b =
    omega (arith, bit_xor-differ a b, differ_bits (a % 2) (b % 2) (omega arith) (omega arith))

-- What holds of 0, and of a number where it holds of the half, holds of all.
by_halves : (P : ℕ → Type 0) → P 0 → ((n : ℕ) → P (suc n / 2) → P (suc n)) → (n : ℕ) → P n
by_halves P base double n = WellFounded.induction lt_wf {C = P} n both
  where
    both : (n : ℕ) → ((m : ℕ) → m < n → P m) → P n
    both zero below = base
    both (suc n) below = double n (below (suc n / 2) (omega arith))

pub bit_and_self : (x : ℕ) → bit_and x x ≡ x
bit_and_self =
    by_halves (λ x. bit_and x x ≡ x) refl
      (λ n half. omega (arith, half, bit_and_step (suc n) (suc n)))

pub bit_xor_self : (x : ℕ) → bit_xor x x ≡ 0
bit_xor_self =
    by_halves (λ x. bit_xor x x ≡ 0) refl
      (λ n half. omega (arith, half, bit_xor_step (suc n) (suc n)))

pub bit_and-zero : (x : ℕ) → bit_and x 0 ≡ 0
bit_and-zero =
    by_halves (λ x. bit_and x 0 ≡ 0) refl (λ n half. omega (arith, half, bit_and_step (suc n) 0))

pub bit_or-zero : (x : ℕ) → bit_or x 0 ≡ x
bit_or-zero =
    by_halves (λ x. bit_or x 0 ≡ x) refl (λ n half. omega (arith, half, bit_or_step (suc n) 0))

pub bit_xor-eq-zero : (n a b : ℕ) → a < 2 ^ n → b < 2 ^ n → bit_xor a b ≡ 0 → a ≡ b
bit_xor-eq-zero zero a b h k e = omega arith
bit_xor-eq-zero (suc n) a b h k e =
    let half =
      bit_xor-eq-zero n (a / 2) (b / 2) (omega (arith, pow-suc 2 n)) (omega (arith, pow-suc 2 n))
        (omega (arith, bit_xor_step a b)) in
    omega (arith, bit_xor_step a b)

pub bit_xor-lt : (n a b : ℕ) → a < 2 ^ n → b < 2 ^ n → bit_xor a b < 2 ^ n
bit_xor-lt zero a b h k =
    let x : a ≡ 0 = omega arith in let y : b ≡ 0 = omega arith in rw (x, y) (omega arith)
bit_xor-lt (suc n) a b h k =
    let half =
      bit_xor-lt n (a / 2) (b / 2) (omega (arith, pow-suc 2 n)) (omega (arith, pow-suc 2 n)) in
    omega (arith, pow-suc 2 n, bit_xor_step a b)

pub pow-ne-zero : (k : ℕ) → 0 < 2 ^ k
pow-ne-zero k = one-le-pow k 2 (omega arith)

pub div-two-pow : (a k : ℕ) → a / 2 / 2 ^ k ≡ a / 2 ^ suc k
div-two-pow a k = rw (div-div-eq-div-mul a 2 (2 ^ k), pow-succ' 2 k)

-- A shift to the right goes through the exclusive or.
pub bit_xor-div : (k a b : ℕ) → bit_xor a b / 2 ^ k ≡ bit_xor (a / 2 ^ k) (b / 2 ^ k)
bit_xor-div zero a b = simp div-one
bit_xor-div (suc k) a b =
    rw (← div-two-pow a k, ← div-two-pow b k, ← div-two-pow (bit_xor a b) k)
      (ap (λ (t : ℕ). t / 2 ^ k) (omega (arith, bit_xor_step a b)) ∙ bit_xor-div k (a / 2) (b / 2))

pub mod-two-pow : (a k : ℕ) → a % 2 ^ suc k ≡ a / 2 % 2 ^ k * 2 + a % 2
mod-two-pow a k = omega (
  arith,
  div-add-mod a (2 ^ suc k),
  div-add-mod (a / 2) (2 ^ k),
  ap (λ (t : ℕ). 2 ^ suc k * t) (div-two-pow a k),
  ap (λ (t : ℕ). t * (a / 2 / 2 ^ k)) (pow-suc 2 k),
)

pub bit_and-low_mask : (k a : ℕ) → bit_and a (2 ^ k - 1) ≡ a % 2 ^ k
bit_and-low_mask zero a = rw bit_and-zero (omega arith)
bit_and-low_mask (suc k) a = omega (
  arith,
  mod-two-pow a k,
  pow-suc 2 k,
  pow-ne-zero k,
  bit_and_step a (2 ^ suc k - 1),
  ap (bit_and (a / 2)) half_mask,
  bit_and-low_mask k (a / 2),
)
  where
    half_mask : (2 ^ suc k - 1) / 2 ≡ 2 ^ k - 1
    half_mask = omega (arith, pow-suc 2 k, pow-ne-zero k)

-- A mask of the bits from `k` on.
pub bit_and-high_mask :
    (k j a : ℕ) → a < 2 ^ (k + j) → bit_and a (2 ^ (k + j) - 2 ^ k) ≡ a / 2 ^ k * 2 ^ k
bit_and-high_mask zero j a h =
    rw (zero-add, div-one) (bit_and-low_mask j a ∙ mod-eq_of_lt (rw zero-add at h) ∙ omega arith)
bit_and-high_mask (suc k) j a h = omega (
  arith,
  bit_and_step a (2 ^ (suc k + j) - 2 ^ suc k),
  ap (bit_and (a / 2)) half_mask,
  bit_and-high_mask k j (a / 2) (omega (arith, doubled)),
  ap (λ (t : ℕ). t * 2 ^ suc k) (div-two-pow a k),
  ap (λ (t : ℕ). a / 2 / 2 ^ k * t) (pow-suc 2 k),
  pow-suc 2 k,
  doubled,
)
  where
    doubled : 2 ^ (suc k + j) ≡ 2 ^ (k + j) * 2
    doubled = rw suc-add (pow-suc 2 (k + j))

    half_mask : (2 ^ (suc k + j) - 2 ^ suc k) / 2 ≡ 2 ^ (k + j) - 2 ^ k
    half_mask = omega (arith, pow-suc 2 k, doubled)

pub pow-add : (k j : ℕ) → 2 ^ (k + j) ≡ 2 ^ k * 2 ^ j
pow-add k zero = let same : k + 0 ≡ k = omega arith in rw same (omega arith)
pow-add k (suc j) =
    let same : k + suc j ≡ suc (k + j) = omega arith in
    rw same (omega (arith, pow-suc 2 (k + j), pow-add k j, ap (λ (t : ℕ). 2 ^ k * t) (pow-suc 2 j)))

-- The or of disjoint fields is their sum.
pub bit_or_fields : (k q r : ℕ) → r < 2 ^ k → bit_or (q * 2 ^ k) r ≡ q * 2 ^ k + r
bit_or_fields zero q r h = let e : r ≡ 0 = omega arith in rw e (bit_or-zero (q * 1) ∙ omega arith)
bit_or_fields (suc k) q r h = omega (
  arith,
  bit_or_step (q * 2 ^ suc k) r,
  ap (λ (t : ℕ). q * t) (pow-suc 2 k),
  ap (λ (t : ℕ). bit_or t (r / 2)) half,
  bit_or_fields k q (r / 2) (omega (arith, pow-suc 2 k)),
)
  where
    half : q * 2 ^ suc k / 2 ≡ q * 2 ^ k
    half = omega (arith, ap (λ (t : ℕ). q * t) (pow-suc 2 k))

-- A test of one bit.
pub bit_and-two_pow : (k a : ℕ) → bit_and a (2 ^ k) ≡ a / 2 ^ k % 2 * 2 ^ k
bit_and-two_pow zero a = rw div-one (bit_and-low_mask 1 a ∙ omega arith)
bit_and-two_pow (suc k) a = omega (
  arith,
  bit_and_step a (2 ^ suc k),
  ap (bit_and (a / 2)) half,
  bit_and-two_pow k (a / 2),
  ap (λ (t : ℕ). t % 2 * 2 ^ suc k) (div-two-pow a k),
  ap (λ (t : ℕ). a / 2 / 2 ^ k % 2 * t) (pow-suc 2 k),
  pow-suc 2 k,
)
  where
    half : 2 ^ suc k / 2 ≡ 2 ^ k
    half = omega (arith, pow-suc 2 k)

-- ===== src/Prelude/Masks.antt =====
-- Words that agree with a key in the bits of its mask: two keys make one key, if they do not
-- contradict one another.
use Prim.Native.Nat.{bit_and, bit_or, bit_xor, min, max, bit_and-bitwise}
use native.Mathlib.Nat.{pow-suc, div-one, mul-one, mul-div_cancel}
use libiproute.Prelude.{
  ℕ, zero, suc, ◌+◌, ◌*◌, ◌/◌, ◌%◌, ◌^◌, ◌<◌, ◌≡◌, ◌↔◌, refl, sym, ap, ◌∙◌, arith,
}
use libiproute.Prelude.Bits.{
  bit_and_step, bit_or_step, bit_xor_step, bit_and-zero, div-two-pow, mod-two-pow, pow-ne-zero,
}

-- One digit of each: `v` and `k` have bits in the masks `m` and `n` only.
digit_merge :
    (x m v n k : ℕ)
    → x < 2
    → m < 2
    → v < 2
    → n < 2
    → k < 2
    → min v m ≡ v
    → min k n ≡ k
    → ((min x m ≡ v) × (min x n ≡ k))
      ↔ ((min ((k + v) % 2) (min n m) ≡ 0) × (min x (max m n) ≡ max v k))
digit_merge x m v n k hx hm hv hn hk sv sk =
    (λ h. (omega arith, omega arith), λ h. (omega arith, omega arith))

-- An equation of words is one of the lowest digits and of the others.
and_split :
    (x m v : ℕ)
    → (bit_and x m ≡ v) ↔ ((bit_and (x / 2) (m / 2) ≡ v / 2) × (min (x % 2) (m % 2) ≡ v % 2))
and_split x m v = (
  λ h. (omega (arith, bit_and_step x m), omega (arith, bit_and_step x m)),
  λ h. omega (arith, bit_and_step x m),
)

or_half :
    (m n : ℕ) → (bit_or m n / 2 ≡ bit_or (m / 2) (n / 2)) × (bit_or m n % 2 ≡ max (m % 2) (n % 2))
or_half m n = (omega (arith, bit_or_step m n), omega (arith, bit_or_step m n))

and_half :
    (m n : ℕ)
    → (bit_and m n / 2 ≡ bit_and (m / 2) (n / 2)) × (bit_and m n % 2 ≡ min (m % 2) (n % 2))
and_half m n = (omega (arith, bit_and_step m n), omega (arith, bit_and_step m n))

xor_half :
    (m n : ℕ)
    → (bit_xor m n / 2 ≡ bit_xor (m / 2) (n / 2)) × (bit_xor m n % 2 ≡ (m % 2 + n % 2) % 2)
xor_half m n = (omega (arith, bit_xor_step m n), omega (arith, bit_xor_step m n))

or_split :
    (x m n v k : ℕ)
    → (bit_and x (bit_or m n) ≡ bit_or v k) ↔ (
        (bit_and (x / 2) (bit_or (m / 2) (n / 2)) ≡ bit_or (v / 2) (k / 2))
        × (min (x % 2) (max (m % 2) (n % 2)) ≡ max (v % 2) (k % 2)))
or_split x m n v k =
    rw ((or_half m n).0, (or_half m n).1, (or_half v k).0, (or_half v k).1) at
      (and_split x (bit_or m n) (bit_or v k))

zero_split :
    (k v n m : ℕ)
    → (bit_and (bit_xor k v) (bit_and n m) ≡ 0) ↔ (
        (bit_and (bit_xor (k / 2) (v / 2)) (bit_and (n / 2) (m / 2)) ≡ 0)
        × (min ((k % 2 + v % 2) % 2) (min (n % 2) (m % 2)) ≡ 0))
zero_split k v n m =
    rw ((xor_half k v).0, (xor_half k v).1, (and_half n m).0, (and_half n m).1) at
      (and_split (bit_xor k v) (bit_and n m) 0)

pub merge_words :
    (w x m v n k : ℕ)
    → x < 2 ^ w
    → m < 2 ^ w
    → v < 2 ^ w
    → n < 2 ^ w
    → k < 2 ^ w
    → bit_and v m ≡ v
    → bit_and k n ≡ k
    → ((bit_and x m ≡ v) × (bit_and x n ≡ k))
      ↔ ((bit_and (bit_xor k v) (bit_and n m) ≡ 0) × (bit_and x (bit_or m n) ≡ bit_or v k))
merge_words zero x m v n k hx hm hv hn hk sv sk =
    let ex : x ≡ 0 = omega arith in
    let em : m ≡ 0 = omega arith in
    let ev : v ≡ 0 = omega arith in
    let en : n ≡ 0 = omega arith in
    let ek : k ≡ 0 = omega arith in rw (ex, em, ev, en, ek) (λ h. (refl, refl), λ h. (refl, refl))
merge_words (suc w) x m v n k hx hm hv hn hk sv sk =
    let (sv', sv0) = (and_split v m v).0 sv in
    let (sk', sk0) = (and_split k n k).0 sk in
    let p = pow-suc 2 w in
    let halves =
      merge_words w (x / 2) (m / 2) (v / 2) (n / 2) (k / 2) (omega (arith, p)) (omega (arith, p))
        (omega (arith, p)) (omega (arith, p)) (omega (arith, p)) sv' sk' in
    let digits =
      digit_merge (x % 2) (m % 2) (v % 2) (n % 2) (k % 2) (omega arith) (omega arith) (omega arith)
        (omega arith) (omega arith) sv0 sk0 in
    (
      λ h.
          let (a, a0) = (and_split x m v).0 h.0 in
          let (b, b0) = (and_split x n k).0 h.1 in
          let (c, d) = halves.0 (a, b) in
          let (c0, d0) = digits.0 (a0, b0) in
          ((zero_split k v n m).1 (c, c0), (or_split x m n v k).1 (d, d0)),
      λ h.
          let (c, c0) = (zero_split k v n m).0 h.0 in
          let (d, d0) = (or_split x m n v k).0 h.1 in
          let (a, b) = halves.1 (c, d) in
          let (a0, b0) = digits.1 (c0, d0) in
          ((and_split x m v).1 (a, a0), (and_split x n k).1 (b, b0)),
    )

pub bit_and-lt : (w a b : ℕ) → b < 2 ^ w → bit_and a b < 2 ^ w
bit_and-lt zero a b h = let e : b ≡ 0 = omega arith in rw (e, bit_and-zero) (omega arith)
bit_and-lt (suc w) a b h =
    let half = bit_and-lt w (a / 2) (b / 2) (omega (arith, pow-suc 2 w)) in
    omega (arith, pow-suc 2 w, bit_and_step a b)

pub bit_or-lt : (w a b : ℕ) → a < 2 ^ w → b < 2 ^ w → bit_or a b < 2 ^ w
bit_or-lt zero a b h k =
    let e : a ≡ 0 = omega arith in let f : b ≡ 0 = omega arith in rw (e, f) (omega arith)
bit_or-lt (suc w) a b h k =
    let half =
      bit_or-lt w (a / 2) (b / 2) (omega (arith, pow-suc 2 w)) (omega (arith, pow-suc 2 w)) in
    omega (arith, pow-suc 2 w, bit_or_step a b)

-- What was masked has no bits outside the mask.
pub bit_and_masked : (w a b : ℕ) → b < 2 ^ w → bit_and (bit_and a b) b ≡ bit_and a b
bit_and_masked zero a b h =
    let e : b ≡ 0 = omega arith in rw e (bit_and-zero (bit_and a 0) ∙ sym (bit_and-zero a))
bit_and_masked (suc w) a b h =
    let half = bit_and_masked w (a / 2) (b / 2) (omega (arith, pow-suc 2 w)) in
    (and_split (bit_and a b) b (bit_and a b)).1
      (rw ((and_half a b).0, (and_half a b).1) (half, omega arith))

pub bit_or_masked :
    (w m v n k : ℕ)
    → v < 2 ^ w
    → k < 2 ^ w
    → bit_and v m ≡ v
    → bit_and k n ≡ k
    → bit_and (bit_or v k) (bit_or m n) ≡ bit_or v k
bit_or_masked zero m v n k hv hk sv sk =
    let ev : v ≡ 0 = omega arith in
    let ek : k ≡ 0 = omega arith in rw (ev, ek) (bit_and-bitwise 0 (bit_or m n))
bit_or_masked (suc w) m v n k hv hk sv sk =
    let (sv', sv0) = (and_split v m v).0 sv in
    let (sk', sk0) = (and_split k n k).0 sk in
    let p = pow-suc 2 w in
    let half =
      bit_or_masked w (m / 2) (v / 2) (n / 2) (k / 2) (omega (arith, p)) (omega (arith, p)) sv'
        sk' in
    (or_split (bit_or v k) m n v k).1 (rw ((or_half v k).0, (or_half v k).1) (half, omega arith))

-- A mask that is shifted reads the bits behind the shift, and a mask of `k` bits the low ones.
pub bit_and-shifted : (k x m : ℕ) → bit_and x (m * 2 ^ k) ≡ bit_and (x / 2 ^ k) m * 2 ^ k
bit_and-shifted zero x m = simp (div-one, mul-one)
bit_and-shifted (suc k) x m = omega (
  arith,
  bit_and_step x (m * 2 ^ suc k),
  ap (bit_and (x / 2)) half,
  bit_and-shifted k (x / 2) m,
  ap (λ (t : ℕ). bit_and t m * 2 ^ suc k) (div-two-pow x k),
  ap (λ (t : ℕ). bit_and (x / 2 / 2 ^ k) m * t) (pow-suc 2 k),
  ap (λ (t : ℕ). m * t) (pow-suc 2 k),
)
  where
    half : m * 2 ^ suc k / 2 ≡ m * 2 ^ k
    half = omega (arith, ap (λ (t : ℕ). m * t) (pow-suc 2 k))

pub bit_and-low : (k x m : ℕ) → m < 2 ^ k → bit_and x m ≡ bit_and (x % 2 ^ k) m
bit_and-low zero x m h =
    let e : m ≡ 0 = omega arith in rw e (bit_and-zero x ∙ sym (bit_and-zero (x % 2 ^ 0)))
bit_and-low (suc k) x m h = omega (
  arith,
  bit_and_step x m,
  bit_and_step (x % 2 ^ suc k) m,
  mod-two-pow x k,
  bit_and-low k (x / 2) (m / 2) (omega (arith, pow-suc 2 k)),
  ap (λ (t : ℕ). bit_and t (m / 2)) half,
)
  where
    half : x % 2 ^ suc k / 2 ≡ x / 2 % 2 ^ k
    half = omega (arith, mod-two-pow x k)

-- A key and a mask of `b` bits, shifted, look at the field of the word behind the shift.
pub shifted_field :
    (b k x key mask : ℕ)
    → mask < 2 ^ b
    → (bit_and x (mask * 2 ^ k) ≡ bit_and (key * 2 ^ k) (mask * 2 ^ k))
      ↔ (bit_and (x / 2 ^ k % 2 ^ b) mask ≡ bit_and key mask)
shifted_field b k x key mask h =
    rw
      (
        bit_and-shifted k x mask,
        bit_and-shifted k (key * 2 ^ k) mask,
        unshift key,
        ← bit_and-low b (x / 2 ^ k) mask h,
      )
      (λ e. cancel e, λ e. ap (λ (t : ℕ). t * 2 ^ k) e)
  where
    unshift : (n : ℕ) → n * 2 ^ k / 2 ^ k ≡ n
    unshift n = mul-div_cancel n (pow-ne-zero k)

    cancel :
        bit_and (x / 2 ^ k) mask * 2 ^ k ≡ bit_and key mask * 2 ^ k
        → bit_and (x / 2 ^ k) mask ≡ bit_and key mask
    cancel e =
        sym (unshift (bit_and (x / 2 ^ k) mask))
        ∙ ap (λ (t : ℕ). t / 2 ^ k) e
        ∙ unshift (bit_and key mask)

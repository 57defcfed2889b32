-- ===== src/Netlink/Memory/Laws.antt =====
-- Stores and loads of a memory of bytes.
use libiproute.Prelude.{
  ℕ, zero, suc, ◌+◌, ◌-◌, ◌%◌, ◌^◌, ◌≤◌, ◌<◌, ◌≡◌, ◌⊎◌, refl, ap, ◌∙◌, arith, [], ◌∷◌, Bytes,
  length, get_or,
}
use mathlib.Core.Path.{ap₂}
use native.Mathlib.Nat.{add-zero}
use libiproute.Netlink.Memory.{Memory, store, load, le16, get16}

pub store_at :
    (mem : Memory) (off : ℕ) (bs : Bytes) (i : ℕ)
    → i < length bs
    → store mem off bs (off + i) ≡ get_or bs i 0
unfolding store
store_at mem off bs i h =
    let here : off + i - off ≡ i = omega arith in ground (arith, ap (λ (t : ℕ). get_or bs t 0) here)

-- Outside the bytes that are written.
pub store_off :
    (mem : Memory) (off : ℕ) (bs : Bytes) (i : ℕ)
    → (i < off) ⊎ (off + length bs ≤ i)
    → store mem off bs i ≡ mem i
unfolding store
store_off mem off bs i h = ground arith

pub load_same :
    (mem mem' : Memory) (off n : ℕ)
    → ((i : ℕ) → off ≤ i → i < off + n → mem i ≡ mem' i)
    → load mem off n ≡ load mem' off n
unfolding load
load_same mem mem' off zero same = refl
load_same mem mem' off (suc n) same =
    ap₂ (λ (b : ℕ) (bs : Bytes). b ∷ bs) (same off (omega arith) (omega arith))
      (load_same mem mem' (off + 1) n (λ i lo hi. same i (omega arith) (omega arith)))

load_bytes :
    (mem : Memory) (off : ℕ) (bs : Bytes)
    → ((i : ℕ) → i < length bs → mem (off + i) ≡ get_or bs i 0)
    → load mem off (length bs) ≡ bs
unfolding load
load_bytes mem off [] at = refl
load_bytes mem off (b ∷ bs) at =
    ap₂ (λ (b : ℕ) (bs : Bytes). b ∷ bs) (rw add-zero at (at 0 (omega arith)))
      (load_bytes mem (off + 1) bs (λ i h. ap mem (shift i) ∙ at (suc i) (omega arith)))
  where
    shift : (i : ℕ) → off + 1 + i ≡ off + suc i
    shift i = omega arith

pub load-store :
    (mem : Memory) (off : ℕ) (bs : Bytes) → load (store mem off bs) off (length bs) ≡ bs
load-store mem off bs = load_bytes (store mem off bs) off bs (λ i h. store_at mem off bs i h)

pub get16_same :
    (mem mem' : Memory) (off : ℕ)
    → mem off ≡ mem' off
    → mem (off + 1) ≡ mem' (off + 1)
    → get16 mem off ≡ get16 mem' off
unfolding get16
get16_same mem mem' off e f = omega (arith, e, f)

pub get16-store : (mem : Memory) (off v : ℕ) → get16 (store mem off (le16 v)) off ≡ v % 2 ^ 16
unfolding get16 le16
get16-store mem off v = omega (
  arith,
  rw add-zero at (store_at mem off (le16 v) 0 (omega arith)),
  store_at mem off (le16 v) 1 (omega arith),
)

pub length-load : (mem : Memory) (off n : ℕ) → length (load mem off n) ≡ n
unfolding load
length-load mem off zero = refl
length-load mem off (suc n) = ap suc (length-load mem (off + 1) n)

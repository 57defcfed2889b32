-- ===== src/Netlink/Listen/File.antt =====
-- Reading a file of messages, as the dump loop writes it.
use libiproute.Prelude.{
  ℕ, zero, suc, ◌+◌, ◌-◌, ◌^◌, ◌≤◌, ◌<◌, ◌≡◌, inl, inr, Bool-cases, refl, ap, ◌∙◌, arith, true,
  false, ◌||◌, Option, List, [], ◌∷◌, ◌++◌, append_assoc, ltb, ◌==◌, Bytes, length, length-append,
  take, drop, get_or,
}
use libiproute.Prelude.Int.{ℤ}
use libiproute.Netlink.Memory.{Memory, get32, get16, store, load, align4}
use libiproute.Netlink.Memory.Laws.{store_off, load_same, length-load}
use libiproute.Netlink.Recv.{view, hdr_len, nlmsg_ok}
use libiproute.Netlink.Dump.Single.{nlmsg_ok_bounds}
use libiproute.Netlink.Listen.{content, heard, file_fuel}

-- Bytes of the memory, in parts.
load-split : (mem : Memory) (h a b : ℕ) → load mem h (a + b) ≡ load mem h a ++ load mem (h + a) b
unfolding load
load-split mem h zero b = ap (load mem h) (omega arith) ∙ ap (λ (k : ℕ). load mem k b) (omega arith)
load-split mem h (suc a) b =
    let more : suc a + b ≡ suc (a + b) = omega arith in
    rw more (
      ap (λ (bs : Bytes). mem h ∷ bs)
        (load-split mem (h + 1) a b
          ∙ ap (λ (k : ℕ). load mem (h + 1) a ++ load mem k b) (omega arith)))

take-load : (mem : Memory) (h n : ℕ) (ys : Bytes) → take n (load mem h n ++ ys) ≡ load mem h n
unfolding load
take-load mem h zero ys = refl
take-load mem h (suc n) ys = rw (take-load mem (h + 1) n ys) refl

drop-load : (mem : Memory) (h n : ℕ) (ys : Bytes) → drop n (load mem h n ++ ys) ≡ ys
unfolding load
drop-load mem h zero ys = refl
drop-load mem h (suc n) ys = drop-load mem (h + 1) n ys

get_or-load : (mem : Memory) (h n i : ℕ) → i < n → get_or (load mem h n) i 0 ≡ mem (h + i)
unfolding load
get_or-load mem h zero i e = absurd (omega arith)
get_or-load mem h (suc n) zero e = ap mem (omega arith)
get_or-load mem h (suc n) (suc i) e =
    get_or-load mem (h + 1) n i (omega arith) ∙ ap mem (omega arith)

store_get :
    (mem : Memory) (off i : ℕ) (bs : Bytes)
    → off ≤ i
    → i < off + length bs
    → store mem off bs i ≡ get_or bs (i - off) 0
unfolding store
store_get mem off i bs e f = ground arith

-- What the two reads leave in the buffer.
abbrev pub buffer : Memory → Memory → ℕ → ℕ → Memory
buffer buf mem h k = store (store buf 0 (load mem h 16)) 16 (load mem (h + 16) k)

buffer_at : (buf mem : Memory) (h k i : ℕ) → i < 16 + k → buffer buf mem h k i ≡ mem (h + i)
buffer_at buf mem h k i e = elim (Bool-cases (ltb i 16)) [
  | inl header ↦
      store_off (store buf 0 (load mem h 16)) 16 (load mem (h + 16) k) i (inl (ground arith))
      ∙ store_get buf 0 i (load mem h 16) (omega arith) (ground (arith, length-load mem h 16))
      ∙ get_or-load mem h 16 (i - 0) (ground arith)
      ∙ ap mem (omega arith)
  | inr body ↦
      store_get (store buf 0 (load mem h 16)) 16 i (load mem (h + 16) k) (ground arith)
        (ground (arith, length-load mem (h + 16) k))
      ∙ get_or-load mem (h + 16) k (i - 16) (ground arith)
      ∙ ap mem (ground arith)
]

get32_same : (mem mem' : Memory) → ((i : ℕ) → i < 4 → mem i ≡ mem' i) → get32 mem 0 ≡ get32 mem' 0
unfolding get32 get16
get32_same mem mem' same =
    omega (
      arith,
      same 0 (omega arith),
      same 1 (omega arith),
      same 2 (omega arith),
      same 3 (omega arith),
    )

-- The length that is read is that of the message.
buffer_len : (buf mem : Memory) (h : ℕ) → get32 (store buf 0 (load mem h 16)) 0 ≡ hdr_len mem h
buffer_len buf mem h =
    get32_same (store buf 0 (load mem h 16)) (λ (i : ℕ). mem (h + i))
      (λ i e.
        store_get buf 0 i (load mem h 16) (omega arith) (omega (arith, length-load mem h 16))
        ∙ get_or-load mem h 16 (i - 0) (omega arith)
        ∙ ap mem (omega arith))

content_buffer :
    (buf mem : Memory) (h len : ℕ)
    → 16 ≤ len
    → len < 2 ^ 31
    → load (buffer buf mem h (align4 (len - 16))) 0 len ≡ load (λ (i : ℕ). mem (h + i)) 0 len
content_buffer buf mem h len e k =
    load_same (buffer buf mem h (align4 (len - 16))) (λ (i : ℕ). mem (h + i)) 0 len
      (λ i lo hi. buffer_at buf mem h (align4 (len - 16)) i (omega arith))

file_some : (mem : Memory) (h : ℕ) (tail : Bytes) → (length (load mem h 16 ++ tail) == 0) ≡ false
file_some mem h tail = ground (arith, length-append (load mem h 16) tail, length-load mem h 16)

file_parts :
    (mem : Memory) (h len : ℕ) (rest : Bytes)
    → 16 ≤ len
    → 16 ≤ hdr_len mem h
    → hdr_len mem h ≤ len
    → align4 (hdr_len mem h) ≤ len
    → len < 2 ^ 31
    → load mem h len ++ rest
      ≡ load mem h 16
        ++ (load mem (h + 16) (align4 (hdr_len mem h - 16))
            ++ (load mem (h + align4 (hdr_len mem h)) (len - align4 (hdr_len mem h)) ++ rest))
file_parts mem h len rest room header inside fits k =
    let size = align4 (hdr_len mem h) in
    let body = align4 (hdr_len mem h - 16) in
    let r = len - size in
    let whole : len ≡ 16 + (body + r) = omega arith in
    let place : h + 16 + body ≡ h + size = omega arith in
    ap (λ (n : ℕ). load mem h n ++ rest) whole
    ∙ ap (λ (bs : Bytes). bs ++ rest) (load-split mem h 16 (body + r))
    ∙ append_assoc (load mem h 16) (load mem (h + 16) (body + r)) rest
    ∙ ap (λ (bs : Bytes). load mem h 16 ++ (bs ++ rest)) (load-split mem (h + 16) body r)
    ∙ ap (λ (bs : Bytes). load mem h 16 ++ bs)
        (append_assoc (load mem (h + 16) body) (load mem (h + 16 + body) r) rest)
    ∙ ap (λ (k' : ℕ). load mem h 16 ++ (load mem (h + 16) body ++ (load mem k' r ++ rest))) place

-- The handler on one content after the other.
module _ {S : Type 0} (handler : S → Bytes → S × ℤ) where
  abbrev pub hear_all : List Bytes → S → (S → Option (S × ℤ)) → Option (S × ℤ)
  hear_all [] s next = next s
  hear_all (b ∷ bs) s next = heard handler (handler s b) (λ s'. hear_all bs s' next)

  -- One message of the file.
  pub file_fuel_step :
      (fuel : ℕ) (buf mem : Memory) (h len : ℕ) (rest : Bytes) (s : S)
      → nlmsg_ok mem h len ≡ true
      → align4 (hdr_len mem h) ≤ len
      → len < 2 ^ 31
      → hdr_len mem h ≤ 16384
      → file_fuel handler (suc fuel) buf (load mem h len ++ rest) s
        ≡ heard handler (handler s (content (view mem h))) (
            file_fuel handler fuel
              (buffer buf mem h (align4 (hdr_len mem h - 16)))
              (load mem (h + align4 (hdr_len mem h)) (len - align4 (hdr_len mem h)) ++ rest))
  unfolding file_fuel
  file_fuel_step fuel buf mem h len rest s ok fits k small =
      let (room, header, inside) = nlmsg_ok_bounds mem h len ok in
      let size = align4 (hdr_len mem h) in
      let body = align4 (hdr_len mem h - 16) in
      let later = load mem (h + size) (len - size) ++ rest in
      let tail = load mem (h + 16) body ++ later in
      let parts = file_parts mem h len rest room header inside fits k in
      let size_read = buffer_len buf mem h in
      let some_bytes = file_some mem h tail in
      let in_range : (ltb (hdr_len mem h) 16 || ltb 16384 (hdr_len mem h)) ≡ false = ground arith in
      let read : ltb (length (load mem (h + 16) body)) (hdr_len mem h - 16) ≡ false =
        ground (arith, length-load mem (h + 16) body) in
      let same = content_buffer buf mem h (hdr_len mem h) header (omega arith) in
      ap (λ (file : Bytes). file_fuel handler (suc fuel) buf file s) parts
      ∙ rw
          (
            take-load mem h 16 tail,
            drop-load mem h 16 tail,
            some_bytes,
            size_read,
            take-load mem (h + 16) body later,
            drop-load mem (h + 16) body later,
            in_range,
            read,
          )
          (ap
            (λ (bs : Bytes).
              heard handler (handler s bs) (file_fuel handler fuel (buffer buf mem h body) later))
            same)

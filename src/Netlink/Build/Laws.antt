-- ===== src/Netlink/Build/Laws.antt =====
-- `addattr_l` of lib/libnetlink.c, by the bytes that it writes and those that it leaves.
use libiproute.Prelude.{
  ℕ, ◌+◌, ◌-◌, ◌%◌, ◌^◌, ◌≤◌, ◌<◌, ◌≡◌, ◌⊎◌, inl, inr, sym, ◌∙◌, arith, Bool, true, false, List, [],
  ◌∷◌, ◌++◌, All, Bytes, length, get_or-All,
}
use libiproute.Netlink.Memory.{Memory, store, le16, rta_length, rta_len, rta_type}
use libiproute.Netlink.Memory.Laws.{store_off, load_same, load-store, get16_same, get16-store}
use libiproute.Netlink.Parse.Laws.{IsMemory}
use libiproute.Netlink.Parse.Stream.{Attr, attr_len, attr_size, At, Holds, Holds-stop}
use libiproute.Netlink.Build.{Msg, nlmsg_tail, put_rtattr, addattr_l}

-- The bytes of an attribute are all that `put_rtattr` writes.
pub put_rtattr_off :
    (mem : Memory) (rta type : ℕ) (payload : Bytes) (i : ℕ)
    → (i < rta) ⊎ (rta + 4 + length payload ≤ i)
    → put_rtattr mem rta type payload i ≡ mem i
unfolding put_rtattr le16
put_rtattr_off mem rta type payload i (inl h) =
    store_off _ (rta + 4) payload i (inl (omega arith))
    ∙ store_off _ rta _ i (inl h)
    ∙ store_off mem (rta + 2) _ i (inl (omega arith))
put_rtattr_off mem rta type payload i (inr h) =
    store_off _ (rta + 4) payload i (inr h)
    ∙ store_off _ rta _ i (inr (omega arith))
    ∙ store_off mem (rta + 2) _ i (inr (omega arith))

put_rta_len :
    (mem : Memory) (rta type : ℕ) (payload : Bytes)
    → rta_len (put_rtattr mem rta type payload) rta ≡ rta_length (length payload) % 2 ^ 16
unfolding put_rtattr rta_len
put_rta_len mem rta type payload =
    get16_same _ _ rta (store_off _ (rta + 4) payload rta (inl (omega arith)))
      (store_off _ (rta + 4) payload (rta + 1) (inl (omega arith)))
    ∙ get16-store _ rta (rta_length (length payload))

put_rta_type :
    (mem : Memory) (rta type : ℕ) (payload : Bytes)
    → rta_type (put_rtattr mem rta type payload) rta ≡ type % 2 ^ 16
unfolding put_rtattr rta_type le16
put_rta_type mem rta type payload =
    get16_same _ (store (store mem (rta + 2) (le16 type)) rta (le16 (rta_length (length payload))))
      (rta + 2) (store_off _ (rta + 4) payload (rta + 2) (inl (omega arith)))
      (store_off _ (rta + 4) payload (rta + 2 + 1) (inl (omega arith)))
    ∙ get16_same _ (store mem (rta + 2) (le16 type)) (rta + 2)
        (store_off (store mem (rta + 2) (le16 type)) rta (le16 (rta_length (length payload)))
          (rta + 2) (inr (omega arith)))
        (store_off (store mem (rta + 2) (le16 type)) rta (le16 (rta_length (length payload)))
          (rta + 2 + 1) (inr (omega arith)))
    ∙ get16-store mem (rta + 2) type

pub put_rtattr-At :
    (mem : Memory) (rta : ℕ) (a : Attr)
    → attr_len a < 2 ^ 16
    → a.type < 2 ^ 16
    → At (put_rtattr mem rta a.type a.payload) rta a
put_rtattr-At mem rta a small small_type = (
  small,
  omega (arith, put_rta_len mem rta a.type a.payload),
  omega (arith, put_rta_type mem rta a.type a.payload),
  unfold put_rtattr in load-store _ (rta + 4) a.payload,
)

-- Attributes are read from their own bytes.
pub At-same :
    (mem mem' : Memory) (off : ℕ) (a : Attr)
    → ((i : ℕ) → off ≤ i → i < off + attr_len a → mem i ≡ mem' i)
    → At mem off a
    → At mem' off a
unfolding rta_len rta_type
At-same mem mem' off a same (small, len, type, payload) = (
  small,
  sym (
        get16_same mem mem' off (same off (omega arith) (omega arith))
          (same (off + 1) (omega arith) (omega arith)))
      ∙ len,
  sym (
        get16_same mem mem' (off + 2) (same (off + 2) (omega arith) (omega arith))
          (same (off + 2 + 1) (omega arith) (omega arith)))
      ∙ type,
  sym (
        load_same mem mem' (off + 4) (length a.payload)
          (λ i lo hi. same i (omega arith) (omega arith)))
      ∙ payload,
)

pub Holds-same :
    (mem mem' : Memory) (off : ℕ) (l : List Attr) (stop : ℕ)
    → ((i : ℕ) → off ≤ i → i < stop → mem i ≡ mem' i)
    → Holds mem off l stop
    → Holds mem' off l stop
Holds-same mem mem' off [] stop same h = h
Holds-same mem mem' off (a ∷ l) stop same (h, hs) =
    let end = Holds-stop mem (off + attr_size a) l stop hs in
    (
      At-same mem mem' off a (λ i lo hi. same i lo (omega arith)) h,
      Holds-same mem mem' (off + attr_size a) l stop (λ i lo hi. same i (omega arith) hi) hs,
    )

pub Holds-append :
    (mem : Memory) (off : ℕ) (l m : List Attr) (mid stop : ℕ)
    → Holds mem off l mid
    → Holds mem mid m stop
    → Holds mem off (l ++ m) stop
Holds-append mem off [] m mid stop h k = rw h k
Holds-append mem off (a ∷ l) m mid stop (h, hs) k =
    (h, Holds-append mem (off + attr_size a) l m mid stop hs k)

pub store-IsMemory :
    (mem : Memory) (off : ℕ) (bs : Bytes)
    → IsMemory mem
    → All (λ (b : ℕ). b < 256) bs
    → IsMemory (store mem off bs)
unfolding store
store-IsMemory mem off bs m h i =
    ground (arith, get_or-All (λ (b : ℕ). b < 256) bs (i - off) 0 h (omega arith), m i)

pub le16-All : (v : ℕ) → All (λ (b : ℕ). b < 256) (le16 v)
unfolding le16
le16-All v = (omega arith, (omega arith, tt))

pub put_rtattr-IsMemory :
    (mem : Memory) (rta type : ℕ) (payload : Bytes)
    → IsMemory mem
    → All (λ (b : ℕ). b < 256) payload
    → IsMemory (put_rtattr mem rta type payload)
unfolding put_rtattr
put_rtattr-IsMemory mem rta type payload m h =
    store-IsMemory _ (rta + 4) payload
      (store-IsMemory _ rta _ (store-IsMemory mem (rta + 2) _ m (le16-All type)) (le16-All _)) h

-- An attribute that can be sent.
abbrev pub IsAttr : Attr → Type 0
IsAttr a = (attr_len a < 2 ^ 16) × (a.type < 2 ^ 16) × All (λ (b : ℕ). b < 256) a.payload

-- The message holds the attributes `l` from `start` to its tail.
abbrev pub IsMessage : Msg → ℕ → List Attr → Type 0
IsMessage n start l = (n.nlmsg_len < 2 ^ 31) × IsMemory n.mem × Holds n.mem start l (nlmsg_tail n)

abbrev pub add : Msg → ℕ → Attr → Msg × Bool
add n maxlen a = addattr_l n maxlen a.type a.payload

pub add-room :
    (n : Msg) (maxlen : ℕ) (a : Attr)
    → n.nlmsg_len < 2 ^ 31
    → attr_len a < 2 ^ 16
    → nlmsg_tail n + attr_size a ≤ maxlen
    → add n maxlen a ≡ (
      record {
        nlmsg_len = nlmsg_tail n + attr_size a;
        mem = put_rtattr n.mem (nlmsg_tail n) a.type a.payload;
      },
      true,
    )
unfolding addattr_l
add-room n maxlen a h small room =
    let same : (nlmsg_tail n + attr_size a) % 2 ^ 32 ≡ nlmsg_tail n + attr_size a = omega arith in
    rw same (ground arith)

pub add-full :
    (n : Msg) (maxlen : ℕ) (a : Attr)
    → n.nlmsg_len < 2 ^ 31
    → attr_len a < 2 ^ 16
    → maxlen < nlmsg_tail n + attr_size a
    → add n maxlen a ≡ (n, false)
unfolding addattr_l
add-full n maxlen a h small full = ground arith

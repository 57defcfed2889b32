-- ===== src/Netlink/Dump/Single.antt =====
-- One datagram under one filter: what the loop makes of its messages, one after the other.
use libiproute.Prelude.{
  ℕ, zero, suc, ◌+◌, ◌-◌, ◌^◌, ◌≤◌, ◌<◌, ◌≡◌, refl, sym, ap, ◌∙◌, arith, Bool, true, false, ◌&&◌,
  List, [], ◌∷◌, leb, ltb, if◌then◌else◌, Bytes, length, map,
}
use Prim.Native.Nat.{bit_and}
use libiproute.Prelude.Int.{ℤ, pos, negsuc}
use libiproute.Netlink.Memory.{Memory, get32, store, le16, align4}
use libiproute.Netlink.Build.{Msg}
use libiproute.Netlink.Recv.{hdr_len, msg_at, view, msg_flags, nlmsg_ok}
use libiproute.Netlink.Dump.{
  Handle, Filter, Class, skipped, done, broken_off, wanted, classify, clear_flags, Pass, through,
  found, stopped, called, handle, pass_fuel,
}

-- What the messages make of the callers' data: all are handled; NLMSG_DONE is found; a result; or
-- bytes are left over.
pub data Verdict (S : Type 0) : Type 0 where
  goes : S → Verdict S
  finds : S → Verdict S
  stops : S → ℤ → Verdict S
  ragged : S → Verdict S

-- The message with the flags cleared.
abbrev pub cleared : ℕ → Msg → Msg
cleared nc_flags n = record n {
  mem = store n.mem 6 (le16 (bit_and (msg_flags n) (0xffff - nc_flags)));
}

-- The bytes from `h` on are the messages `ns`, and nothing else.
abbrev pub Frames : Memory → ℕ → ℕ → List Msg → Type 0
Frames mem h len [] = len ≡ 0
Frames mem h len (n ∷ ns) =
    (n ≡ view mem h)
    × (nlmsg_ok mem h len ≡ true)
    × (align4 (hdr_len mem h) ≤ len)
    × Frames mem (h + align4 (hdr_len mem h)) (len - align4 (hdr_len mem h)) ns

module _ {S : Type 0} where
  abbrev pub answered : S × ℤ → (S → Verdict S) → Verdict S
  answered (s, pos n) next = next s
  answered (s, negsuc n) next = stops s (negsuc n)

  abbrev pub treat : Handle → Filter S → Msg → S → Class → (S → Verdict S) → Verdict S
  treat rth a n s skipped next = next s
  treat rth a n s done next = finds s
  treat rth a n s broken_off next = stops s (negsuc 0)
  treat rth a n s wanted next = if rth.has_dump_fp then next s else answered (a.filter s n) next

  -- The messages in turn, each with the `nl_pid` of its sender.
  unfoldable pub deliver : Handle → Filter S → List (ℕ × Msg) → S → Verdict S
  deliver rth a [] s = goes s
  deliver rth a ((nl_pid, n) ∷ ns) s =
      let n' = cleared a.nc_flags n in treat rth a n' s (classify rth nl_pid n') (deliver rth a ns)

  abbrev pub verdict : Pass S → Verdict S
  verdict (through mem true s) = ragged s
  verdict (through mem false s) = goes s
  verdict (found mem s) = finds s
  verdict (stopped s r) = stops s r

-- Bytes in front of a pointer do not show.
store_before : (mem : Memory) (a b : ℕ) (bs : Bytes) → a + length bs ≤ b → store mem a bs b ≡ mem b
unfolding store
store_before mem a b bs e = ground arith

store_behind : (mem : Memory) (a b : ℕ) (bs : Bytes) → b < a → store mem a bs b ≡ mem b
unfolding store
store_behind mem a b bs e = ground arith

view-store :
    (mem : Memory) (a h : ℕ) (bs : Bytes) → a + length bs ≤ h → view (store mem a bs) h ≡ view mem h
view-store mem a h bs e =
    let same : (λ (i : ℕ). store mem a bs (h + i)) ≡ (λ (i : ℕ). mem (h + i)) =
      λ j i. store_before mem a (h + i) bs (omega arith) j in
    ap msg_at same

store_shift :
    (mem : Memory) (h i : ℕ) (bs : Bytes)
    → store mem (h + 6) bs (h + i) ≡ store (λ (k : ℕ). mem (h + k)) 6 bs i
unfolding store
store_shift mem h i bs =
    let tests : (leb (h + 6) (h + i) && ltb (h + i) (h + 6 + length bs))
        ≡ (leb 6 i && ltb i (6 + length bs)) =
      ground arith in
    let index : h + i - (h + 6) ≡ i - 6 = omega arith in rw (tests, index) refl

view-clear_flags :
    (nc_flags : ℕ) (mem : Memory) (h : ℕ)
    → view (clear_flags nc_flags mem h) h ≡ cleared nc_flags (view mem h)
unfolding get32
view-clear_flags nc_flags mem h =
    let bs = le16 (bit_and (msg_flags (view mem h)) (0xffff - nc_flags)) in
    let same : (λ (i : ℕ). store mem (h + 6) bs (h + i)) ≡ store (λ (k : ℕ). mem (h + k)) 6 bs =
      λ j i. store_shift mem h i bs j in
    let length : get32 (λ (i : ℕ). store mem (h + 6) bs (h + i)) 0
        ≡ get32 (λ (i : ℕ). mem (h + i)) 0 =
      rw
        (
          store_behind mem (h + 6) (h + 0) bs (omega arith),
          store_behind mem (h + 6) (h + 1) bs (omega arith),
          store_behind mem (h + 6) (h + 2) bs (omega arith),
          store_behind mem (h + 6) (h + 3) bs (omega arith),
        )
        refl in
    λ j. record { nlmsg_len = length j; mem = same j }

Frames-store :
    (mem : Memory) (a h len : ℕ) (bs : Bytes) (ns : List Msg)
    → a + length bs ≤ h
    → Frames mem h len ns
    → Frames (store mem a bs) h len ns
unfolding nlmsg_ok
Frames-store mem a h len bs [] e f = f
Frames-store mem a h len bs (n ∷ ns) e (first, ok, fits, rest) =
    let same = view-store mem a h bs e in
    let header = ap (λ (m : Msg). m.nlmsg_len) same in
    let tested = ap (λ (m : Msg). leb 16 len && leb 16 m.nlmsg_len && leb m.nlmsg_len len) same in
    let size = align4 (hdr_len mem h) in
    (
      first ∙ sym same,
      tested ∙ ok,
      rw header fits,
      rw header (Frames-store mem a (h + size) (len - size) bs ns (omega arith) rest),
    )

pub nlmsg_ok_bounds :
    (mem : Memory) (h len : ℕ)
    → nlmsg_ok mem h len ≡ true
    → (16 ≤ len) × (16 ≤ hdr_len mem h) × (hdr_len mem h ≤ len)
unfolding nlmsg_ok
nlmsg_ok_bounds mem h len e = ground arith

pub nlmsg_ok_short : (mem : Memory) (h len : ℕ) → len < 16 → nlmsg_ok mem h len ≡ false
unfolding nlmsg_ok
nlmsg_ok_short mem h len e = ground arith

module _ {S : Type 0} (rth : Handle) (nl_pid : ℕ) (a : Filter S) where
  abbrev pub tagged : List Msg → List (ℕ × Msg)
  tagged ns = map (λ (n : Msg). (nl_pid, n)) ns

  verdict-called :
      (y : S × ℤ) (next : S → Pass S) (next' : S → Verdict S)
      → ((t : S) → verdict (next t) ≡ next' t)
      → verdict (called y next) ≡ answered y next'
  verdict-called (t, pos k) next next' same = same t
  verdict-called (t, negsuc k) next next' same = refl

  verdict_either :
      (b : Bool) (p q : Pass S) (p' q' : Verdict S)
      → verdict p ≡ p'
      → verdict q ≡ q'
      → verdict (if b then p else q) ≡ (if b then p' else q')
  verdict_either true p q p' q' e e' = e
  verdict_either false p q p' q' e e' = e'

  -- A message that is handled is followed by the others.
  verdict-handle :
      (mem : Memory) (h : ℕ) (s : S) (c : Class) (next : S → Pass S) (next' : S → Verdict S)
      → ((t : S) → verdict (next t) ≡ next' t)
      → verdict (handle rth a mem h s c next) ≡ treat rth a (view mem h) s c next'
  verdict-handle mem h s skipped next next' same = same s
  verdict-handle mem h s done next next' same = refl
  verdict-handle mem h s broken_off next next' same = refl
  verdict-handle mem h s wanted next next' same =
      let y = a.filter s (view mem h) in
      verdict_either rth.has_dump_fp (next s) (called y next) (next' s) (answered y next') (same s)
        (verdict-called y next next' same)

  pub verdict-pass_fuel :
      (fuel : ℕ) (mem : Memory) (h len : ℕ) (ns : List Msg) (s : S)
      → len ≤ fuel
      → len < 2 ^ 31
      → Frames mem h len ns
      → verdict (pass_fuel fuel rth nl_pid a mem h len s) ≡ deliver rth a (tagged ns) s
  unfolding pass_fuel deliver le16 get32
  verdict-pass_fuel zero mem h len [] s e k f = rw f refl
  verdict-pass_fuel (suc fuel) mem h len [] s e k f =
      rw (nlmsg_ok_short mem h len (omega arith), f) refl
  verdict-pass_fuel zero mem h len (n ∷ ns) s e k (first, ok, fits, rest) =
      absurd (omega (arith, nlmsg_ok_bounds mem h len ok))
  verdict-pass_fuel (suc fuel) mem h len (n ∷ ns) s e k (first, ok, fits, rest) =
      let (room, header, inside) = nlmsg_ok_bounds mem h len ok in
      let size = align4 (hdr_len mem h) in
      let bs = le16 (bit_and (msg_flags (view mem h)) (0xffff - a.nc_flags)) in
      let mem' = store mem (h + 6) bs in
      let later = Frames-store mem (h + 6) (h + size) (len - size) bs ns (omega arith) rest in
      let next : S → Pass S = λ t.
        if leb size len
        then pass_fuel fuel rth nl_pid a mem' (h + size) (len - size) t
        else through mem' true t in
      let goes_on : leb size len ≡ true = ground arith in
      let step : (t : S) → verdict (next t) ≡ deliver rth a (tagged ns) t = λ t. rw goes_on (
        verdict-pass_fuel fuel mem' (h + size) (len - size) ns t (omega arith) (omega arith)
          later) in
      let same = view-clear_flags a.nc_flags mem h ∙ ap (cleared a.nc_flags) (sym first) in
      rw ok (
        verdict-handle mem' h s (classify rth nl_pid (view mem' h)) next (deliver rth a (tagged ns))
          step
        ∙ ap (λ (m : Msg). treat rth a m s (classify rth nl_pid m) (deliver rth a (tagged ns)))
            same)

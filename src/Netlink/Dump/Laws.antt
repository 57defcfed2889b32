-- ===== src/Netlink/Dump/Laws.antt =====
-- The whole dump of lib/libnetlink.c, by its messages, its datagrams and its interrupted calls.
use libiproute.Prelude.{
  ℕ, zero, suc, ◌^◌, ◌<◌, ◌≡◌, refl, sym, ap, ◌∙◌, arith, Bool, true, false, Option, none, some,
  List, [], ◌∷◌, ◌++◌, ◌==◌, if◌then◌else◌, Bool-cases, inl, inr, Bytes, length, map, All,
}
use libiproute.Prelude.Int.{ℤ, pos, negsuc}
use libiproute.Netlink.Build.{Msg}
use libiproute.Netlink.Recv.{
  Datagram, Outcome, failed, arrived, Received, got, again, recv_retry, second_recv, rtnl_recvmsg,
}
use libiproute.Netlink.Dump.{
  Handle, Filter, Class, skipped, done, broken_off, wanted, classify, Pass, through, found, stopped,
  pass, all_through, pass_all, next_filter, after_passes, dump_file, dump_step, dump_fuel, Dumped,
  returned, exited, waiting,
}
use libiproute.Netlink.Dump.Single.{
  Verdict, goes, finds, stops, ragged, cleared, Frames, answered, treat, deliver, verdict,
  verdict-pass_fuel,
}

-- The calls of `recvmsg` that are not repeated.
abbrev pub quiet : List Outcome → List Outcome
quiet [] = []
quiet (failed errno ∷ calls) = if again errno then quiet calls else failed errno ∷ quiet calls
quiet (arrived d ∷ calls) = arrived d ∷ quiet calls

-- Each datagram is looked at and received.
abbrev pub twice : List Datagram → List Outcome
twice [] = []
twice (d ∷ ds) = arrived d ∷ arrived d ∷ twice ds

-- A datagram that holds the messages, and for which there is memory.
abbrev pub IsWhole : (ℕ → Bool) → Datagram × List Msg → Type 0
IsWhole malloc (d, ns) =
    (0 < d.len)
    × (d.len < 2 ^ 31)
    × (malloc d.len ≡ true)
    × (d.truncated ≡ false)
    × Frames d.mem 0 d.len ns

recv_retry-quiet :
    (calls r : List Outcome) (d : Datagram)
    → 0 < d.len
    → quiet calls ≡ arrived d ∷ r
    → (calls' : List Outcome) × (recv_retry calls ≡ some (got d, calls'))
      × (quiet calls' ≡ r)
      × (length calls' < length calls)
unfolding recv_retry
recv_retry-quiet [] r d h e = cc
recv_retry-quiet (failed errno ∷ calls) r d h e = elim (Bool-cases (again errno)) [
  | inl repeats ↦
      let (calls', got_d, rest, shorter) = recv_retry-quiet calls r d h (rw repeats at e) in
      (calls', rw repeats got_d, rest, omega (arith, shorter))
  | inr fails ↦ absurd (cc (rw fails at e))
]
recv_retry-quiet (arrived x ∷ calls) r d h e =
    let same : x ≡ d = ground arith in
    let rest : quiet calls ≡ r = ground arith in
    let some_bytes : (x.len == 0) ≡ false = rw same (ground arith) in
    (calls, rw some_bytes (ap (λ (y : Datagram). some (got y, calls)) same), rest, omega arith)

pub rtnl_recvmsg-quiet :
    (malloc : ℕ → Bool) (calls r : List Outcome) (d : Datagram)
    → 0 < d.len
    → malloc d.len ≡ true
    → quiet calls ≡ arrived d ∷ arrived d ∷ r
    → (calls' : List Outcome) × (rtnl_recvmsg malloc calls ≡ some (got d, calls'))
      × (quiet calls' ≡ r)
      × (length calls' < length calls)
unfolding rtnl_recvmsg
rtnl_recvmsg-quiet malloc calls r d h memory e =
    let (calls', first, rest, shorter) = recv_retry-quiet calls (arrived d ∷ r) d h e in
    let (calls'', second, rest', shorter') = recv_retry-quiet calls' r d h rest in
    (
      calls'',
      ap (second_recv malloc) first ∙ rw memory second,
      rest',
      omega (arith, shorter, shorter'),
    )

pub recv_retry_idle : (calls : List Outcome) → quiet calls ≡ [] → recv_retry calls ≡ none
unfolding recv_retry
recv_retry_idle [] e = refl
recv_retry_idle (failed errno ∷ calls) e = elim (Bool-cases (again errno)) [
  | inl repeats ↦ rw repeats (recv_retry_idle calls (rw repeats at e))
  | inr fails ↦ absurd (cc (rw fails at e))
]
recv_retry_idle (arrived d ∷ calls) e = cc

-- How the function ends, less what `dump_fp` holds.
pub data Ending (S : Type 0) : Type 0 where
  reports : S → ℤ → Ending S
  exits : S → Ending S
  waits : S → Ending S

-- The messages of all datagrams, in order.
abbrev pub all_messages : List (Datagram × List Msg) → List (ℕ × Msg)
all_messages [] = []
all_messages ((d, ns) ∷ ds) = map (λ (n : Msg). (d.nl_pid, n)) ns ++ all_messages ds

module _ {S : Type 0} where
  abbrev pub ending : Dumped S → Ending S
  ending (returned s file r) = reports s r
  ending (exited s) = exits s
  ending (waiting s) = waits s

  -- What a verdict on all messages means for the function.
  abbrev pub concluded : Verdict S → Ending S
  concluded (goes s) = waits s
  concluded (finds s) = reports s (pos 0)
  concluded (stops s r) = reports s r
  concluded (ragged s) = exits s

  abbrev pub then_on : Verdict S → (S → Verdict S) → Verdict S
  then_on (goes s) next = next s
  then_on (finds s) next = finds s
  then_on (stops s r) next = stops s r
  then_on (ragged s) next = ragged s

  then_on-answered :
      (y : S × ℤ) (next next' k : S → Verdict S)
      → ((t : S) → next t ≡ then_on (next' t) k)
      → answered y next ≡ then_on (answered y next') k
  then_on-answered (t, pos n) next next' k h = h t
  then_on-answered (t, negsuc n) next next' k h = refl

  then_on_either :
      (b : Bool) (p q p' q' : Verdict S) (k : S → Verdict S)
      → p ≡ then_on p' k
      → q ≡ then_on q' k
      → (if b then p else q) ≡ then_on (if b then p' else q') k
  then_on_either true p q p' q' k e e' = e
  then_on_either false p q p' q' k e e' = e'

  then_on-treat :
      (rth : Handle) (a : Filter S) (n : Msg) (s : S) (c : Class) (next next' k : S → Verdict S)
      → ((t : S) → next t ≡ then_on (next' t) k)
      → treat rth a n s c next ≡ then_on (treat rth a n s c next') k
  then_on-treat rth a n s skipped next next' k h = h s
  then_on-treat rth a n s done next next' k h = refl
  then_on-treat rth a n s broken_off next next' k h = refl
  then_on-treat rth a n s wanted next next' k h =
      let y = a.filter s n in
      then_on_either rth.has_dump_fp (next s) (answered y next) (next' s) (answered y next') k (h s)
        (then_on-answered y next next' k h)

  pub deliver-append :
      (rth : Handle) (a : Filter S) (xs ys : List (ℕ × Msg)) (s : S)
      → deliver rth a (xs ++ ys) s ≡ then_on (deliver rth a xs s) (deliver rth a ys)
  unfolding deliver
  deliver-append rth a [] ys s = refl
  deliver-append rth a ((p, n) ∷ xs) ys s =
      let n' = cleared a.nc_flags n in
      then_on-treat rth a n' s (classify rth p n') (deliver rth a (xs ++ ys)) (deliver rth a xs)
        (deliver rth a ys) (deliver-append rth a xs ys)

  pub after_pass :
      (d : Datagram) (v : Pass S) (file : Bytes) (loop : S → Dumped S) (next : S → Verdict S)
      → d.truncated ≡ false
      → ((s : S) → ending (loop s) ≡ concluded (next s))
      → ending
          (after_passes d (next_filter v (λ mem f more s. all_through f more s) false) file loop)
        ≡ concluded (then_on (verdict v) next)
  after_pass d (through mem true s) file loop next t h = rw t refl
  after_pass d (through mem false s) file loop next t h = rw t (h s)
  after_pass d (found mem s) file loop next t h = refl
  after_pass d (stopped s r) file loop next t h = refl

  pub dump_fuel-deliver :
      (fuel : ℕ) (malloc : ℕ → Bool) (rth : Handle) (a : Filter S) (calls : List Outcome)
      (ds : List (Datagram × List Msg)) (s : S) (file : Bytes)
      → length calls < fuel
      → All (IsWhole malloc) ds
      → quiet calls ≡ twice (map (λ (y : Datagram × List Msg). y.0) ds)
      → ending (dump_fuel fuel malloc rth (a ∷ []) calls s file)
        ≡ concluded (deliver rth a (all_messages ds) s)
  unfolding dump_fuel pass_all pass rtnl_recvmsg deliver
  dump_fuel-deliver zero malloc rth a calls ds s file f w e = absurd (omega arith)
  dump_fuel-deliver (suc fuel) malloc rth a calls [] s file f w e =
      rw (recv_retry_idle calls e) refl
  dump_fuel-deliver (suc fuel) malloc rth a calls ((d, ns) ∷ ds) s file f ((h, k, m, t, frames), ws)
        e =
      let rest = all_messages ds in
      let file' = dump_file rth d file in
      let loop = dump_fuel fuel malloc rth (a ∷ []) in
      let (calls', received, e', shorter) =
        rtnl_recvmsg-quiet malloc calls (twice (map (λ (y : Datagram × List Msg). y.0) ds)) d h m
          e in
      ap
        (λ (o : Option (Received × List Outcome)).
          ending (dump_step malloc rth (a ∷ []) o s file loop))
        received
      ∙ after_pass d (pass rth d a d.mem s) file' (λ t'. loop calls' t' file') (deliver rth a rest)
          t (λ t'. dump_fuel-deliver fuel malloc rth a calls' ds t' file' (omega arith) ws e')
      ∙ ap (λ (v : Verdict S). concluded (then_on v (deliver rth a rest)))
          (verdict-pass_fuel rth d.nl_pid a d.len d.mem 0 d.len ns s (omega arith) k frames)
      ∙ ap concluded (sym (deliver-append rth a (map (λ (n : Msg). (d.nl_pid, n)) ns) rest s))

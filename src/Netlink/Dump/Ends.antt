-- ===== src/Netlink/Dump/Ends.antt =====
-- The results of a dump of lib/libnetlink.c, and the messages that end it.
use libiproute.Prelude.{
  ℕ, suc, ◌-◌, ◌<◌, ◌≤◌, ◌≡◌, ◌⊎◌, inl, inr, Bool-cases, refl, ◌∙◌, arith, Bool, true, false, ◌||◌,
  ◌&&◌, ◌==◌, List, [], ◌∷◌, if◌then◌else◌, Bytes, length, map, All,
}
use libiproute.Prelude.Int.{ℤ, pos, negsuc}
use Prim.Native.Nat.{bit_and}
use libiproute.Netlink.Memory.{store, get16, get32, le16}
use libiproute.Netlink.Memory.Laws.{store_off}
use libiproute.Netlink.Build.{Msg}
use libiproute.Netlink.Recv.{Datagram, Outcome, msg_flags}
use libiproute.Netlink.Dump.{
  Handle, Filter, Class, skipped, done, broken_off, wanted, classify, rtnl_dump_filter_l,
  rtnl_dump_filter_nc,
}
use libiproute.Netlink.Dump.Single.{Verdict, cleared, answered, treat, deliver}
use libiproute.Netlink.Dump.Laws.{
  quiet, twice, IsWhole, reports, ending, concluded, all_messages, dump_fuel-deliver,
}

-- A message that ends the dump, be it well or not.
abbrev pub is_end : Class → Bool
is_end skipped = false
is_end done = true
is_end broken_off = true
is_end wanted = false

abbrev pub has_end : Handle → ℕ → List (ℕ × Msg) → Bool
has_end rth nc_flags [] = false
has_end rth nc_flags ((p, n) ∷ ns) =
    is_end (classify rth p (cleared nc_flags n)) || has_end rth nc_flags ns

-- By the header alone: a message from the kernel with the number of the dump for its socket, which is
-- NLMSG_ERROR (2) or NLMSG_DONE (3).
abbrev pub ends_dump : Handle → ℕ → Msg → Bool
ends_dump rth nl_pid n =
    nl_pid == 0
    && get32 n.mem 12 == rth.local_pid
    && get32 n.mem 8 == rth.dump
    && (get16 n.mem 4 == 2 || get16 n.mem 4 == 3)

abbrev pub holds_end : Handle → List (ℕ × Msg) → Bool
holds_end rth [] = false
holds_end rth ((p, n) ∷ ns) = ends_dump rth p n || holds_end rth ns

-- The flags are none of the fields that the test reads.
cleared-fields :
    (nc_flags : ℕ) (n : Msg)
    → (get16 (cleared nc_flags n).mem 4 ≡ get16 n.mem 4)
      × (get32 (cleared nc_flags n).mem 8 ≡ get32 n.mem 8)
      × (get32 (cleared nc_flags n).mem 12 ≡ get32 n.mem 12)
unfolding get16 get32 le16
cleared-fields nc_flags n =
    let bs = le16 (bit_and (msg_flags n) (0xffff - nc_flags)) in
    let at : (i : ℕ) → (i < 6) ⊎ (8 ≤ i) → store n.mem 6 bs i ≡ n.mem i =
      λ i h. store_off n.mem 6 bs i h in
    (
      rw (at 4 (inl (omega arith)), at 5 (inl (omega arith))) refl,
      rw
          (
            at 8 (inr (omega arith)),
            at 9 (inr (omega arith)),
            at 10 (inr (omega arith)),
            at 11 (inr (omega arith)),
          )
          refl,
      rw
          (
            at 12 (inr (omega arith)),
            at 13 (inr (omega arith)),
            at 14 (inr (omega arith)),
            at 15 (inr (omega arith)),
          )
          refl,
    )

classify-end :
    (rth : Handle) (nc_flags p : ℕ) (n : Msg)
    → ends_dump rth p n ≡ true
    → is_end (classify rth p (cleared nc_flags n)) ≡ true
unfolding classify
classify-end rth nc_flags p n h =
    let (type, seq, pid) = cleared-fields nc_flags n in ground (arith, type, seq, pid, h)

holds_end-has_end :
    (rth : Handle) (nc_flags : ℕ) (ns : List (ℕ × Msg))
    → holds_end rth ns ≡ true
    → has_end rth nc_flags ns ≡ true
holds_end-has_end rth nc_flags [] h = h
holds_end-has_end rth nc_flags ((p, n) ∷ ns) h = elim (Bool-cases (ends_dump rth p n)) [
  | inl e ↦ rw (classify-end rth nc_flags p n e) refl
  | inr e ↦ ground (arith, holds_end-has_end rth nc_flags ns (rw e at h))
]

module _ {S : Type 0} where
  abbrev pub Ended : Verdict S → Type 0
  Ended v = (s : S) × (r : ℤ) × (concluded v ≡ reports s r)

  Ended-answered :
      (y : S × ℤ) (next : S → Verdict S) → ((t : S) → Ended (next t)) → Ended (answered y next)
  Ended-answered (t, pos n) next h = h t
  Ended-answered (t, negsuc n) next h = (t, negsuc n, refl)

  Ended-either : (b : Bool) (p q : Verdict S) → Ended p → Ended q → Ended (if b then p else q)
  Ended-either true p q h k = h
  Ended-either false p q h k = k

  Ended-treat :
      (rth : Handle) (a : Filter S) (n : Msg) (s : S) (c : Class) (more : Bool)
      (next : S → Verdict S)
      → (is_end c || more) ≡ true
      → (more ≡ true → (t : S) → Ended (next t))
      → Ended (treat rth a n s c next)
  Ended-treat rth a n s skipped more next e h = h e s
  Ended-treat rth a n s done more next e h = (s, pos 0, refl)
  Ended-treat rth a n s broken_off more next e h = (s, negsuc 0, refl)
  Ended-treat rth a n s wanted more next e h =
      Ended-either rth.has_dump_fp (next s) (answered (a.filter s n) next) (h e s)
        (Ended-answered (a.filter s n) next (h e))

  Ended-deliver :
      (rth : Handle) (a : Filter S) (ns : List (ℕ × Msg)) (s : S)
      → has_end rth a.nc_flags ns ≡ true
      → Ended (deliver rth a ns s)
  unfolding deliver
  Ended-deliver rth a [] s e = cc
  Ended-deliver rth a ((p, n) ∷ ns) s e =
      let n' = cleared a.nc_flags n in
      Ended-treat rth a n' s (classify rth p n') (has_end rth a.nc_flags ns) (deliver rth a ns) e
        (λ e' t. Ended-deliver rth a ns t e')

  -- A dump yields what its messages yield when they are handled one after the other: it does not
  -- matter how they are cut into datagrams, which are whole and for which there is memory, and how
  -- often a call of recvmsg is interrupted. NLMSG_DONE ends it with 0, and an error with -1 or the
  -- negative result of the filter.
  pub rtnl_dump_filter_nc-deliver :
      (malloc : ℕ → Bool) (rth : Handle) (filter : S → Msg → S × ℤ) (nc_flags : ℕ)
      (calls : List Outcome) (ds : List (Datagram × List Msg)) (s : S) (file : Bytes)
      → All (IsWhole malloc) ds
      → quiet calls ≡ twice (map (λ (y : Datagram × List Msg). y.0) ds)
      → ending (rtnl_dump_filter_nc malloc rth filter nc_flags calls s file)
        ≡ concluded
            (deliver rth (record { filter = filter; nc_flags = nc_flags }) (all_messages ds) s)
  unfolding rtnl_dump_filter_nc rtnl_dump_filter_l
  rtnl_dump_filter_nc-deliver malloc rth filter nc_flags calls ds s file w e =
      dump_fuel-deliver (suc (length calls)) malloc rth
        (record { filter = filter; nc_flags = nc_flags }) calls ds s file (omega arith) w e

  -- A dump returns, once a datagram from the kernel holds NLMSG_DONE or NLMSG_ERROR with the port of the
  -- socket and the number of the dump in its header, whatever the filter answers: here the datagrams
  -- are whole, and there is memory for each.
  pub rtnl_dump_filter_nc-ends :
      (malloc : ℕ → Bool) (rth : Handle) (filter : S → Msg → S × ℤ) (nc_flags : ℕ)
      (calls : List Outcome) (ds : List (Datagram × List Msg)) (s : S) (file : Bytes)
      → All (IsWhole malloc) ds
      → quiet calls ≡ twice (map (λ (y : Datagram × List Msg). y.0) ds)
      → holds_end rth (all_messages ds) ≡ true
      → (s' : S) × (r : ℤ) × (ending (rtnl_dump_filter_nc malloc rth filter nc_flags calls s file)
          ≡ reports s' r)
  rtnl_dump_filter_nc-ends malloc rth filter nc_flags calls ds s file w e h =
      let a : Filter S = record { filter = filter; nc_flags = nc_flags } in
      let (s', r, over) =
        Ended-deliver rth a (all_messages ds) s
          (holds_end-has_end rth nc_flags (all_messages ds) h) in
      (s', r, rtnl_dump_filter_nc-deliver malloc rth filter nc_flags calls ds s file w e ∙ over)

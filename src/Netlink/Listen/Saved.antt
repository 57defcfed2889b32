-- ===== src/Netlink/Listen/Saved.antt =====
-- A dump that is saved to a file, and the reading of the file.
use libiproute.Prelude.{
  ℕ, zero, suc, ◌<◌, ◌≡◌, refl, sym, ap, ◌∙◌, arith, Bool, true, false, ◌||◌, Option, some, List,
  [], ◌∷◌, ◌++◌, append_assoc, append-nil, Bytes, length, map, All,
}
use libiproute.Prelude.Int.{ℤ, pos}
use libiproute.Netlink.Memory.{Memory, load, align4}
use libiproute.Netlink.Build.{Msg}
use libiproute.Netlink.Recv.{Datagram, Outcome, Received}
use libiproute.Netlink.Dump.{
  Handle, Filter, Class, skipped, done, broken_off, wanted, classify, Pass, through, found, stopped,
  pass, all_through, pass_all, next_filter, after_passes, dump_file, dump_step, dump_fuel, Dumped,
  returned, rtnl_dump_filter_l, rtnl_dump_filter_nc,
}
use libiproute.Netlink.Dump.Single.{
  Verdict, goes, finds, cleared, treat, deliver, verdict, verdict-pass_fuel,
}
use libiproute.Netlink.Dump.Laws.{quiet, twice, IsWhole, rtnl_recvmsg-quiet, all_messages}
use libiproute.Netlink.Dump.Ends.{is_end, has_end}
use libiproute.Netlink.Listen.{rtnl_from_file}
use libiproute.Netlink.Listen.File.{hear_all}
use libiproute.Netlink.Listen.Laws.{IsStored, dump_bytes, contents, rtnl_from_file-dump_bytes}

-- The messages of a datagram with their sender.
abbrev pub from_sender : Datagram → List Msg → List (ℕ × Msg)
from_sender d ns = map (λ (n : Msg). (d.nl_pid, n)) ns

or_false : (p q : Bool) → (p || q) ≡ false → (p ≡ false) × (q ≡ false)
or_false p q e = (ground arith, ground arith)

has_end-parts :
    (rth : Handle) (nc_flags : ℕ) (xs ys : List (ℕ × Msg))
    → has_end rth nc_flags (xs ++ ys) ≡ false
    → (has_end rth nc_flags xs ≡ false) × (has_end rth nc_flags ys ≡ false)
has_end-parts rth nc_flags [] ys e = (refl, e)
has_end-parts rth nc_flags ((p, n) ∷ xs) ys e =
    let c = classify rth p (cleared nc_flags n) in
    let (head, tail) = or_false (is_end c) (has_end rth nc_flags (xs ++ ys)) e in
    let (left, right) = has_end-parts rth nc_flags xs ys tail in (rw head left, right)

module _ {S : Type 0} (rth : Handle) (a : Filter S) (saves : rth.has_dump_fp ≡ true) where
  treat_saves :
      (n : Msg) (s : S) (c : Class) (more : Bool) (next : S → Verdict S) (v : Verdict S)
      → (is_end c || more) ≡ false
      → (more ≡ false → next s ≡ v)
      → treat rth a n s c next ≡ v
  treat_saves n s skipped more next v e h = h e
  treat_saves n s done more next v e h = cc
  treat_saves n s broken_off more next v e h = cc
  treat_saves n s wanted more next v e h = rw saves (h e)

  -- Where nothing ends the dump, all messages are passed over.
  deliver_saves :
      (ns : List (ℕ × Msg)) (s : S)
      → has_end rth a.nc_flags ns ≡ false
      → deliver rth a ns s ≡ goes s
  unfolding deliver
  deliver_saves [] s e = refl
  deliver_saves ((p, n) ∷ ns) s e =
      let n' = cleared a.nc_flags n in
      treat_saves n' s (classify rth p n') (has_end rth a.nc_flags ns) (deliver rth a ns) (goes s) e
        (deliver_saves ns s)

  -- Up to NLMSG_DONE.
  deliver_done :
      (d : Datagram) (pre post : List Msg) (n : Msg) (s : S)
      → has_end rth a.nc_flags (from_sender d pre) ≡ false
      → classify rth d.nl_pid (cleared a.nc_flags n) ≡ done
      → deliver rth a (from_sender d (pre ++ n ∷ post)) s ≡ finds s
  unfolding deliver
  deliver_done d [] post n s e l = rw l refl
  deliver_done d (m ∷ pre) post n s e l =
      let m' = cleared a.nc_flags m in
      treat_saves m' s (classify rth d.nl_pid m') (has_end rth a.nc_flags (from_sender d pre))
        (deliver rth a (from_sender d (pre ++ n ∷ post))) (finds s) e
        (λ e'. deliver_done d pre post n s e' l)

  after_goes :
      (d : Datagram) (v : Pass S) (s : S) (file : Bytes) (loop : S → Dumped S)
      → d.truncated ≡ false
      → verdict v ≡ goes s
      → after_passes d (next_filter v (λ mem f more t. all_through f more t) false) file loop
        ≡ loop s
  after_goes d (through mem true t) s file loop w e = cc
  after_goes d (through mem false t) s file loop w e =
      let same : t ≡ s = ground arith in rw w (ap loop same)
  after_goes d (found mem t) s file loop w e = cc
  after_goes d (stopped t r) s file loop w e = cc

  after_finds :
      (d : Datagram) (v : Pass S) (s : S) (file : Bytes) (loop : S → Dumped S)
      → verdict v ≡ finds s
      → after_passes d (next_filter v (λ mem f more t. all_through f more t) false) file loop
        ≡ returned s file (pos 0)
  after_finds d (through mem true t) s file loop e = cc
  after_finds d (through mem false t) s file loop e = cc
  after_finds d (found mem t) s file loop e =
      let same : t ≡ s = ground arith in ap (λ (u : S). returned u file (pos 0)) same
  after_finds d (stopped t r) s file loop e = cc

  -- The file after the datagrams up to the one that holds NLMSG_DONE.
  dump_fuel_saves :
      (fuel : ℕ) (malloc : ℕ → Bool) (calls : List Outcome) (before : List (Datagram × List Msg))
      (d : Datagram) (pre post : List Msg) (n : Msg) (s : S) (file : Bytes)
      → length calls < fuel
      → All (IsWhole malloc) (before ++ (d, pre ++ n ∷ post) ∷ [])
      → quiet calls
        ≡ twice (map (λ (y : Datagram × List Msg). y.0) (before ++ (d, pre ++ n ∷ post) ∷ []))
      → has_end rth a.nc_flags (all_messages before) ≡ false
      → has_end rth a.nc_flags (from_sender d pre) ≡ false
      → classify rth d.nl_pid (cleared a.nc_flags n) ≡ done
      → dump_fuel fuel malloc rth (a ∷ []) calls s file
        ≡ returned s (file ++ dump_bytes (before ++ (d, pre ++ n ∷ post) ∷ [])) (pos 0)
  unfolding dump_fuel pass_all pass
  dump_fuel_saves zero malloc calls before d pre post n s file f w e b p l = absurd (omega arith)
  dump_fuel_saves (suc fuel) malloc calls [] d pre post n s file f ((h, k, m, t, frames), ws) e b p
        l =
      let loop = dump_fuel fuel malloc rth (a ∷ []) in
      let file' = dump_file rth d file in
      let (calls', received, e', shorter) = rtnl_recvmsg-quiet malloc calls [] d h m e in
      ap (λ (o : Option (Received × List Outcome)). dump_step malloc rth (a ∷ []) o s file loop)
        received
      ∙ after_finds d (pass rth d a d.mem s) s file' (λ s'. loop calls' s' file')
          (verdict-pass_fuel rth d.nl_pid a d.len d.mem 0 d.len (pre ++ n ∷ post) s (omega arith) k
              frames
            ∙ deliver_done d pre post n s p l)
      ∙ rw saves (
          ap (λ (bs : Bytes). returned s (file ++ bs) (pos 0))
            (sym (append-nil (load d.mem 0 (align4 d.len)))))
  dump_fuel_saves (suc fuel) malloc calls ((d', ns) ∷ before) d pre post n s file f
        ((h, k, m, t, frames), ws) e b p l =
      let loop = dump_fuel fuel malloc rth (a ∷ []) in
      let file' = dump_file rth d' file in
      let later = before ++ (d, pre ++ n ∷ post) ∷ [] in
      let (none_here, none_later) =
        has_end-parts rth a.nc_flags (from_sender d' ns) (all_messages before) b in
      let (calls', received, e', shorter) =
        rtnl_recvmsg-quiet malloc calls (twice (map (λ (y : Datagram × List Msg). y.0) later)) d' h
          m e in
      ap (λ (o : Option (Received × List Outcome)). dump_step malloc rth (a ∷ []) o s file loop)
        received
      ∙ after_goes d' (pass rth d' a d'.mem s) s file' (λ s'. loop calls' s' file') t
          (verdict-pass_fuel rth d'.nl_pid a d'.len d'.mem 0 d'.len ns s (omega arith) k frames
            ∙ deliver_saves (from_sender d' ns) s none_here)
      ∙ dump_fuel_saves fuel malloc calls' before d pre post n s file' (omega arith) ws e'
          none_later p l
      ∙ rw saves (
          ap (λ (bs : Bytes). returned s bs (pos 0))
            (append_assoc file (load d'.mem 0 (align4 d'.len)) (dump_bytes later)))

-- With dump_fp set, a dump calls no filter and returns 0 at NLMSG_DONE; the file then holds the
-- datagrams, and rtnl_from_file hands their messages to a handler, one after the other. The datagrams
-- are whole, with memory for each and no message above 16384 bytes; nothing ends the dump before.
pub rtnl_from_file-rtnl_dump_filter_nc :
    {S T : Type 0} (malloc : ℕ → Bool) (rth : Handle) (filter : S → Msg → S × ℤ) (nc_flags : ℕ)
    (calls : List Outcome) (before : List (Datagram × List Msg)) (d : Datagram)
    (pre post : List Msg) (n : Msg) (s : S) (handler : T → Bytes → T × ℤ) (buf : Memory) (t : T)
    → rth.has_dump_fp ≡ true
    → All (IsWhole malloc) (before ++ (d, pre ++ n ∷ post) ∷ [])
    → All IsStored (before ++ (d, pre ++ n ∷ post) ∷ [])
    → quiet calls
      ≡ twice (map (λ (y : Datagram × List Msg). y.0) (before ++ (d, pre ++ n ∷ post) ∷ []))
    → has_end rth nc_flags (all_messages before) ≡ false
    → has_end rth nc_flags (from_sender d pre) ≡ false
    → classify rth d.nl_pid (cleared nc_flags n) ≡ done
    → (file : Bytes) × (rtnl_dump_filter_nc malloc rth filter nc_flags calls s []
        ≡ returned s file (pos 0))
      × (rtnl_from_file handler buf file t
          ≡ hear_all handler
              (contents (before ++ (d, pre ++ n ∷ post) ∷ []))
              t
              (λ u. some (u, pos 0)))
unfolding rtnl_dump_filter_nc rtnl_dump_filter_l
rtnl_from_file-rtnl_dump_filter_nc malloc rth filter nc_flags calls before d pre post n s handler
      buf t saves w st e b p l =
    let ds = before ++ (d, pre ++ n ∷ post) ∷ [] in
    (
      dump_bytes ds,
      dump_fuel_saves rth (record { filter = filter; nc_flags = nc_flags }) saves
          (suc (length calls)) malloc calls before d pre post n s [] (omega arith) w e b p l,
      rtnl_from_file-dump_bytes handler buf ds t st,
    )

-- ===== src/Address/Hosts/Laws.antt =====
-- The table of host names in lib/utils.c, and the answers that it stands for.
use libiproute.Prelude.{
  ℕ, ◌≡◌, refl, sym, ap, ◌∙◌, arith, Bool, true, false, ◌&&◌, not, Option, none, some, List, [],
  ◌∷◌, ◌==◌, if◌then◌else◌, Bytes, bytes_eq, bytes_eq→eq, All, Bool-cases, Option-cases, inl, inr,
}
use libiproute.Address.Hosts.{
  NameRec, HostTable, Host, unmapped, host_slot, is_host, find_host, put_first, name_or_text,
  resolve_address, format_host_r,
}
use libiproute.Address.{af_byte_len}
use libiproute.Address.Text.Printer.{AddrText, shown, rt_addr_n2a_r}

module _ (gethostbyaddr : Host → Option Bytes) where
  -- What is kept of a host is what was answered for it.
  abbrev pub IsAnswer : NameRec → Type 0
  IsAnswer n = n.name ≡ gethostbyaddr (n.family, n.data_bytes)

  abbrev pub Answers : HostTable → Type 0
  Answers nht = (slot : ℕ) → All IsAnswer (nht slot)

  is_host-eq : (n : NameRec) (host : Host) → is_host n host ≡ true → (n.family, n.data_bytes) ≡ host
  is_host-eq n (af, d) h =
      let same_family : n.family ≡ af = ground arith in
      let same_data : bytes_eq n.data_bytes d ≡ true = ground arith in
      ap (λ (f : ℕ). (f, n.data_bytes)) same_family
      ∙ ap (λ (b : Bytes). (af, b)) (bytes_eq→eq n.data_bytes d same_data)

  abbrev kept : Option (Option Bytes) → Option Bytes
  kept none = none
  kept (some name) = name

  put_first-Answers :
      (nht : HostTable) (slot : ℕ) (host : Host)
      → Answers nht
      → Answers (
          put_first nht slot
            (record { name = gethostbyaddr host; family = host.0; data_bytes = host.1 }))
  put_first-Answers nht slot host h i = elim (Bool-cases (i == slot)) [
    | inl e ↦ rw e (refl, h i)
    | inr e ↦ rw e (h i)
  ]

  find_host-answer :
      (chain : List NameRec) (host : Host) (name : Option Bytes)
      → All IsAnswer chain
      → find_host chain host ≡ some name
      → name ≡ gethostbyaddr host
  unfolding find_host
  find_host-answer [] host name h e = cc
  find_host-answer (n ∷ chain) host name (h, hs) e = elim (Bool-cases (is_host n host)) [
    | inr other ↦ find_host-answer chain host name hs (rw other at e)
    | inl this ↦
        let found : some n.name ≡ some name = rw this at e in
        ap (λ (o : Option (Option Bytes)). kept o) (sym found)
        ∙ h
        ∙ ap gethostbyaddr (is_host-eq n host this)
  ]

  pub resolve_address-Answers :
      (nht : HostTable) (af len : ℕ) (addr : Bytes)
      → Answers nht
      → ((resolve_address gethostbyaddr nht af len addr).1 ≡ gethostbyaddr (unmapped af len addr))
        × Answers ((resolve_address gethostbyaddr nht af len addr).0)
  unfolding resolve_address
  resolve_address-Answers nht af len addr h =
      let host = unmapped af len addr in
      let slot = host_slot host.1 in
      elim (Option-cases (find_host (nht slot) host)) [
        | inr (name, e) ↦
            rw (e, resolve_address) (find_host-answer (nht slot) host name (h slot) e, h)
        | inl e ↦ rw (e, resolve_address) (refl, put_first-Answers nht slot host h)
      ]

  abbrev named : Option Bytes → AddrText → AddrText
  named none t = t
  named (some name) t = shown name

  module _ (inet_ntop : ℕ → Bytes → ℕ → Option Bytes) where
    -- The text of a host without a table of names.
    abbrev pub host_text : Bool → ℕ → ℕ → Bytes → ℕ → AddrText
    host_text resolve_hosts af len addr buflen =
        let len' : ℕ = if len == 0 then af_byte_len af else len in
        if resolve_hosts && not (len' == 0)
        then named (gethostbyaddr (unmapped af len' addr))
            (rt_addr_n2a_r inet_ntop af len' addr buflen)
        else rt_addr_n2a_r inet_ntop af len addr buflen

    shows_name :
        (r : HostTable × Option Bytes) (name : Option Bytes) (t : AddrText)
        → (r.1 ≡ name) × Answers r.0
        → ((name_or_text r t).1 ≡ named name t) × Answers ((name_or_text r t).0)
    shows_name (nht, none) name t (e, h) = (ap (λ (o : Option Bytes). named o t) e, h)
    shows_name (nht, some n) name t (e, h) = (ap (λ (o : Option Bytes). named o t) e, h)

    length_kept :
        (resolve_hosts : Bool) (n len : ℕ)
        → (resolve_hosts && not ((if len == 0 then n else len) == 0)) ≡ false
        → (if resolve_hosts then (if len == 0 then n else len) else len) ≡ len
    length_kept false n len h = refl
    length_kept true n len h = ground arith

    -- From a table of answers, the text that format_host_r shows is the one without a table: of an
    -- address that is resolved the name that gethostbyaddr answers, if any, and otherwise what
    -- rt_addr_n2a_r shows. It leaves a table of answers, so that this holds of all calls that follow.
    pub format_host_r-host_text :
        (resolve_hosts : Bool) (nht : HostTable) (af len : ℕ) (addr : Bytes) (buflen : ℕ)
        → Answers nht
        → ((format_host_r gethostbyaddr inet_ntop resolve_hosts nht af len addr buflen).1
            ≡ host_text resolve_hosts af len addr buflen)
          × Answers ((format_host_r gethostbyaddr inet_ntop resolve_hosts nht af len addr buflen).0)
    unfolding format_host_r
    format_host_r-host_text resolve_hosts nht af len addr buflen h =
        let len' : ℕ = if len == 0 then af_byte_len af else len in
        elim (Bool-cases (resolve_hosts && not (len' == 0))) [
          | inl e ↦
              rw (e, format_host_r, host_text)
                (shows_name (resolve_address gethostbyaddr nht af len' addr)
                  (gethostbyaddr (unmapped af len' addr))
                  (rt_addr_n2a_r inet_ntop af len' addr buflen)
                  (resolve_address-Answers nht af len' addr h))
          | inr e ↦
              rw (e, format_host_r, host_text)
                (
                  ap (λ (l : ℕ). rt_addr_n2a_r inet_ntop af l addr buflen)
                      (length_kept resolve_hosts (af_byte_len af) len e),
                  h,
                )
        ]

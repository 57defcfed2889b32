-- ===== src/Address/Hosts/Runs.antt =====
-- The names of hosts in lib/utils.c at concrete inputs: 10.0.0.1 has a name, and no other host.
use libiproute.Prelude.{
  ◌≡◌, refl, true, Option, none, some, [], ◌∷◌, Bytes, codes, bytes_eq, ℕ, if◌then◌else◌,
}
use libiproute.Address.{af_inet, af_inet6, word}
use libiproute.Address.Hosts.{Host, HostTable, find_host, format_host_r, resolve_address}
use libiproute.Address.Hosts.Laws.{Answers, host_text, format_host_r-host_text}

abbrev one_host : Host → Option Bytes
one_host (af, addr) = if bytes_eq addr (10 ∷ 0 ∷ 0 ∷ 1 ∷ []) then some (codes "gateway") else none

no_texts : ℕ → Bytes → ℕ → Option Bytes
no_texts af addr buflen = none

no_hosts : HostTable
no_hosts slot = []

no_hosts-Answers : Answers one_host no_hosts
unfolding no_hosts
no_hosts-Answers slot = tt

abbrev mapped_gateway : Bytes
mapped_gateway = 0 ∷ 0 ∷ 0 ∷ 0 ∷ 0 ∷ 0 ∷ 0 ∷ 0 ∷ 0 ∷ 0 ∷ 0xff ∷ 0xff ∷ 10 ∷ 0 ∷ 0 ∷ 1 ∷ []

mapped_is_named :
    (resolve_address one_host no_hosts af_inet6 16 mapped_gateway).1 ≡ some (codes "gateway")
unfolding resolve_address find_host no_hosts bytes_eq word
mapped_is_named = refl

abbrev after_gateway : HostTable
after_gateway = (format_host_r one_host no_texts true no_hosts af_inet6 0 mapped_gateway 64).0

after_gateway-Answers : Answers one_host after_gateway
after_gateway-Answers =
    (format_host_r-host_text one_host no_texts true no_hosts af_inet6 0 mapped_gateway 64
      no_hosts-Answers).1

-- The address inside the mapped one, which is in the table by then.
format_host_r-host_text_example :
    ((format_host_r one_host no_texts true after_gateway af_inet 4 (10 ∷ 0 ∷ 0 ∷ 1 ∷ []) 64).1
      ≡ host_text one_host no_texts true af_inet 4 (10 ∷ 0 ∷ 0 ∷ 1 ∷ []) 64)
    × Answers one_host
        ((format_host_r one_host no_texts true after_gateway af_inet 4 (10 ∷ 0 ∷ 0 ∷ 1 ∷ []) 64).0)
format_host_r-host_text_example =
    format_host_r-host_text one_host no_texts true after_gateway af_inet 4 (10 ∷ 0 ∷ 0 ∷ 1 ∷ []) 64
      after_gateway-Answers

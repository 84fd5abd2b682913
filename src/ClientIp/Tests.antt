-- ===== src/ClientIp/Tests.antt =====
-- Runs of the resolution of client addresses, and its theorems at concrete inputs.
use grelmicro.Prelude.{
  ◌+◌, ◌*◌, ◌^◌, ◌≤◌, ◌≡◌, ◌⊎◌, refl, true, false, Option, none, some, List, [], ◌∷◌, length, take,
  ℕ, zero, suc, ap, arith, nat_eq,
}
use grelmicro.Text.{Text, split, lstrip, rstrip}
use grelmicro.ClientIp.{
  IpAddress, v4, v4_network, v6_network, canonical_network, TrustedProxies, is_trusted,
}
use grelmicro.ClientIp.Header.{
  max_str_digits, all_digits, parts, value_error, comma, collect_header, same_text, forwarded_for,
  split_host_port, entries_of, nonempty, with_port, count,
}
use grelmicro.ClientIp.Header.HostPort.{plain_port, split_host_port-print_form}
use grelmicro.ClientIp.Resolve.{ClientAddress, resolved, untrusted_peer, resolve_peer, from_peer}
use grelmicro.ClientIp.Walk.{Sound, walked_of, resolve_peer_lem}
use grelmicro.ClientIp.Padding.{resolve_peer-prepended}
use grelmicro.ClientIp.Warnings.{max_warned_peers, warn_all, no_warnings, AllNew, warn_all_bounded}

-- Addresses are single digits here: 1 and 2 are proxies.
abbrev parse : Text → Option IpAddress
parse [] = none
parse (c ∷ []) = some (v4 (c + 167772160))
parse (c ∷ d ∷ s) = none

abbrev trusted : TrustedProxies
trusted = record {
  networks = v4_network (167772160 + 48) 29 ∷ [];
  max_hops = none;
  max_entries = 64;
  max_header_bytes = 8192;
}

-- An IPv4-mapped network is its IPv4 form.
mapped_network :
    canonical_network (v6_network (65535 * 2 ^ 32 + 167772160) 104) ≡ v4_network 167772160 8
mapped_network = refl

abbrev proxy : IpAddress
proxy = v4 (167772160 + 49)

-- "8,2" from a proxy, and "7,8,2", where the caller has sent the 7.
abbrev headers : List (Text × Text)
headers = (forwarded_for, 56 ∷ comma ∷ 50 ∷ []) ∷ []

abbrev spoofed : List (Text × Text)
spoofed = (forwarded_for, 55 ∷ []) ∷ (forwarded_for, 56 ∷ comma ∷ 50 ∷ []) ∷ []

abbrev eight : ClientAddress
eight = record { ip = v4 (167772160 + 56); port = none; reason = resolved; hops = 1 }

resolves : resolve_peer parse trusted proxy none headers ≡ some eight
unfolding resolve_peer is_trusted collect_header same_text entries_of nonempty split lstrip rstrip
    take split_host_port
resolves = refl

collected : collect_header headers 8192 ≡ some (56 ∷ comma ∷ 50 ∷ [])
unfolding collect_header same_text
collected = refl

collected_spoofed : collect_header spoofed 8192 ≡ some (55 ∷ comma ∷ 56 ∷ comma ∷ 50 ∷ [])
unfolding collect_header same_text
collected_spoofed = refl

resolve_peer-prepended_example : resolve_peer parse trusted proxy none spoofed ≡ some eight
resolve_peer-prepended_example =
    resolve_peer-prepended parse trusted proxy none (55 ∷ []) (56 ∷ comma ∷ 50 ∷ []) headers spoofed
      eight collected collected_spoofed resolves refl

resolve_peer_lem_example :
    (let r = resolve_peer parse trusted proxy none headers in
      ((is_trusted trusted proxy ≡ false)
        × (r ≡ some (from_peer parse trusted proxy none untrusted_peer 0)))
      ⊎ ((is_trusted trusted proxy ≡ true)
          × Sound parse trusted proxy none r
              (walked_of parse trusted proxy none (collect_header headers 8192))
              0))
resolve_peer_lem_example = resolve_peer_lem parse trusted proxy none headers

-- "h:80"
split_host_port-print_form_example :
    split_host_port (104 ∷ 58 ∷ 56 ∷ 48 ∷ []) ≡ parts (104 ∷ []) (some 80)
unfolding count with_port
split_host_port-print_form_example =
    split_host_port-print_form (plain_port (104 ∷ []) (56 ∷ 48 ∷ []))
      ((refl, refl), (refl, (refl, (omega arith, omega arith))))

warn_all_bounded_example :
    (let log =
        warn_all parse trusted
          (record { client = some (57 ∷ [], none); headers = headers } ∷ [])
          (no_warnings trusted) in
      (length log.logged ≤ max_warned_peers) × AllNew log.logged)
warn_all_bounded_example =
    warn_all_bounded parse trusted
      (record { client = some (57 ∷ [], none); headers = headers } ∷ [])

-- With no entries allowed, all of them are walked.
no_entries_allowed :
    resolve_peer parse (record trusted { max_entries = 0 }) proxy none headers ≡ some eight
unfolding resolve_peer is_trusted collect_header same_text entries_of nonempty split lstrip rstrip
    take split_host_port
no_entries_allowed = refl

-- A port of more digits than `int` reads, here all of them 0.
abbrev zeros : ℕ → Text
zeros zero = []
zeros (suc n) = 48 ∷ zeros n

all_digits-zeros : (n : ℕ) → all_digits (zeros n) ≡ true
unfolding all_digits
all_digits-zeros zero = refl
all_digits-zeros (suc n) = all_digits-zeros n

length-zeros : (n : ℕ) → length (zeros n) ≡ n
length-zeros zero = refl
length-zeros (suc n) = ap suc (length-zeros n)

-- Such a port makes `_split_host_port` raise ValueError.
raises_value_error :
    (host : Text) (n : ℕ) → max_str_digits ≤ n → with_port host (zeros (suc n)) ≡ value_error
unfolding with_port
raises_value_error host n le = ground (arith, all_digits-zeros (suc n), length-zeros (suc n), le)

-- ===== src/ClientIp/Resolve.antt =====
-- `resolve_client_address` of clientip.py, its warnings and the middleware. `parse` is
-- `ipaddress.ip_address`, and none where it raises ValueError.
use grelmicro.Prelude.{
  ℕ, suc, Bool, true, false, not, Option, none, some, List, [], ◌∷◌, ltb, nat_beq, if◌then◌else◌,
  length, take,
}
use grelmicro.Text.{Text}
use grelmicro.ClientIp.{IpAddress, canonical, TrustedProxies, is_trusted}
use grelmicro.ClientIp.Header.{
  HostAndPort, not_split, value_error, parts, split_host_port, collect_header, entries_of,
}
use mathlib.Core.List.{reverse}

pub data ClientAddressReason : Type 0 where
  resolved no_forwarded_header untrusted_peer chain_exhausted : ClientAddressReason
  hop_limit malformed_entry header_too_large too_many_entries : ClientAddressReason

pub record ClientAddress : Type 0 where
  pub ip : IpAddress
  pub port : Option ℕ
  pub reason : ClientAddressReason
  pub hops : ℕ

-- `forwarded`
abbrev pub forwarded : ClientAddress → Bool
forwarded a = elim a.reason [ resolved ↦ true | _ ↦ false ]

-- `degraded`
abbrev pub degraded : ClientAddress → Bool
degraded a = elim a.reason [
  | resolved ↦ false
  | no_forwarded_header ↦ false
  | untrusted_peer ↦ false
  | _ ↦ true
]

-- What the loop makes of an entry: it is malformed, `_split_host_port` raises ValueError, or it has an
-- address, with a port or without.
pub data Parsed : Type 0 where
  unreadable raising : Parsed
  located : IpAddress → Option ℕ → Parsed

-- `scope["client"]` and `scope["headers"]`.
pub record Scope : Type 0 where
  pub client : Option (Text × Option ℕ)
  pub headers : List (Text × Text)

-- None, ValueError, or a client address.
pub data Resolution : Type 0 where
  no_client raised : Resolution
  client_at : ClientAddress → Resolution

abbrev pub is_past : Option ℕ → ℕ → Bool
is_past none hops = false
is_past (some max_hops) hops = ltb max_hops hops

module _ (parse : Text → Option IpAddress) (trusted : TrustedProxies) where
  -- An entry's address and port.
  abbrev pub parse_host : HostAndPort → Parsed
  parse_host not_split = unreadable
  parse_host value_error = raising
  parse_host (parts host port) = elim (parse host) [
    | none ↦ unreadable
    | some a ↦ located (canonical a) port
  ]

  abbrev pub parse_entry : Text → Parsed
  parse_entry entry = parse_host (split_host_port entry)

  module _ (peer : IpAddress) (port : Option ℕ) where
    abbrev pub from_peer : ClientAddressReason → ℕ → ClientAddress
    from_peer reason hops = record { ip = peer; port = port; reason = reason; hops = hops }

    -- The loop over the entries, from the last to the first; none where ValueError leaves it.
    unfoldable pub walk : ClientAddressReason → ℕ → List Text → Option ClientAddress
    walk exhausted hops [] = some (from_peer exhausted hops)
    walk exhausted hops (entry ∷ entries) =
        let rest = walk exhausted (suc hops) entries in
        elim (parse_entry entry) [
          | unreadable ↦ some (from_peer malformed_entry hops)
          | raising ↦ none
          | located a entry_port ↦
              if not (is_trusted trusted a)
              then some (record { ip = a; port = entry_port; reason = resolved; hops = hops })
              else if is_past trusted.max_hops (suc hops)
              then some (from_peer hop_limit (suc hops))
              else rest
        ]

    -- The entries that are walked, the last one first: `entries[-max_entries:]` where there are more,
    -- which is all of them where `max_entries` is 0.
    abbrev pub walked : List Text → List Text
    walked entries =
        if nat_beq trusted.max_entries 0
        then reverse entries
        else take trusted.max_entries (reverse entries)

    abbrev pub exhausted_by : List Text → ClientAddressReason
    exhausted_by entries =
        if ltb trusted.max_entries (length entries) then too_many_entries else chain_exhausted

    abbrev pub from_entries : List Text → Option ClientAddress
    from_entries [] = some (from_peer no_forwarded_header 0)
    from_entries (entry ∷ entries) =
        walk (exhausted_by (entry ∷ entries)) 0 (walked (entry ∷ entries))

    abbrev pub from_header : Option Text → Option ClientAddress
    from_header none = some (from_peer header_too_large 0)
    from_header (some raw) = from_entries (entries_of raw)

    unfoldable pub resolve_peer : List (Text × Text) → Option ClientAddress
    unfolding walk
    resolve_peer headers =
        if not (is_trusted trusted peer)
        then some (from_peer untrusted_peer 0)
        else from_header (collect_header headers trusted.max_header_bytes)

  abbrev pub returned : Option ClientAddress → Resolution
  returned none = raised
  returned (some a) = client_at a

  abbrev pub resolve_client : Option (Text × Option ℕ) → List (Text × Text) → Resolution
  resolve_client none headers = no_client
  resolve_client (some (host, port)) headers = elim (parse host) [
    | none ↦ no_client
    | some a ↦ returned (resolve_peer (canonical a) port headers)
  ]

  -- What `resolve_client_address` comes to; it warns as well.
  unfoldable pub resolve_client_address : Scope → Resolution
  unfolding resolve_peer
  resolve_client_address scope = resolve_client scope.client scope.headers

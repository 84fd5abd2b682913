-- ===== src/ClientIp/Warnings.antt =====
-- The warnings of clientip.py about untrusted peers that send `X-Forwarded-For`, and the middleware.
use grelmicro.Prelude.{
  ℕ, ◌≤◌, ◌<◌, ◌≡◌, refl, ap, sym, ◌∙◌, Bool, true, false, not, ◌&&◌, ◌||◌, Option, none, some,
  List, [], ◌∷◌, leb, nat_beq, if◌then◌else◌, length, arith, Bool-cases, inl, inr,
}
use grelmicro.Text.{Text, strip, starts_text}
use grelmicro.ClientIp.{IpAddress, IpNetwork, v4, v6, canonical, TrustedProxies, is_trusted}
use grelmicro.ClientIp.Header.{is_forwarded_for}
use grelmicro.ClientIp.Resolve.{
  Scope, ClientAddress, Resolution, no_client, raised, client_at, resolve_client_address,
}

abbrev pub max_warned_peers : ℕ
max_warned_peers = 8

abbrev pub same_scope : Option ℕ → Option ℕ → Bool
same_scope none none = true
same_scope (some s) (some t) = nat_beq s t
same_scope _ _ = false

abbrev pub same_address : IpAddress → IpAddress → Bool
same_address (v4 n) (v4 m) = nat_beq n m
same_address (v6 n s) (v6 m t) = nat_beq n m && same_scope s t
same_address _ _ = false

-- `peer in warned`
unfoldable pub is_warned : IpAddress → List IpAddress → Bool
is_warned a [] = false
is_warned a (w ∷ ws) = same_address w a || is_warned a ws

-- A header with a value that is not blank.
unfoldable pub sends_forwarded : List (Text × Text) → Bool
sends_forwarded [] = false
sends_forwarded ((name, value) ∷ headers) =
    (is_forwarded_for name && starts_text (strip value)) || sends_forwarded headers

-- `_warned_peers` of the trusted set, which is none without networks and once enough peers were
-- reported, and the peers whose warnings are logged, the last one first.
pub record Log : Type 0 where
  pub warned_peers : Option (List IpAddress)
  pub logged : List IpAddress

abbrev pub initial_peers : List IpNetwork → Option (List IpAddress)
initial_peers [] = none
initial_peers (n ∷ ns) = some []

abbrev pub no_warnings : TrustedProxies → Log
no_warnings trusted = record { warned_peers = initial_peers trusted.networks; logged = [] }

-- `_warn_untrusted_peer`
unfoldable pub warn_untrusted_peer : IpAddress → List (Text × Text) → List IpAddress → Log → Log
unfolding sends_forwarded
warn_untrusted_peer peer headers warned log =
    if not (sends_forwarded headers) then log else record {
      warned_peers =
          if leb max_warned_peers (length (peer ∷ warned)) then none else some (peer ∷ warned);
      logged = peer ∷ log.logged;
    }

abbrev pub warn_if_new : IpAddress → List (Text × Text) → Option (List IpAddress) → Log → Log
unfolding is_warned
warn_if_new peer headers none log = log
warn_if_new peer headers (some warned) log =
    if is_warned peer warned then log else warn_untrusted_peer peer headers warned log

module _ (parse : Text → Option IpAddress) (trusted : TrustedProxies) where
  abbrev pub warn_peer : Option IpAddress → List (Text × Text) → Log → Log
  warn_peer none headers log = log
  warn_peer (some a) headers log =
      if is_trusted trusted (canonical a)
      then log
      else warn_if_new (canonical a) headers log.warned_peers log

  abbrev pub warn_client : Option (Text × Option ℕ) → List (Text × Text) → Log → Log
  warn_client none headers log = log
  warn_client (some (host, port)) headers log = warn_peer (parse host) headers log

  -- The warning of a call of `resolve_client_address`.
  unfoldable pub warn : Scope → Log → Log
  unfolding warn_untrusted_peer
  warn scope log = warn_client scope.client scope.headers log

  unfoldable pub warn_all : List Scope → Log → Log
  unfolding warn
  warn_all [] log = log
  warn_all (scope ∷ scopes) log = warn_all scopes (warn scope log)

-- The type of a scope, and what the middleware writes to it: the state and the client, which is the
-- resolved address and its port, or 0.
pub data ScopeType : Type 0 where
  http websocket other : ScopeType

pub record Request : Type 0 where
  pub scope_type : ScopeType
  pub scope : Scope
  pub client_address : Option ClientAddress
  pub rewritten : Option (IpAddress × ℕ)

abbrev pub port_or_zero : Option ℕ → ℕ
port_or_zero none = 0
port_or_zero (some port) = port

abbrev pub resolved_into : Bool → Request → Resolution → Option Request
resolved_into overwrite r no_client = some r
resolved_into overwrite r raised = none
resolved_into overwrite r (client_at a) = some (record r {
  client_address = some a;
  rewritten = if overwrite then some (a.ip, port_or_zero a.port) else r.rewritten;
})

-- `ClientAddressMiddleware.__call__`, up to the call of the application; none is ValueError.
unfoldable pub middleware :
    (Text → Option IpAddress) → TrustedProxies → Bool → Request → Option Request
middleware parse trusted overwrite r = elim r.scope_type [
  | other ↦ some r
  | http ↦ resolved_into overwrite r (resolve_client_address parse trusted r.scope)
  | websocket ↦ resolved_into overwrite r (resolve_client_address parse trusted r.scope)
]

-- No peer stands twice.
abbrev pub AllNew : List IpAddress → Type 0
AllNew [] = Unit
AllNew (a ∷ rest) = (is_warned a rest ≡ false) × AllNew rest

abbrev Covers : Option (List IpAddress) → List IpAddress → Type 0
Covers none logged = length logged ≤ max_warned_peers
Covers (some warned) logged = (warned ≡ logged) × (length logged < max_warned_peers)

abbrev IsBounded : Log → Type 0
IsBounded log = Covers log.warned_peers log.logged × AllNew log.logged

Covers-le :
    (warned : Option (List IpAddress)) (logged : List IpAddress)
    → Covers warned logged
    → length logged ≤ max_warned_peers
Covers-le none logged h = h
Covers-le (some warned) logged h = omega (arith, h.1)

initial-Covers : (ns : List IpNetwork) → Covers (initial_peers ns) []
initial-Covers [] = omega arith
initial-Covers (n ∷ ns) = (refl, omega arith)

Covers-cons :
    (peer : IpAddress) (warned logged : List IpAddress)
    → warned ≡ logged
    → length logged < max_warned_peers
    → Covers
        (if leb max_warned_peers (length (peer ∷ warned)) then none else some (peer ∷ warned))
        (peer ∷ logged)
Covers-cons peer warned logged same few =
    elim (Bool-cases (leb max_warned_peers (length (peer ∷ warned)))) [
      | inl full ↦ rw full (omega arith)
      | inr room ↦ rw room (ap (λ ps. peer ∷ ps) same, ground (arith, room, ap length same))
    ]

warn_if_new-IsBounded :
    (peer : IpAddress) (headers : List (Text × Text)) (warned : Option (List IpAddress)) (log : Log)
    → log.warned_peers ≡ warned
    → IsBounded log
    → IsBounded (warn_if_new peer headers warned log)
unfolding warn_untrusted_peer warn_if_new
warn_if_new-IsBounded peer headers none log e h = h
warn_if_new-IsBounded peer headers (some warned) log e (covers, new) =
    let (same, few) = rw e at covers in
    elim (Bool-cases (is_warned peer warned)) [
      | inl known ↦ rw known (covers, new)
      | inr fresh ↦ elim (Bool-cases (sends_forwarded headers)) [
        | inr silent ↦ rw (fresh, silent) (covers, new)
        | inl loud ↦
            rw (fresh, loud)
              (
                Covers-cons peer warned log.logged same few,
                (ap (is_warned peer) (sym same) ∙ fresh, new),
              )
      ]
    ]

module _ (parse : Text → Option IpAddress) (trusted : TrustedProxies) where
  warn_peer-IsBounded :
      (a : Option IpAddress) (headers : List (Text × Text)) (log : Log)
      → IsBounded log
      → IsBounded (warn_peer parse trusted a headers log)
  warn_peer-IsBounded none headers log h = h
  warn_peer-IsBounded (some a) headers log h =
      elim (Bool-cases (is_trusted trusted (canonical a))) [
        | inl known ↦ rw known h
        | inr untrusted ↦
            rw untrusted (warn_if_new-IsBounded (canonical a) headers log.warned_peers log refl h)
      ]

  warn_client-IsBounded :
      (client : Option (Text × Option ℕ)) (headers : List (Text × Text)) (log : Log)
      → IsBounded log
      → IsBounded (warn_client parse trusted client headers log)
  warn_client-IsBounded none headers log h = h
  warn_client-IsBounded (some (host, port)) headers log h =
      warn_peer-IsBounded (parse host) headers log h

  warn_all-IsBounded :
      (scopes : List Scope) (log : Log)
      → IsBounded log
      → IsBounded (warn_all parse trusted scopes log)
  unfolding warn_all
  warn_all-IsBounded [] log h = h
  warn_all-IsBounded (scope ∷ scopes) log h =
      warn_all-IsBounded scopes (warn parse trusted scope log)
        (warn_client-IsBounded scope.client scope.headers log h)

  -- Whatever is requested, at most eight peers are reported, and no peer twice.
  pub warn_all_bounded :
      (scopes : List Scope)
      → (let log = warn_all parse trusted scopes (no_warnings trusted) in
          (length log.logged ≤ max_warned_peers) × AllNew log.logged)
  warn_all_bounded scopes =
      let log = warn_all parse trusted scopes (no_warnings trusted) in
      let (covers, new) =
        warn_all-IsBounded scopes (no_warnings trusted) (initial-Covers trusted.networks, tt) in
      (Covers-le log.warned_peers log.logged covers, new)

-- ===== src/ClientIp/Walk.antt =====
-- Which address `resolve_client_address` of clientip.py returns.
use grelmicro.Prelude.{
  ℕ, suc, ◌+◌, ◌≡◌, ◌≢◌, refl, ap, true, false, Option, none, some, List, [], ◌∷◌, ◌++◌,
  if◌then◌else◌, length, arith, Bool-cases, inl, inr, ◌⊎◌,
}
use grelmicro.Text.{Text}
use grelmicro.ClientIp.{IpAddress, TrustedProxies, is_trusted}
use grelmicro.ClientIp.Header.{collect_header, entries_of}
use grelmicro.ClientIp.Resolve.{
  ClientAddressReason, resolved, untrusted_peer, hop_limit, malformed_entry, ClientAddress, Parsed,
  unreadable, raising, located, is_past, parse_entry, from_peer, walk, walked, exhausted_by,
  from_entries, from_header, resolve_peer,
}

pub Parsed-cases :
    (x : Parsed)
    → (x ≡ unreadable) ⊎ ((x ≡ raising) ⊎ ((a : IpAddress) × ((p : Option ℕ) × (x ≡ located a p))))
Parsed-cases unreadable = inl refl
Parsed-cases raising = inr (inl refl)
Parsed-cases (located a p) = inr (inr (a, (p, refl)))

module _ (parse : Text → Option IpAddress) (trusted : TrustedProxies) (peer : IpAddress)
    (port : Option ℕ) where
  -- The entries that are walked all belong to trusted proxies.
  abbrev pub AllTrusted : List Text → Type 0
  AllTrusted [] = Unit
  AllTrusted (entry ∷ entries) =
      ((a : IpAddress) × ((p : Option ℕ) × ((parse_entry parse trusted entry ≡ located a p)
            × (is_trusted trusted a ≡ true))))
      × AllTrusted entries

  -- An address that is not trusted, of an entry behind trusted ones; or the peer's, for a reason other
  -- than `resolved`.
  abbrev pub Vouched : List Text → ClientAddress → ℕ → Type 0
  Vouched entries r hops =
      (passed : List Text) × ((entry : Text) × ((rest : List Text) × ((entries
              ≡ passed ++ (entry ∷ rest))
            × ((AllTrusted passed × (r.hops ≡ hops + length passed))
                × ((parse_entry parse trusted entry ≡ located r.ip r.port)
                    × (is_trusted trusted r.ip ≡ false))))))

  abbrev pub IsPeer : ClientAddress → Type 0
  IsPeer r = (r.ip ≡ peer) × (r.port ≡ port)

  abbrev pub go : ClientAddressReason → ℕ → List Text → Option ClientAddress
  go = walk parse trusted peer port

  module _ (exhausted : ClientAddressReason) (hops : ℕ) (entry : Text) (entries : List Text) where
    pub walk-malformed :
        parse_entry parse trusted entry ≡ unreadable
        → go exhausted hops (entry ∷ entries)
          ≡ some (from_peer parse trusted peer port malformed_entry hops)
    unfolding walk
    walk-malformed e = ground (arith, e)

    pub walk_raising :
        parse_entry parse trusted entry ≡ raising → go exhausted hops (entry ∷ entries) ≡ none
    unfolding walk
    walk_raising e = ground (arith, e)

    pub walk-untrusted :
        (a : IpAddress) (p : Option ℕ)
        → parse_entry parse trusted entry ≡ located a p
        → is_trusted trusted a ≡ false
        → go exhausted hops (entry ∷ entries)
          ≡ some (record { ip = a; port = p; reason = resolved; hops = hops })
    unfolding walk
    walk-untrusted a p e untrusted = ground (arith, e, untrusted)

    pub walk-trusted :
        (a : IpAddress) (p : Option ℕ)
        → parse_entry parse trusted entry ≡ located a p
        → is_trusted trusted a ≡ true
        → go exhausted hops (entry ∷ entries) ≡ (
            if is_past trusted.max_hops (suc hops)
            then some (from_peer parse trusted peer port hop_limit (suc hops))
            else go exhausted (suc hops) entries)
    unfolding walk
    walk-trusted a p e known = ground (arith, e, known)

  -- An entry that raises, behind trusted ones.
  abbrev pub Raises : List Text → Type 0
  Raises entries =
      (passed : List Text) × ((entry : Text) × ((rest : List Text) × ((entries
              ≡ passed ++ (entry ∷ rest))
            × (AllTrusted passed × (parse_entry parse trusted entry ≡ raising)))))

  -- What a result says of the entries that are walked.
  abbrev pub Sound : Option ClientAddress → List Text → ℕ → Type 0
  Sound none entries hops = Raises entries
  Sound (some r) entries hops =
      ((r.reason ≡ resolved) × Vouched entries r hops) ⊎ (IsPeer r × (r.reason ≢ resolved))

  Sound-cons :
      (a : IpAddress) (p : Option ℕ) (entry : Text) (entries : List Text) (hops : ℕ)
      (r : Option ClientAddress)
      → parse_entry parse trusted entry ≡ located a p
      → is_trusted trusted a ≡ true
      → Sound r entries (suc hops)
      → Sound r (entry ∷ entries) hops
  Sound-cons a p entry entries hops none e known (passed, (next, (rest, (split_eq, (all, v))))) = (
    entry ∷ passed,
    (next, (rest, (ap (λ x. entry ∷ x) split_eq, (((a, (p, (e, known))), all), v)))),
  )
  Sound-cons a p entry entries hops (some r) e known
        (inl (q, (passed, (next, (rest, (split_eq, ((all, n), v))))))) =
      inl (
        q,
        (
          entry ∷ passed,
          (
            next,
            (
              rest,
              (ap (λ x. entry ∷ x) split_eq, ((((a, (p, (e, known))), all), omega (arith, n)), v)),
            ),
          ),
        ),
      )
  Sound-cons a p entry entries hops (some r) e known (inr is_peer) = inr is_peer

  pub walk_nil :
      (exhausted : ClientAddressReason) (hops : ℕ)
      → go exhausted hops [] ≡ some (from_peer parse trusted peer port exhausted hops)
  unfolding walk
  walk_nil exhausted hops = refl

  walk-Sound :
      (exhausted : ClientAddressReason) (hops : ℕ) (entries : List Text)
      → exhausted ≢ resolved
      → Sound (go exhausted hops entries) entries hops
  walk-Sound exhausted hops [] ne = rw (walk_nil exhausted hops) (inr ((refl, refl), ne))
  walk-Sound exhausted hops (entry ∷ entries) ne =
      elim (Parsed-cases (parse_entry parse trusted entry)) [
        | inl e ↦
            rw (walk-malformed exhausted hops entry entries e)
              (inr ((refl, refl), λ h. ground arith))
        | inr (inl e) ↦
            rw (walk_raising exhausted hops entry entries e)
              ([], (entry, (entries, (refl, (tt, e)))))
        | inr (inr (a, (p, e))) ↦ elim (Bool-cases (is_trusted trusted a)) [
          | inr untrusted ↦
              rw (walk-untrusted exhausted hops entry entries a p e untrusted)
                (inl (refl, ([], (entry, (entries, (refl, ((tt, omega arith), (e, untrusted))))))))
          | inl known ↦ elim (Bool-cases (is_past trusted.max_hops (suc hops))) [
            | inl past ↦
                rw (walk-trusted exhausted hops entry entries a p e known, past)
                  (inr ((refl, refl), λ h. ground arith))
            | inr near ↦
                rw (walk-trusted exhausted hops entry entries a p e known, near)
                  (Sound-cons a p entry entries hops (go exhausted (suc hops) entries) e known
                    (walk-Sound exhausted (suc hops) entries ne))
          ]
        ]
      ]

  from_entries-Sound :
      (entries : List Text)
      → Sound
          (from_entries parse trusted peer port entries)
          (walked parse trusted peer port entries)
          0
  from_entries-Sound [] = inr ((refl, refl), λ h. ground arith)
  from_entries-Sound (entry ∷ entries) =
      walk-Sound (exhausted_by parse trusted peer port (entry ∷ entries)) 0
        (walked parse trusted peer port (entry ∷ entries)) (λ h. ground (arith, h))

  -- The entries that are walked, for the headers of a request.
  abbrev pub walked_of : Option Text → List Text
  walked_of none = []
  walked_of (some raw) = walked parse trusted peer port (entries_of raw)

  from_header-Sound :
      (raw : Option Text) → Sound (from_header parse trusted peer port raw) (walked_of raw) 0
  from_header-Sound none = inr ((refl, refl), λ h. ground arith)
  from_header-Sound (some raw) = from_entries-Sound (entries_of raw)

  -- An untrusted peer is the client, whatever the headers. For a trusted one, the client is an address
  -- that is not trusted, of an entry behind which all walked entries belong to trusted proxies, and
  -- the hops are these entries; or it is the peer itself, and then the reason is not `resolved`; or
  -- ValueError is raised by an entry behind which all walked entries belong to trusted proxies.
  pub resolve_peer_lem :
      (headers : List (Text × Text))
      → (let r = resolve_peer parse trusted peer port headers in
          ((is_trusted trusted peer ≡ false)
            × (r ≡ some (from_peer parse trusted peer port untrusted_peer 0)))
          ⊎ ((is_trusted trusted peer ≡ true)
              × Sound r (walked_of (collect_header headers trusted.max_header_bytes)) 0))
  unfolding resolve_peer
  resolve_peer_lem headers = elim (Bool-cases (is_trusted trusted peer)) [
    | inr untrusted ↦ inl (untrusted, rw (untrusted, resolve_peer) refl)
    | inl known ↦
        let q : resolve_peer parse trusted peer port headers
            ≡ from_header parse trusted peer port
                (collect_header headers trusted.max_header_bytes) =
          rw (known, resolve_peer) refl in
        rw q (inr (known, from_header-Sound (collect_header headers trusted.max_header_bytes)))
  ]

-- ===== src/ClientIp/Padding.antt =====
-- What a caller of clientip.py puts in front of the entries that the proxies wrote.
use grelmicro.Prelude.{
  ℕ, zero, suc, ◌-◌, ◌≡◌, ◌≢◌, refl, ap, sym, ◌∙◌, Option, some, List, [], ◌∷◌, ◌++◌, nat_beq,
  length, take, arith, Bool-cases, inl, inr, map,
}
use grelmicro.Text.{Text, split, strip}
use grelmicro.Text.Split.{split-append_sep}
use grelmicro.ClientIp.{IpAddress, TrustedProxies, is_trusted}
use grelmicro.ClientIp.Header.{collect_header, entries_of, nonempty, comma}
use grelmicro.ClientIp.Resolve.{
  ClientAddressReason, resolved, ClientAddress, is_past, parse_entry, walk, walked, exhausted_by,
  from_entries, resolve_peer,
}
use grelmicro.ClientIp.Walk.{
  walk-malformed, walk-untrusted, walk-trusted, walk_nil, walk_raising, Parsed-cases,
}
use mathlib.Core.List.{reverse, reverse-append, map-append}

take-append : (n : ℕ) (xs ys : List Text) → take n (xs ++ ys) ≡ take n xs ++ take (n - length xs) ys
unfolding take
take-append zero xs ys = let e : 0 - length xs ≡ 0 = omega arith in rw e refl
take-append (suc n) [] ys = let e : suc n - 0 ≡ suc n = omega arith in rw e refl
take-append (suc n) (x ∷ xs) ys =
    let e : suc n - suc (length xs) ≡ n - length xs = omega arith in
    rw e (ap (λ r. x ∷ r) (take-append n xs ys))

nonempty-append : (xs ys : List Text) → nonempty (xs ++ ys) ≡ nonempty xs ++ nonempty ys
unfolding nonempty
nonempty-append [] ys = refl
nonempty-append (x ∷ xs) ys = ground (arith, nonempty-append xs ys)

entries_of-append : (p q : Text) → entries_of (p ++ (comma ∷ q)) ≡ entries_of p ++ entries_of q
unfolding entries_of
entries_of-append p q =
    ap (λ ps. nonempty (map strip ps)) (split-append_sep comma p q)
    ∙ ap nonempty (map-append strip (split comma p) (split comma q))
    ∙ nonempty-append (map strip (split comma p)) (map strip (split comma q))

module _ (parse : Text → Option IpAddress) (trusted : TrustedProxies) (peer : IpAddress)
    (port : Option ℕ) where
  abbrev walks : ClientAddressReason → ℕ → List Text → Option ClientAddress
  walks = walk parse trusted peer port

  walk-append :
      (exhausted exhausted' : ClientAddressReason) (hops : ℕ) (entries more : List Text)
      (r : ClientAddress)
      → exhausted ≢ resolved
      → walks exhausted hops entries ≡ some r
      → r.reason ≡ resolved
      → walks exhausted' hops (entries ++ more) ≡ some r
  walk-append exhausted exhausted' hops [] more r ne w e =
      absurd (ne (ground (arith, walk_nil parse trusted peer port exhausted hops, w, e)))
  walk-append exhausted exhausted' hops (entry ∷ entries) more r ne w e =
      elim (Parsed-cases (parse_entry parse trusted entry)) [
        | inl bad ↦
            walk-malformed parse trusted peer port exhausted' hops entry (entries ++ more) bad
            ∙ sym (walk-malformed parse trusted peer port exhausted hops entry entries bad)
            ∙ w
        | inr (inl fails) ↦
            walk_raising parse trusted peer port exhausted' hops entry (entries ++ more) fails
            ∙ sym (walk_raising parse trusted peer port exhausted hops entry entries fails)
            ∙ w
        | inr (inr (a, (p, ok))) ↦ elim (Bool-cases (is_trusted trusted a)) [
          | inr untrusted ↦
              walk-untrusted parse trusted peer port exhausted' hops entry (entries ++ more) a p ok
                untrusted
              ∙ sym (
                  walk-untrusted parse trusted peer port exhausted hops entry entries a p ok
                    untrusted)
              ∙ w
          | inl known ↦
              let q =
                walk-trusted parse trusted peer port exhausted hops entry entries a p ok known in
              let q' =
                walk-trusted parse trusted peer port exhausted' hops entry (entries ++ more) a p ok
                  known in
              elim (Bool-cases (is_past trusted.max_hops (suc hops))) [
                | inl past ↦ ground (arith, q, q', past, w)
                | inr near ↦
                    let n : walks exhausted hops (entry ∷ entries)
                        ≡ walks exhausted (suc hops) entries =
                      ground (arith, q, near) in
                    let n' : walks exhausted' hops (entry ∷ (entries ++ more))
                        ≡ walks exhausted' (suc hops) (entries ++ more) =
                      ground (arith, q', near) in
                    n' ∙ walk-append exhausted exhausted' (suc hops) entries more r ne (sym n ∙ w) e
              ]
        ]
      ]

  abbrev last_first : List Text → List Text
  last_first = walked parse trusted peer port

  walked-append :
      (before entries : List Text)
      → (more : List Text) × (last_first (before ++ entries) ≡ last_first entries ++ more)
  walked-append before entries = elim (Bool-cases (nat_beq trusted.max_entries 0)) [
    | inl all ↦ (reverse before, ground (arith, all, reverse-append before entries))
    | inr some_of ↦ (
      take (trusted.max_entries - length (reverse entries)) (reverse before),
      ground (
        arith,
        some_of,
        reverse-append before entries,
        take-append trusted.max_entries (reverse entries) (reverse before),
      ),
    )
  ]

  exhausted-ne : (entries : List Text) → exhausted_by parse trusted peer port entries ≢ resolved
  exhausted-ne entries h = ground (arith, h)

  from_entries-append :
      (before entries : List Text) (r : ClientAddress)
      → from_entries parse trusted peer port entries ≡ some r
      → r.reason ≡ resolved
      → from_entries parse trusted peer port (before ++ entries) ≡ some r
  from_entries-append before [] r w e = absurd (ground (arith, w, e))
  from_entries-append [] (entry ∷ entries) r w e = w
  from_entries-append (b ∷ before) (entry ∷ entries) r w e =
      let whole = entry ∷ entries in
      let (more, q) = walked-append (b ∷ before) whole in
      ap (walks (exhausted_by parse trusted peer port (b ∷ (before ++ whole))) 0) q
      ∙ walk-append (exhausted_by parse trusted peer port whole)
          (exhausted_by parse trusted peer port (b ∷ (before ++ whole))) 0 (last_first whole) more r
          (exhausted-ne whole) w e

  -- Where the headers resolve to an address that a proxy vouched for, they resolve to the same one, with
  -- the same port and hops, whatever a caller has put before the value of the header, as long as the
  -- header is not too large.
  pub resolve_peer-prepended :
      (spoofed raw : Text) (headers headers' : List (Text × Text)) (r : ClientAddress)
      → collect_header headers trusted.max_header_bytes ≡ some raw
      → collect_header headers' trusted.max_header_bytes ≡ some (spoofed ++ (comma ∷ raw))
      → resolve_peer parse trusted peer port headers ≡ some r
      → r.reason ≡ resolved
      → resolve_peer parse trusted peer port headers' ≡ some r
  unfolding resolve_peer
  resolve_peer-prepended spoofed raw headers headers' r e e' w h =
      elim (Bool-cases (is_trusted trusted peer)) [
        | inr untrusted ↦ absurd (ground (arith, untrusted, w, h))
        | inl known ↦
            let q : resolve_peer parse trusted peer port headers
                ≡ from_entries parse trusted peer port (entries_of raw) =
              rw (known, e, resolve_peer) refl in
            let q' : resolve_peer parse trusted peer port headers'
                ≡ from_entries parse trusted peer port (entries_of (spoofed ++ (comma ∷ raw))) =
              rw (known, e', resolve_peer) refl in
            q'
            ∙ ap (from_entries parse trusted peer port) (entries_of-append spoofed raw)
            ∙ from_entries-append (entries_of spoofed) (entries_of raw) r (sym q ∙ w) h
      ]

-- ===== src/Health/Report.antt =====
-- What a report of `HealthChecks.run` in health/_checks.py says of the checks.
use grelmicro.Prelude.{
  ℕ, ◌-◌, ◌≡◌, refl, sym, ap, ◌∙◌, Bool, true, false, not, ◌&&◌, ◌||◌, Option, none, some, List, [],
  ◌∷◌, ltb, length, contains, ◌==◌, arith, Bool-cases, Option-cases, inl, inr,
}
use mathlib.Core.Path.{subst}
use grelmicro.Dict.{lookup, insert}
use grelmicro.Text.{Text}
use grelmicro.Health.{
  text_beq_iff, name_max_len, text_eq, text_leb, ok, CheckResult, Entry, Outcome, returns,
  times_out, unhealthy, raises, run_check_inner, matches_name, Entries, place, sort, Added,
  invalid_name, already_registered, added, new_entry, timeout_or, add, Attempt, get_or_run,
  aggregate_status, is_selected, run_entries, run,
}

-- A cached result tells whether its check is critical.
abbrev pub CachedTells : Option CheckResult → Bool → Type 0
CachedTells none critical = Unit
CachedTells (some r) critical = r.critical ≡ critical

abbrev pub Tells : Entries → Type 0
Tells [] = Unit
Tells ((name, e) ∷ entries) = CachedTells e.cached_result e.critical × Tells entries

-- What a program calls: a registration, with the timeout of the configuration, or a round.
pub data Op : Type 0 where
  adds : ℕ → Text → Bool → Option ℕ → Op
  runs : Bool → List Text → ℕ → (Text → Attempt) → Op

abbrev pub kept : Entries → Added → Entries
kept entries invalid_name = entries
kept entries already_registered = entries
kept entries (added entries') = entries'

unfoldable pub play : Op → Entries → Entries
play (adds default name critical timeout) entries =
    kept entries (add default name critical timeout entries)
play (runs critical_only excluded ttl attempt) entries =
    (run critical_only excluded ttl attempt entries).1

unfoldable pub plays : List Op → Entries → Entries
unfolding play
plays [] entries = entries
plays (op ∷ ops) entries = plays ops (play op entries)

run_check_inner_critical : (e : Entry) (o : Outcome) → (run_check_inner e o).critical ≡ e.critical
unfolding run_check_inner
run_check_inner_critical e (returns d) = refl
run_check_inner_critical e times_out = refl
run_check_inner_critical e (unhealthy text d) = refl
run_check_inner_critical e (raises type text) = refl

get_or_run-Tells :
    (ttl : ℕ) (a : Attempt) (e : Entry) (o : Option CheckResult)
    → e.cached_result ≡ o
    → CachedTells o e.critical
    → ((get_or_run ttl a e).0.critical ≡ e.critical)
      × CachedTells (get_or_run ttl a e).1.cached_result (get_or_run ttl a e).1.critical
unfolding get_or_run
get_or_run-Tells ttl a e none q h =
    rw q (run_check_inner_critical e a.outcome, run_check_inner_critical e a.outcome)
get_or_run-Tells ttl a e (some r) q h =
    elim (Bool-cases (ltb 0 ttl && ltb (a.now - e.cached_at) ttl)) [
      | inl t ↦ let hit : get_or_run ttl a e ≡ (r, e) = ground (arith, q, t) in rw hit (h, rw q h)
      | inr f ↦
          let r' : CheckResult = run_check_inner e a.outcome in
          let miss : get_or_run ttl a e
              ≡ (r', record e { cached_result = some r'; cached_at = a.later }) =
            ground (arith, q, f) in
          rw miss (run_check_inner_critical e a.outcome, run_check_inner_critical e a.outcome)
    ]

run_entries-Tells :
    (critical_only : Bool) (excluded : List Text) (ttl : ℕ) (attempt : Text → Attempt)
    (entries : Entries)
    → Tells entries
    → Tells (run_entries critical_only excluded ttl attempt entries).1
unfolding run_entries
run_entries-Tells critical_only excluded ttl attempt [] h = tt
run_entries-Tells critical_only excluded ttl attempt ((name, e) ∷ entries) h =
    let rest : Tells (run_entries critical_only excluded ttl attempt entries).1 =
      run_entries-Tells critical_only excluded ttl attempt entries h.1 in
    elim (Bool-cases (is_selected critical_only excluded name e)) [
      | inl t ↦ rw t ((get_or_run-Tells ttl (attempt name) e e.cached_result refl h.0).1, rest)
      | inr f ↦ rw f (h.0, rest)
    ]

place-Tells :
    (name : Text) (e : Entry) (entries : Entries)
    → CachedTells e.cached_result e.critical
    → Tells entries
    → Tells (place name e entries)
unfolding place
place-Tells name e [] new h = (new, tt)
place-Tells name e ((j, f) ∷ entries) new h = elim (Bool-cases (text_leb name j)) [
  | inl t ↦ rw t (new, h)
  | inr g ↦ rw g (h.0, place-Tells name e entries new h.1)
]

sort-Tells : (entries : Entries) → Tells entries → Tells (sort entries)
unfolding sort
sort-Tells [] h = tt
sort-Tells ((name, e) ∷ entries) h = place-Tells name e (sort entries) h.0 (sort-Tells entries h.1)

insert-Tells :
    (name : Text) (e : Entry) (entries : Entries)
    → CachedTells e.cached_result e.critical
    → Tells entries
    → Tells (insert name e entries)
unfolding insert
insert-Tells name e [] new h = (new, tt)
insert-Tells name e ((j, f) ∷ entries) new h = elim (Bool-cases (j == name)) [
  | inl t ↦ rw t (new, h.1)
  | inr g ↦ rw g (h.0, insert-Tells name e entries new h.1)
]

added-Tells :
    (default : ℕ) (name : Text) (critical : Bool) (timeout : Option ℕ) (entries : Entries)
    → Tells entries
    → Tells (kept entries (add default name critical timeout entries))
unfolding add
added-Tells default name critical timeout entries h =
    let e : Entry = new_entry name critical (timeout_or default timeout) in
    elim (Bool-cases (ltb name_max_len (length name) || not (matches_name name))) [
      | inl t ↦ rw t h
      | inr f ↦ elim (Option-cases (lookup name entries)) [
        | inl q ↦ rw (f, q) (sort-Tells (insert name e entries) (insert-Tells name e entries tt h))
        | inr (r, q) ↦ rw (f, q) h
      ]
    ]

plays-Tells : (ops : List Op) (entries : Entries) → Tells entries → Tells (plays ops entries)
unfolding plays play run
plays-Tells [] entries h = h
plays-Tells (adds default name critical timeout ∷ ops) entries h =
    plays-Tells ops (kept entries (add default name critical timeout entries))
      (added-Tells default name critical timeout entries h)
plays-Tells (runs critical_only excluded ttl attempt ∷ ops) entries h =
    plays-Tells ops (run_entries critical_only excluded ttl attempt entries).1
      (run_entries-Tells critical_only excluded ttl attempt entries h)

-- What the report must have for a check: its result, and no error of a critical one.
aggregate_ok :
    (name : Text) (r : CheckResult) (results : List (Text × CheckResult))
    → aggregate_status ((name, r) ∷ results) ≡ ok
    → ((r.critical ≡ true) → r.status ≡ ok) × (aggregate_status results ≡ ok)
unfolding aggregate_status
aggregate_ok name r results h = ground (arith, h)

run_entries_ok :
    (critical_only : Bool) (excluded : List Text) (ttl : ℕ) (attempt : Text → Attempt) (name : Text)
    (e : Entry) (entries : Entries)
    → Tells entries
    → aggregate_status (run_entries critical_only excluded ttl attempt entries).0 ≡ ok
    → lookup name entries ≡ some e
    → contains excluded name ≡ false
    → e.critical ≡ true
    → (get_or_run ttl (attempt name) e).0.status ≡ ok
unfolding run_entries lookup
run_entries_ok critical_only excluded ttl attempt name e [] tells h q out crit = ground (arith, q)
run_entries_ok critical_only excluded ttl attempt name e ((j, f) ∷ entries) tells h q out crit =
    let r : CheckResult = (get_or_run ttl (attempt j) f).0 in
    let results : List (Text × CheckResult) =
      (run_entries critical_only excluded ttl attempt entries).0 in
    elim (Bool-cases (is_selected critical_only excluded j f)) [
      | inl t ↦
          let h' : aggregate_status ((j, r) ∷ results) ≡ ok = ground (arith, h, t) in
          elim (Bool-cases (j == name)) [
            | inl same ↦
                let jn : j ≡ name = (text_beq_iff j name).0 same in
                let fe : f ≡ e = ground (arith, q, same) in
                let tell : r.critical ≡ f.critical =
                  (get_or_run-Tells ttl (attempt j) f f.cached_result refl tells.0).0 in
                let good : r.status ≡ ok =
                  (aggregate_ok j r results h').0 (tell ∙ ap (λ x. x.critical) fe ∙ crit) in
                subst (λ n. (get_or_run ttl (attempt n) e).0.status ≡ ok) jn
                  (subst (λ x. (get_or_run ttl (attempt j) x).0.status ≡ ok) fe good)
            | inr other ↦
                run_entries_ok critical_only excluded ttl attempt name e entries tells.1
                  (aggregate_ok j r results h').1 (ground (arith, q, other)) out crit
          ]
      | inr u ↦
          let h' : aggregate_status results ≡ ok = ground (arith, h, u) in
          elim (Bool-cases (j == name)) [
            | inl same ↦
                let jn : j ≡ name = (text_beq_iff j name).0 same in
                let fe : f ≡ e = ground (arith, q, same) in
                let out' : contains excluded j ≡ false =
                  subst (λ n. contains excluded n ≡ false) (sym jn) out in
                let crit' : f.critical ≡ true = ap (λ x. x.critical) fe ∙ crit in
                ground (arith, u, out', crit')
            | inr other ↦
                run_entries_ok critical_only excluded ttl attempt name e entries tells.1 h'
                  (ground (arith, q, other)) out crit
          ]
    ]

-- The report has the result of a selected check.
lookup-run_entries :
    (critical_only : Bool) (excluded : List Text) (ttl : ℕ) (attempt : Text → Attempt) (name : Text)
    (e : Entry) (entries : Entries)
    → lookup name entries ≡ some e
    → is_selected critical_only excluded name e ≡ true
    → lookup name (run_entries critical_only excluded ttl attempt entries).0
      ≡ some (get_or_run ttl (attempt name) e).0
unfolding run_entries lookup
lookup-run_entries critical_only excluded ttl attempt name e [] q sel = ground (arith, q)
lookup-run_entries critical_only excluded ttl attempt name e ((j, f) ∷ entries) q sel =
    elim (Bool-cases (j == name)) [
      | inl same ↦
          let jn : j ≡ name = (text_beq_iff j name).0 same in
          let fe : f ≡ e = ground (arith, q, same) in
          rw (jn, fe, sel, (text_beq_iff name name).1 refl) refl
      | inr other ↦
          let ih : lookup name (run_entries critical_only excluded ttl attempt entries).0
              ≡ some (get_or_run ttl (attempt name) e).0 =
            lookup-run_entries critical_only excluded ttl attempt name e entries
              (ground (arith, q, other)) sel in
          elim (Bool-cases (is_selected critical_only excluded j f)) [
            | inl t ↦ rw (t, other) ih
            | inr u ↦ rw u ih
          ]
    ]

-- When a report of a registry that a program has made by registrations and rounds says ok, it has an
-- ok result of each critical check that the round does not exclude: one of the cache, or what the
-- check did in this round.
pub run_ok :
    (ops : List Op) (critical_only : Bool) (excluded : List Text) (ttl : ℕ)
    (attempt : Text → Attempt) (name : Text) (e : Entry)
    → (run critical_only excluded ttl attempt (plays ops [])).0.status ≡ ok
    → lookup name (plays ops []) ≡ some e
    → contains excluded name ≡ false
    → e.critical ≡ true
    → (lookup name (run critical_only excluded ttl attempt (plays ops [])).0.checks
        ≡ some (get_or_run ttl (attempt name) e).0)
      × ((get_or_run ttl (attempt name) e).0.status ≡ ok)
unfolding run
run_ok ops critical_only excluded ttl attempt name e h q out crit = (
  lookup-run_entries critical_only excluded ttl attempt name e (plays ops []) q
      (ground (arith, out, crit)),
  run_entries_ok critical_only excluded ttl attempt name e (plays ops []) (plays-Tells ops [] tt) h
      q out crit,
)

-- ===== src/ClientIp/Header.antt =====
-- The reading of `X-Forwarded-For` in clientip.py: `_collect_header`, `_split_host_port`, and the
-- entries of `resolve_client_address`.
pub mod HostPort
use grelmicro.Prelude.{
  ℕ, zero, suc, ◌+◌, ◌-◌, ◌*◌, Bool, true, false, not, ◌&&◌, ◌||◌, Option, none, some, List, [],
  ◌∷◌, ◌++◌, map, ltb, leb, nat_beq, if◌then◌else◌, length, nat_eq, ◌==◌,
}
use grelmicro.Text.{Text, split, partition, is_digit, strip, starts_text}

-- `[` `]` `:` `,`
abbrev pub open_bracket : ℕ
open_bracket = 91

abbrev pub close_bracket : ℕ
close_bracket = 93

abbrev pub colon : ℕ
colon = 58

abbrev pub comma : ℕ
comma = 44

-- b"x-forwarded-for"
abbrev pub forwarded_for : Text
forwarded_for =
    120 ∷ 45 ∷ 102 ∷ 111 ∷ 114 ∷ 119 ∷ 97 ∷ 114 ∷ 100 ∷ 101 ∷ 100 ∷ 45 ∷ 102 ∷ 111 ∷ 114 ∷ []

abbrev pub max_port : ℕ
max_port = 65535

-- What `_split_host_port` comes to: it returns None, `int` raises ValueError, or there is a host, with
-- a port or without.
pub data HostAndPort : Type 0 where
  not_split value_error : HostAndPort
  parts : Text → Option ℕ → HostAndPort

-- `sys.int_info.default_max_str_digits`: the digits that Python's `int` reads.
abbrev pub max_str_digits : ℕ
max_str_digits = 4300

-- `port.isdigit()`, for ASCII.
unfoldable pub all_digits : Text → Bool
all_digits [] = true
all_digits (c ∷ s) = is_digit c && all_digits s

unfoldable pub number_from : ℕ → Text → ℕ
number_from n [] = n
number_from n (c ∷ s) = number_from (n * 10 + (c - 48)) s

-- `_with_port`
unfoldable pub with_port : Text → Text → HostAndPort
unfolding all_digits number_from
with_port host port =
    if not (starts_text port && all_digits port)
    then not_split
    else if ltb max_str_digits (length port)
    then value_error
    else if ltb max_port (number_from 0 port)
    then not_split
    else parts host (some (number_from 0 port))

-- What follows the bracket of a host.
abbrev pub after_bracket : Text → Text → HostAndPort
after_bracket host [] = parts host none
after_bracket host (c ∷ port) = if nat_beq c colon then with_port host port else not_split

-- `value.count(c)`
unfoldable pub count : ℕ → Text → ℕ
count c [] = 0
count c (d ∷ s) = let rest = count c s in if nat_beq d c then suc rest else rest

abbrev pub bracketed : Text → HostAndPort
unfolding partition
bracketed s =
    let (host, (closed, rest)) = partition close_bracket s in
    if closed then after_bracket host rest else not_split

abbrev pub unbracketed : Text → HostAndPort
unfolding partition count
unbracketed s =
    let (host, (sep, port)) = partition colon s in
    if ltb 1 (count colon s)
    then parts s none
    else if nat_beq (count colon s) 1
    then with_port host port
    else parts s none

-- `_split_host_port`
unfoldable pub split_host_port : Text → HostAndPort
unfolding with_port partition count
split_host_port [] = unbracketed []
split_host_port (c ∷ s) = if nat_beq c open_bracket then bracketed s else unbracketed (c ∷ s)

-- `name.lower()`
abbrev pub lower : Text → Text
lower = map (λ c. if leb 65 c && leb c 90 then c + 32 else c)

unfoldable pub same_text : Text → Text → Bool
same_text [] [] = true
same_text (c ∷ s) (d ∷ t) = nat_beq c d && same_text s t
same_text _ _ = false

abbrev pub is_forwarded_for : Text → Bool
is_forwarded_for name = same_text (lower name) forwarded_for

-- `b",".join(parts)`
unfoldable pub join : List Text → Text
join [] = []
join (part ∷ []) = part
join (part ∷ next ∷ rest) = part ++ (comma ∷ join (next ∷ rest))

-- The loop of `_collect_header`, with the parts so far, the last one first.
unfoldable pub collect_from : List (Text × Text) → ℕ → ℕ → Option (List Text)
collect_from [] limit total = some []
collect_from ((name, value) ∷ headers) limit total =
    let total' = total + (length value + 1) in
    let skipped = collect_from headers limit total in
    let taken = elim (collect_from headers limit total') as (λ x. Option (List Text)) [
      | none ↦ none
      | some values ↦ some (value ∷ values)
    ] in
    if not (is_forwarded_for name) then skipped else if ltb limit total' then none else taken

-- `_collect_header`
unfoldable pub collect_header : List (Text × Text) → ℕ → Option Text
unfolding collect_from join
collect_header headers limit = elim (collect_from headers limit 0) [
  | none ↦ none
  | some values ↦ some (join values)
]

unfoldable pub nonempty : List Text → List Text
nonempty [] = []
nonempty (part ∷ entries) =
    let rest = nonempty entries in if starts_text part then part ∷ rest else rest

-- The entries of the header, without the empty ones.
unfoldable pub entries_of : Text → List Text
unfolding split nonempty
entries_of raw = nonempty (map strip (split comma raw))

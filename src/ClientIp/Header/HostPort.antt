-- ===== src/ClientIp/Header/HostPort.antt =====
-- `_split_host_port` of clientip.py, against the ways to write a host and a port.
use grelmicro.Prelude.{
  ℕ, ◌+◌, ◌≤◌, ◌≡◌, ◌≢◌, refl, ◌∙◌, Bool, true, false, none, some, [], ◌∷◌, ◌++◌, nat_beq, contains,
  nat_eq, length, nat_beq_iff, arith,
}
use grelmicro.Text.{Text, partition, starts_text}
use grelmicro.Text.Split.{partition-append}
use grelmicro.ClientIp.Header.{
  HostAndPort, parts, max_str_digits, open_bracket, close_bracket, colon, max_port, all_digits,
  number_from, with_port, after_bracket, count, unbracketed, split_host_port,
}

-- The forms of an entry: a host, alone or in brackets, with a port or without.
pub data Form : Type 0 where
  plain in_brackets : Text → Form
  plain_port in_brackets_port : Text → Text → Form

abbrev pub print_form : Form → Text
print_form (plain host) = host
print_form (in_brackets host) = open_bracket ∷ (host ++ (close_bracket ∷ []))
print_form (plain_port host port) = host ++ (colon ∷ port)
print_form (in_brackets_port host port) = open_bracket ∷ (host ++ (close_bracket ∷ colon ∷ port))

abbrev pub read_form : Form → HostAndPort
read_form (plain host) = parts host none
read_form (in_brackets host) = parts host none
read_form (plain_port host port) = parts host (some (number_from 0 port))
read_form (in_brackets_port host port) = parts host (some (number_from 0 port))

abbrev pub starts_bracket : Text → Bool
starts_bracket [] = false
starts_bracket (c ∷ s) = nat_beq c open_bracket

-- The digits of a port, not more than `int` reads.
abbrev pub IsPort : Text → Type 0
IsPort port =
    (starts_text port ≡ true)
    × ((all_digits port ≡ true)
        × ((length port ≤ max_str_digits) × (number_from 0 port ≤ max_port)))

-- A host alone is an IPv6 address, with two colons or more, or has none; one with a port has none, and
-- none begins with a bracket. A host in brackets has no closing bracket.
abbrev pub IsForm : Form → Type 0
IsForm (plain host) = (starts_bracket host ≡ false) × (count colon host ≢ 1)
IsForm (in_brackets host) = contains host close_bracket ≡ false
IsForm (plain_port host port) =
    ((starts_bracket host ≡ false) × (count colon host ≡ 0)) × IsPort port
IsForm (in_brackets_port host port) = (contains host close_bracket ≡ false) × IsPort port

count-append : (c : ℕ) (s t : Text) → count c (s ++ t) ≡ count c s + count c t
unfolding count
count-append c [] t = omega arith
count-append c (d ∷ s) t = ground (arith, count-append c s t)

contains-count : (c : ℕ) (s : Text) → count c s ≡ 0 → contains s c ≡ false
unfolding count contains
contains-count c [] h = refl
contains-count c (d ∷ s) h = ground (arith, contains-count c s)

with_port-IsPort :
    (host port : Text) → IsPort port → with_port host port ≡ parts host (some (number_from 0 port))
unfolding with_port
with_port-IsPort host port (nonempty, (digits, (few, le))) =
    ground (arith, nonempty, digits, few, le)

split_unbracketed : (s : Text) → starts_bracket s ≡ false → split_host_port s ≡ unbracketed s
unfolding split_host_port
split_unbracketed [] h = refl
split_unbracketed (c ∷ s) h = ground (arith, h)

starts_bracket-append :
    (s : Text) (port : Text)
    → starts_bracket s ≡ false
    → starts_bracket (s ++ (colon ∷ port)) ≡ false
starts_bracket-append [] port h = refl
starts_bracket-append (c ∷ s) port h = h

count-digits : (port : Text) → all_digits port ≡ true → count colon port ≡ 0
unfolding count all_digits
count-digits [] h = refl
count-digits (c ∷ port) h = ground (arith, count-digits port, h)

count-colon :
    (host port : Text)
    → count colon host ≡ 0
    → count colon port ≡ 0
    → count colon (host ++ (colon ∷ port)) ≡ 1
unfolding count
count-colon host port h p =
    ground (arith, count-append colon host (colon ∷ port), h, p, nat_beq_iff colon colon)

unbracketed_plain : (s : Text) → count colon s ≢ 1 → unbracketed s ≡ parts s none
unfolding unbracketed
unbracketed_plain s n = ground (arith, nat_beq_iff (count colon s) 1)

unbracketed_port :
    (host port : Text)
    → count colon (host ++ (colon ∷ port)) ≡ 1
    → partition colon (host ++ (colon ∷ port)) ≡ (host, (true, port))
    → unbracketed (host ++ (colon ∷ port)) ≡ with_port host port
unfolding unbracketed with_port
unbracketed_port host port c q = rw (c, q) refl

bracketed-append :
    (host rest : Text)
    → contains host close_bracket ≡ false
    → split_host_port (open_bracket ∷ (host ++ (close_bracket ∷ rest))) ≡ after_bracket host rest
unfolding split_host_port
bracketed-append host rest h = rw (partition-append close_bracket host rest h) refl

-- An entry in any of the forms is read as the host and the port that it was written from; a port is
-- at most 4300 digits that make a number up to 65535.
pub split_host_port-print_form :
    (f : Form) → IsForm f → split_host_port (print_form f) ≡ read_form f
split_host_port-print_form (plain host) (no_bracket, n) =
    split_unbracketed host no_bracket ∙ unbracketed_plain host n
split_host_port-print_form (in_brackets host) h = bracketed-append host [] h
split_host_port-print_form (plain_port host port) ((no_bracket, none_in_host), p) =
    let port_count = count-digits port p.1.0 in
    let c : count colon (host ++ (colon ∷ port)) ≡ 1 =
      count-colon host port none_in_host port_count in
    let split_at = partition-append colon host port (contains-count colon host none_in_host) in
    split_unbracketed (host ++ (colon ∷ port)) (starts_bracket-append host port no_bracket)
    ∙ unbracketed_port host port c split_at
    ∙ with_port-IsPort host port p
split_host_port-print_form (in_brackets_port host port) (h, p) =
    bracketed-append host (colon ∷ port) h ∙ with_port-IsPort host port p

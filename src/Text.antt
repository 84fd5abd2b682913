-- ===== src/Text.antt =====
-- Python's texts and bytes as lists of their code points, as far as the parsers read them.
pub mod Split
use grelmicro.Prelude.{
  ℕ, zero, suc, ◌+◌, ◌-◌, ◌*◌, Bool, true, false, not, ◌&&◌, ◌||◌, List, [], ◌∷◌, leb, nat_beq,
  if◌then◌else◌,
}

abbrev pub Text : Type 0
Text = List ℕ

abbrev pub to_head : ℕ → List Text → List Text
to_head c [] = (c ∷ []) ∷ []
to_head c (part ∷ parts) = (c ∷ part) ∷ parts

-- `s.split(sep)`
unfoldable pub split : ℕ → Text → List Text
split sep [] = [] ∷ []
split sep (c ∷ s) = let rest = split sep s in if nat_beq c sep then [] ∷ rest else to_head c rest

-- `s.partition(sep)`: what stands before it, whether it is there, and what stands after.
unfoldable pub partition : ℕ → Text → Text × (Bool × Text)
partition sep [] = ([], (false, []))
partition sep (c ∷ s) =
    let (before, (sep_found, after)) = partition sep s in
    if nat_beq c sep then ([], (true, s)) else (c ∷ before, (sep_found, after))

-- `c.isspace()` of a byte.
abbrev pub is_space : ℕ → Bool
is_space c = nat_beq c 32 || (leb 9 c && leb c 13)

-- `c.isspace()` of a character of Latin-1.
abbrev pub is_str_space : ℕ → Bool
is_str_space c = is_space c || ((leb 28 c && leb c 31) || (nat_beq c 133 || nat_beq c 160))

abbrev pub is_digit : ℕ → Bool
is_digit c = leb 48 c && leb c 57

-- `s.lstrip()` of bytes.
unfoldable pub lstrip : Text → Text
lstrip [] = []
lstrip (c ∷ s) = let rest = lstrip s in if is_space c then rest else c ∷ s

abbrev pub starts_text : Text → Bool
starts_text [] = false
starts_text (c ∷ s) = true

-- `s.rstrip()` of bytes.
unfoldable pub rstrip : Text → Text
rstrip [] = []
rstrip (c ∷ s) =
    let rest = rstrip s in if starts_text rest then c ∷ rest else if is_space c then [] else c ∷ []

-- `s.strip()` of bytes.
abbrev pub strip : Text → Text
strip s = rstrip (lstrip s)

-- ===== src/Prelude/Text.antt =====
-- The functions of Go's strings, bufio and strconv that the sensors read files with. Texts are
-- UTF-8, and the separators and digits that are looked for are ASCII.
use Prim.Native.Char.{Char, code}
use Prim.Native.Nat.{ℕ, ◌+◌, ◌-◌, ◌*◌, ◌^◌}
use Prim.Native.String
use Prim.Native.String.{String}
use mathlib.Core.Path.{◌≡◌, sym, ap, ◌∙◌}
use mathlib.Core.Bool.{Bool, true, false, ◌&&◌, ◌||◌}
use mathlib.Core.Option.{Option, none, some}
use mathlib.Core.List.{List, [], ◌∷◌}
use native.Mathlib.Omega.{arith}
use text.Mathlib.Text.{◌==◌, starts_with}
use text.Mathlib.TextPositions.{starts_with-append}
use text.Mathlib.TextLemmas.{append-nil, nil-append, cons-append}
use go_hass_agent.Prelude.Tests.{ltb, leb, nat_eq, if◌then◌else◌}

infixr 65 ◌+++◌
abbrev pub ◌+++◌ : String → String → String
s +++ t = String.◌++◌ s t

-- strings.Contains(s, part)
unfoldable pub contains : String → String → Bool
contains String.[] part = starts_with String.[] part
contains (String.◌∷◌ c s) part = starts_with (String.◌∷◌ c s) part || contains s part

contains_self : (s part : String) → starts_with s part ≡ true → contains s part ≡ true
unfolding contains
contains_self String.[] part h = h
contains_self (String.◌∷◌ c s) part h = ground arith

-- A text contains what it ends in.
pub contains-append_right : (s part : String) → contains (s +++ part) part ≡ true
unfolding contains
contains-append_right String.[] part =
    rw (nil-append part) (contains_self part part (starts-self part))
  where
    starts-self : (t : String) → starts_with t t ≡ true
    starts-self t = ap (λ u. starts_with u t) (sym (append-nil t)) ∙ starts_with-append t String.[]
contains-append_right (String.◌∷◌ c s) part =
    rw (cons-append c s part) (ground (arith, contains-append_right s part))

unfoldable pub add_char : Char → Option (String × String) → Option (String × String)
add_char c none = none
add_char c (some (before, after)) = some (String.◌∷◌ c before, after)

-- strings.Cut at a character: what stands before and after the first, `none` without one
unfoldable pub cut : ℕ → String → Option (String × String)
unfolding add_char
cut sep String.[] = none
cut sep (String.◌∷◌ c s) =
    let rest = cut sep s in if nat_eq (code c) sep then some (String.[], s) else add_char c rest

-- Its first result, which is the whole text where there is no separator.
unfoldable pub before : ℕ → String → String
before sep String.[] = String.[]
before sep (String.◌∷◌ c s) =
    let rest = before sep s in if nat_eq (code c) sep then String.[] else String.◌∷◌ c rest

unfoldable pub push_char : Char → List String → List String
push_char c [] = String.◌∷◌ c String.[] ∷ []
push_char c (part ∷ parts) = String.◌∷◌ c part ∷ parts

-- strings.Split(s, sep) for a separator of one character
unfoldable pub split_on : ℕ → String → List String
unfolding push_char
split_on sep String.[] = String.[] ∷ []
split_on sep (String.◌∷◌ c s) =
    let rest = split_on sep s in if nat_eq (code c) sep then String.[] ∷ rest else push_char c rest

-- strings.Join(parts, sep)
unfoldable pub join : String → List String → String
join sep [] = ""
join sep (part ∷ []) = part
join sep (part ∷ next ∷ parts) = part +++ sep +++ join sep (next ∷ parts)

-- Whether the text is not empty.
abbrev pub nonempty : String → Bool
nonempty String.[] = false
nonempty (String.◌∷◌ c s) = true

-- unicode.IsSpace, on ASCII
unfoldable pub is_space : ℕ → Bool
is_space c = nat_eq c b' ' || (leb 9 c && leb c 13)

unfoldable pub keep_nonempty : List String → List String
keep_nonempty [] = []
keep_nonempty (part ∷ parts) =
    let rest = keep_nonempty parts in if nonempty part then part ∷ rest else rest

split_at_spaces : String → List String
unfolding push_char is_space
split_at_spaces String.[] = String.[] ∷ []
split_at_spaces (String.◌∷◌ c s) =
    let rest = split_at_spaces s in if is_space (code c) then String.[] ∷ rest else push_char c rest

-- bufio.ScanWords, and strings.Fields: the words between runs of spaces
unfoldable pub words : String → List String
unfolding split_at_spaces keep_nonempty
words s = keep_nonempty (split_at_spaces s)

without_last_empty : List String → List String
without_last_empty [] = []
without_last_empty (part ∷ []) = if nonempty part then part ∷ [] else []
without_last_empty (part ∷ next ∷ parts) = part ∷ without_last_empty (next ∷ parts)

-- bufio.ScanLines: no line after the last line feed. Files of the kernel have no carriage return.
unfoldable pub lines : String → List String
unfolding split_on without_last_empty
lines s = without_last_empty (split_on b'\n' s)

drop_as : String → String → String
drop_as String.[] s = s
drop_as (String.◌∷◌ p prefix) String.[] = String.[]
drop_as (String.◌∷◌ p prefix) (String.◌∷◌ c s) = drop_as prefix s

-- strings.TrimPrefix(s, prefix)
unfoldable pub trim_prefix : String → String → String
unfolding drop_as
trim_prefix s prefix = if starts_with s prefix then drop_as prefix s else s

-- The value of decimal digits, `none` at any other character.
unfoldable pub digits : ℕ → String → Option ℕ
digits acc String.[] = some acc
digits acc (String.◌∷◌ c s) =
    let rest = digits (acc * 10 + (code c - b'0')) s in
    if leb b'0' (code c) && leb (code c) b'9' then rest else none

-- The value strconv.ParseUint(s, 10, 64) returns, and whether its error is nil: a syntax error
-- comes with 0, a value out of range with the largest uint64.
abbrev pub in_range : Option ℕ → ℕ × Bool
in_range none = (0, false)
in_range (some n) = if ltb n (2 ^ 64) then (n, true) else (2 ^ 64 - 1, false)

unfoldable pub parse_uint : String → ℕ × Bool
unfolding digits
parse_uint s = if nonempty s then in_range (digits 0 s) else (0, false)

-- slices.Contains
unfoldable pub elem : String → List String → Bool
elem s [] = false
elem s (t ∷ ts) = t == s || elem s ts

-- strconv.ParseBool
unfoldable pub parse_bool : String → Option Bool
unfolding elem
parse_bool s =
    if elem s ("1" ∷ "t" ∷ "T" ∷ "TRUE" ∷ "true" ∷ "True" ∷ [])
    then some true
    else if elem s ("0" ∷ "f" ∷ "F" ∷ "FALSE" ∷ "false" ∷ "False" ∷ [])
    then some false
    else none

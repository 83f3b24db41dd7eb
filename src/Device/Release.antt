-- ===== src/Device/Release.antt =====
-- Which lines of /etc/os-release can be read.
use go_hass_agent.Prelude.{
  ℕ, String, true, false, some, List, [], ◌∷◌, ◌==◌, ◌≡◌, refl, ap, ◌∙◌, nat_eq, Bool-cases, inl,
  inr, eq_iff,
}
use Prim.Native.Char.{code}
use text.Mathlib.TextLemmas.{nil-append, cons-append, cons≢nil}
use go_hass_agent.Prelude.Dict.{Dict}
use go_hass_agent.Prelude.Text.{◌+++◌, split_on, push_char, keep_nonempty, nonempty}
use go_hass_agent.Device.Distro.{fields_of, out_of_range, entry_of, entries_from}

-- A text without the separator.
abbrev pub IsFree : ℕ → String → Type 0
IsFree sep String.[] = Unit {0}
IsFree sep (String.◌∷◌ c s) = (nat_eq (code c) sep ≡ false) × IsFree sep s

nonempty_ne : (s : String) → nonempty s ≡ true → (s == "") ≡ false
nonempty_ne String.[] h = cc
nonempty_ne (String.◌∷◌ c s) h = elim (Bool-cases (String.◌∷◌ c s == "")) [
  | inl e ↦ absurd (cons≢nil ((eq_iff (String.◌∷◌ c s) "").0 e))
  | inr e ↦ e
]

split_free : (sep : ℕ) (s : String) → IsFree sep s → split_on sep s ≡ s ∷ []
unfolding split_on push_char
split_free sep String.[] h = refl
split_free sep (String.◌∷◌ c s) h = rw h.0 (ap (push_char c) (split_free sep s h.1))

after_equals : (t : String) → split_on b'=' ("=" +++ t) ≡ String.[] ∷ split_on b'=' t
unfolding split_on
after_equals t =
    ap (split_on b'=') (cons-append "=" String.[] t ∙ ap (String.◌∷◌ "=") (nil-append t))

split_first : (a b : String) → IsFree b'=' a → split_on b'=' (a +++ "=" +++ b) ≡ a ∷ split_on b'=' b
unfolding split_on push_char
split_first String.[] b h = ap (split_on b'=') (nil-append ("=" +++ b)) ∙ after_equals b
split_first (String.◌∷◌ c a) b h =
    ap (split_on b'=') (cons-append c a ("=" +++ b))
    ∙ rw h.0 (ap (push_char c) (split_first a b h.1))

kept :
    (part : String) (parts : List String)
    → nonempty part ≡ true
    → keep_nonempty (part ∷ parts) ≡ part ∷ keep_nonempty parts
unfolding keep_nonempty
kept part parts h = rw h refl

fields_first :
    (a b : String)
    → IsFree b'=' a
    → nonempty a ≡ true
    → fields_of (a +++ "=" +++ b) ≡ a ∷ fields_of b
unfolding fields_of
fields_first a b h n = ap keep_nonempty (split_first a b h) ∙ kept a (split_on b'=' b) n

fields_free : (a : String) → IsFree b'=' a → nonempty a ≡ true → fields_of a ≡ a ∷ []
unfolding fields_of keep_nonempty
fields_free a h n = ap keep_nonempty (split_free b'=' a h) ∙ kept a [] n

-- A line of a key and a value, of which neither is empty or has an equals sign, is read as that key
-- and value.
pub entry_read :
    (key value : String)
    → IsFree b'=' key
    → nonempty key ≡ true
    → IsFree b'=' value
    → nonempty value ≡ true
    → entry_of (fields_of (key +++ "=" +++ value)) ≡ some (key, value)
unfolding entry_of
entry_read key value k m v n =
    ap entry_of (fields_first key value k m ∙ ap (λ t. key ∷ t) (fields_free value v n))

-- A value is cut at its first equals sign, as in the address of a bug tracker with a query: what
-- comes behind is lost, and so is the closing quote.
pub value_cut_at_equals :
    (key value more : String)
    → IsFree b'=' key
    → nonempty key ≡ true
    → IsFree b'=' value
    → nonempty value ≡ true
    → entry_of (fields_of (key +++ "=" +++ value +++ "=" +++ more)) ≡ some (key, value)
unfolding entry_of
value_cut_at_equals key value more k m v n = ap entry_of (
    fields_first key (value +++ "=" +++ more) k m ∙ ap (λ t. key ∷ t) (fields_first value more v n))

-- A line without an equals sign that is not empty, such as a comment, makes the reader index a field
-- that is not there: the program panics, whatever the other lines are.
pub comment_panics :
    (line : String) (rows : List String) (info : Dict String)
    → IsFree b'=' line
    → nonempty line ≡ true
    → entries_from (line ∷ rows) info ≡ out_of_range
unfolding entries_from entry_of
comment_panics line rows info h n = rw (nonempty_ne line n, fields_free line h n, entries_from) refl

-- ===== src/Dbusx/Parsed.antt =====
-- Which bodies of signals the parsers accept.
use go_hass_agent.Prelude.Dict.{Dict}
use go_hass_agent.Prelude.{String, Option, none, some, List, [], ◌∷◌, ◌≡◌, ◌↔◌, refl, arith}
use go_hass_agent.Dbusx.Values.{
  Any, text, variants, texts, ok, Properties, three_parts, as_text, as_variants, as_texts,
  parse_properties_changed,
}

-- The body of a signal about changed properties.
abbrev pub body_of : {V : Type 0} → Properties V → List (Any V)
body_of p = text p.interface ∷ variants p.changed ∷ texts p.invalidated ∷ []

as_text-text : {V : Type 0} (a : Any V) (s : String) → as_text a ≡ some s → a ≡ text s
unfolding as_text
as_text-text a s e = ground arith

as_variants-variants :
    {V : Type 0} (a : Any V) (m : Dict V) → as_variants a ≡ some m → a ≡ variants m
unfolding as_variants
as_variants-variants a m e = ground arith

as_texts-texts : {V : Type 0} (a : Any V) (l : List String) → as_texts a ≡ some l → a ≡ texts l
unfolding as_texts
as_texts-texts a l e = ground arith

three_from :
    {V : Type 0} {a b c : Any V} (i : Option String) (m : Option (Dict V))
    (l : Option (List String)) (p : Properties V)
    → three_parts i m l ≡ ok p
    → ((s : String) → i ≡ some s → a ≡ text s)
    → ((d : Dict V) → m ≡ some d → b ≡ variants d)
    → ((t : List String) → l ≡ some t → c ≡ texts t)
    → a ∷ b ∷ c ∷ [] ≡ body_of p
unfolding three_parts
three_from none m l p e f g h = cc
three_from (some s) none l p e f g h = cc
three_from (some s) (some d) none p e f g h = cc
three_from (some s) (some d) (some t) p e f g h = ground (arith, f s refl, g d refl, h t refl)

parsed_body :
    {V : Type 0} (event : List (Any V)) (p : Properties V)
    → parse_properties_changed event ≡ ok p
    → event ≡ body_of p
unfolding parse_properties_changed three_parts
parsed_body [] p e = cc
parsed_body (a ∷ []) p e = cc
parsed_body (a ∷ b ∷ []) p e = cc
parsed_body (a ∷ b ∷ c ∷ []) p e =
    three_from (as_text a) (as_variants b) (as_texts c) p e (as_text-text a)
      (as_variants-variants b) (as_texts-texts c)
parsed_body (a ∷ b ∷ c ∷ d ∷ rest) p e = cc

-- The parser of changed properties accepts exactly the bodies of three parts, an interface, the
-- changed properties and the invalidated ones, and returns these parts.
pub parse_properties_changed-ok :
    {V : Type 0} (event : List (Any V)) (p : Properties V)
    → (parse_properties_changed event ≡ ok p) ↔ (event ≡ body_of p)
unfolding parse_properties_changed
parse_properties_changed-ok event p = (parsed_body event p, λ e. rw e refl)

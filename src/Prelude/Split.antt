-- ===== src/Prelude/Split.antt =====
-- strings.Split(s, " ") and strings.Join(parts, " ").
use Prim.Native.Char.{Char, code}
use Prim.Native.String.{String}
use mathlib.Core.Logic.{◌≢◌}
use mathlib.Core.List.{List, [], ◌∷◌}
use mathlib.Core.Logic.{inl, inr}
use go_hass_agent.Prelude.Tests.{nat_eq, if◌then◌else◌, Bool-cases}

push : Char → List String → List String
push c [] = String.◌∷◌ c String.[] ∷ []
push c (part ∷ parts) = String.◌∷◌ c part ∷ parts

unfoldable pub split_spaces : String → List String
unfolding push
split_spaces String.[] = String.[] ∷ []
split_spaces (String.◌∷◌ c s) =
    let rest = split_spaces s in if nat_eq (code c) b' ' then String.[] ∷ rest else push c rest

push-ne-nil : (c : Char) (parts : List String) → push c parts ≢ []
unfolding push
push-ne-nil c [] = λ e. cc
push-ne-nil c (part ∷ parts) = λ e. cc

-- A split has at least one part, so the tests for none never hold.
pub split_spaces-ne-nil : (s : String) → split_spaces s ≢ []
unfolding split_spaces
split_spaces-ne-nil String.[] = λ e. cc
split_spaces-ne-nil (String.◌∷◌ c s) = elim (Bool-cases (nat_eq (code c) b' ')) [
  | inl e ↦ rw e (λ h. cc)
  | inr e ↦ rw e (push-ne-nil c (split_spaces s))
]

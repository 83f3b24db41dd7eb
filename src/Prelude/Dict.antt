-- ===== src/Prelude/Dict.antt =====
-- Go maps with string keys, as association lists. A range over a map visits the entries in
-- an order that Go does not fix, so what a range depends on is stated for every list.
use Prim.Native.String.{String}
use mathlib.Core.Path.{◌≡◌, ◌∙◌}
use mathlib.Core.Option.{Option, none, some}
use mathlib.Core.List.{List, [], ◌∷◌}
use native.Mathlib.Omega.{arith}
use text.Mathlib.Text.{◌==◌}
use text.Mathlib.TextEquality.{eq_iff}
use text.Mathlib.TextPositions.{eq_refl}
use go_hass_agent.Prelude.Tests.{if◌then◌else◌}

abbrev pub Dict {ℓ} : Type ℓ → Type ℓ
Dict V = List (String × V)

module _ {ℓ} {Val : Type ℓ} where
  -- m[key], with the comma-ok form
  unfoldable pub lookup : String → Dict Val → Option Val
  lookup key [] = none
  lookup key ((name, old) ∷ rest) = if name == key then some old else lookup key rest

  -- m[key] = new
  unfoldable pub insert : String → Val → Dict Val → Dict Val
  insert key new [] = (key, new) ∷ []
  insert key new ((name, old) ∷ rest) =
      if name == key then (key, new) ∷ rest else (name, old) ∷ insert key new rest

  pub lookup-insert :
      (key other : String) (new : Val) (entries : Dict Val)
      → lookup other (insert key new entries)
        ≡ (if key == other then some new else lookup other entries)
  unfolding lookup insert
  lookup-insert key other new [] = ground arith
  lookup-insert key other new ((name, old) ∷ rest) = ground (
    arith,
    lookup-insert key other new rest,
    eq_iff key other,
    eq_iff name key,
    eq_iff name other,
  )

  pub lookup-insert_self :
      (key : String) (new : Val) (entries : Dict Val)
      → lookup key (insert key new entries) ≡ some new
  lookup-insert_self key new entries =
      lookup-insert key key new entries ∙ ground (arith, eq_refl key)

  -- delete(m, key)
  unfoldable pub delete : String → Dict Val → Dict Val
  delete key [] = []
  delete key ((name, old) ∷ rest) =
      let others = delete key rest in if name == key then others else (name, old) ∷ others

  pub lookup-delete :
      (key other : String) (entries : Dict Val)
      → lookup other (delete key entries) ≡ (if key == other then none else lookup other entries)
  unfolding lookup delete
  lookup-delete key other [] = ground arith
  lookup-delete key other ((name, old) ∷ rest) =
      ground
        (arith, lookup-delete key other rest, eq_iff key other, eq_iff name key, eq_iff name other)

  -- A second write to a key replaces the first.
  pub insert-insert :
      (key : String) (old new : Val) (entries : Dict Val)
      → insert key new (insert key old entries) ≡ insert key new entries
  unfolding insert
  insert-insert key old new [] = ground (arith, eq_refl key)
  insert-insert key old new ((name, v) ∷ rest) =
      ground (arith, eq_refl key, eq_iff name key, insert-insert key old new rest)

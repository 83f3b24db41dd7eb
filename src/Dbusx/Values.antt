-- ===== src/Dbusx/Values.antt =====
-- props.go and dbus.go: properties, and the bodies of signals. V is dbus.Variant.
use go_hass_agent.Prelude.{ℕ, String, Option, none, some, List, [], ◌∷◌, ◌==◌, if◌then◌else◌}
use go_hass_agent.Prelude.Dict.{Dict, lookup}

-- A value of a signal's body, of the Go types that the code asserts.
pub data Any (V : Type 0) : Type 0 where
  text : String → Any V
  object_path : String → Any V
  uint32 : ℕ → Any V
  variants : Dict V → Any V
  texts : List String → Any V
  others : Any V

pub data BusError : Type 0 where
  not_prop_changed parse_interface parse_new_props parse_old_props : BusError
  not_val_changed parse_new_val parse_old_val no_session_path : BusError
  not_retrieved not_converted not_set : BusError

pub data Result (A : Type 0) : Type 0 where
  ok : A → Result A
  err : BusError → Result A

-- `Properties`
pub record Properties (V : Type 0) : Type 0 where
  pub interface : String
  pub changed : Dict V
  pub invalidated : List String

-- `Values`
pub record Values (T : Type 0) : Type 0 where
  pub new : T
  pub old : T

-- The type assertions of `ParsePropertiesChanged`, one after the other.
unfoldable pub as_text : {V : Type 0} → Any V → Option String
as_text (text s) = some s
as_text _ = none

unfoldable pub as_variants : {V : Type 0} → Any V → Option (Dict V)
as_variants (variants m) = some m
as_variants _ = none

unfoldable pub as_texts : {V : Type 0} → Any V → Option (List String)
as_texts (texts l) = some l
as_texts _ = none

unfoldable pub three_parts :
    {V : Type 0} → Option String → Option (Dict V) → Option (List String) → Result (Properties V)
three_parts none changed invalidated = err parse_interface
three_parts (some i) none invalidated = err parse_new_props
three_parts (some i) (some c) none = err parse_old_props
three_parts (some i) (some c) (some l) = ok (record { interface = i; changed = c; invalidated = l })

unfoldable pub parse_properties_changed : {V : Type 0} → List (Any V) → Result (Properties V)
unfolding three_parts as_text as_variants as_texts
parse_properties_changed (a ∷ b ∷ c ∷ []) = three_parts (as_text a) (as_variants b) (as_texts c)
parse_properties_changed _ = err not_prop_changed

-- `ParseValueChange`; `as_type` is the assertion to the type T.
unfoldable pub both_values : {T : Type 0} → Option T → Option T → Result (Values T)
both_values none old = err parse_new_val
both_values (some a) none = err parse_old_val
both_values (some a) (some b) = ok (record { new = a; old = b })

unfoldable pub parse_value_change :
    {V T : Type 0} → (Any V → Option T) → List (Any V) → Result (Values T)
unfolding both_values
parse_value_change as_type (a ∷ b ∷ []) = both_values (as_type a) (as_type b)
parse_value_change as_type _ = err not_val_changed

module _ {V T : Type 0} (convert : V → Option T) where
  -- `VariantToValue`, by what godbus can store
  unfoldable pub variant_to_value : V → Result T
  variant_to_value v = elim (convert v) [ none ↦ err not_converted | some x ↦ ok x ]

  -- `Get` of a property; `answer` is what the bus gives for it. Its `valid` returns nil for every
  -- property: the fields with the tags are not exported, and `errors.Is` compares an error of the
  -- validator with a fresh pointer and with a slice, and is false of both.
  unfoldable pub get_property : Option V → Result T
  unfolding variant_to_value
  get_property none = err not_retrieved
  get_property (some v) = variant_to_value v

  -- `HasPropertyChanged`: whether it changed, and the value.
  changed_to : Option V → Result (Option T)
  changed_to none = ok none
  changed_to (some v) = elim (convert v) [ none ↦ err not_converted | some x ↦ ok (some x) ]

  unfoldable pub has_property_changed : String → List (Any V) → Result (Option T)
  unfolding changed_to parse_properties_changed
  has_property_changed property event = elim (parse_properties_changed event) [
    | ok props ↦ changed_to (lookup property props.changed)
    | err e ↦ err e
  ]

-- One session of ListSessions: its user and its path, in fields 2 and 4.
session_path : {V : Type 0} → String → List (Any V) → Option String
session_path user (a ∷ b ∷ text name ∷ d ∷ object_path p ∷ rest) =
    if name == user then some p else none
session_path user _ = none

-- `GetSessionPath`, for the name of the user and the list of sessions, each of five fields.
unfoldable pub get_session_path : {V : Type 0} → String → List (List (Any V)) → Result String
unfolding session_path
get_session_path user [] = err no_session_path
get_session_path user (s ∷ sessions) = elim (session_path user s) [
  | none ↦ get_session_path user sessions
  | some p ↦ ok p
]

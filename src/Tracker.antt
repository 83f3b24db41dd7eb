-- ===== src/Tracker.antt =====
-- internal/hass/sensor/tracker.go. The mutex makes each method one step on the tracker's map.
pub mod Contents
use go_hass_agent.Prelude.{
  String, ◌≡◌, refl, ◌≢◌, Bool, true, false, Option, none, some, List, [], ◌∷◌, arith, eq_iff, ◌==◌,
  if◌then◌else◌,
}
use go_hass_agent.Prelude.Dict.{Dict, lookup, insert}
use go_hass_agent.Prelude.Order.{sort_strings}
use go_hass_agent.Sensor.{Details, State, nil, location, value}

-- `none` is the nil map, which `Reset` leaves behind.
pub record Tracker (V : Type 0) : Type 0 where
  pub sensor : Option (Dict (Details V))

pub data TrackerError : Type 0 where
  tracker_not_ready sensor_not_found : TrackerError

module _ {V : Type 0} where
  unfoldable pub new_tracker : Tracker V
  new_tracker = record { sensor = some [] }

  -- A read of a nil map finds nothing.
  get_in : String → Option (Dict (Details V)) → Option (Details V)
  get_in id none = none
  get_in id (some m) = lookup id m

  -- `Get`: `none` stands for ErrSensorNotFound.
  unfoldable pub get : String → Tracker V → Option (Details V)
  unfolding get_in
  get id t = get_in id t.sensor

  add_in : Details V → Option (Dict (Details V)) → Option TrackerError × Tracker V
  add_in d none = (some tracker_not_ready, record { sensor = none })
  add_in d (some m) = (none, record { sensor = some (insert d.id d m) })

  -- `Add`, with the tracker that it leaves
  unfoldable pub add : Details V → Tracker V → Option TrackerError × Tracker V
  unfolding add_in
  add d t = add_in d t.sensor

  unfoldable pub reset : Tracker V → Tracker V
  reset t = record { sensor = none }

  abbrev pub state_set : State V → Bool
  state_set nil = false
  state_set (location l) = true
  state_set (value v) = true

  -- The loop of `SensorList`, over the entries in the order in which the range visits them.
  unfoldable pub entities : Dict (Details V) → List String
  entities [] = []
  entities ((name, s) ∷ m) =
      let rest = entities m in if state_set s.state then name ∷ rest else rest

  list_in : Option (Dict (Details V)) → Option (List String)
  list_in none = none
  list_in (some m) = some (sort_strings (entities m))

  -- `SensorList`: `none` is the nil slice.
  unfoldable pub sensor_list : Tracker V → Option (List String)
  unfolding list_in
  sensor_list t = list_in t.sensor

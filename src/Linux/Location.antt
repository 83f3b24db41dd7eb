-- ===== src/Linux/Location.antt =====
-- internal/linux/location/location.go: locations from GeoClue. V is float64; its conversion to an int is
-- a parameter, and so are the answers of the bus.
use go_hass_agent.Prelude.{
  String, Bool, false, true, Option, none, some, List, [], ◌∷◌, ◌==◌, if◌then◌else◌,
}
use go_hass_agent.Prelude.Int.{ℤ, pos}
use go_hass_agent.Dbusx.Values.{Any, text}
use go_hass_agent.Sensor.{LocationRequest}

module _ {V : Type 0} (zero_value : V) (to_int : V → ℤ) where
  or_zero : Option V → V
  or_zero none = zero_value
  or_zero (some v) = v

  -- `newLocation`, and whether its error is nil
  unfoldable pub new_location : (String → String → Option V) → String → LocationRequest V × Bool
  unfolding or_zero
  new_location bus path =
      let latitude = bus path "Latitude" in
      let longitude = bus path "Longitude" in
      let speed = bus path "Speed" in
      let altitude = bus path "Altitude" in
      let accuracy = bus path "Accuracy" in
      (
        record {
          gps = or_zero latitude ∷ or_zero longitude ∷ [];
          gps_accuracy = to_int (or_zero accuracy);
          battery = pos 0;
          speed = to_int (or_zero speed);
          altitude = to_int (or_zero altitude);
          course = pos 0;
          vertical_accuracy = pos 0;
        },
        all_read (latitude ∷ longitude ∷ speed ∷ altitude ∷ accuracy ∷ []),
      )
    where
      all_read : List (Option V) → Bool
      all_read [] = true
      all_read (none ∷ rest) = false
      all_read (some v ∷ rest) = all_read rest

  sent_if : LocationRequest V × Bool → List (LocationRequest V)
  sent_if (l, true) = l ∷ []
  sent_if (l, false) = []

  -- One event of the loop: a body with less than two values panics, and is `none`.
  unfoldable pub location_event :
      (String → String → Option V) → List (Any V) → Option (List (LocationRequest V))
  unfolding sent_if new_location
  location_event bus [] = none
  location_event bus (a ∷ []) = none
  location_event bus (a ∷ text path ∷ rest) = some (sent_if (new_location bus path))
  location_event bus (a ∷ b ∷ rest) = some []

-- `createClient`, for the path that the manager gives; `sets_id` says whether the client's id can
-- be set.
unfoldable pub create_client : Option String → Bool → Option String
create_client none sets_id = none
create_client (some path) sets_id = if path == "" then none else if sets_id then some path else none

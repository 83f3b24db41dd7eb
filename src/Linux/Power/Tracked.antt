-- ===== src/Linux/Power/Tracked.antt =====
-- What becomes of the sensors of a laptop in the tracker.
use go_hass_agent.Prelude.{String, Bool, Option, none, some, [], ◌∷◌, ◌≡◌, refl}
use go_hass_agent.Prelude.Dict.{Dict}
use go_hass_agent.Sensor.{Details, State, nil, value}
use go_hass_agent.Tracker.{Tracker, add}
use go_hass_agent.Tracker.Contents.{add-add}
use go_hass_agent.Linux.{sensor_type, category, attributes}
use go_hass_agent.Linux.Power.Laptop.{LaptopSensor, new_laptop_event, laptop_icon}

state_of : {V : Type 0} → (Bool → V) → Option Bool → State V
state_of of_bool none = nil
state_of of_bool (some b) = value (of_bool b)

texts_of : {V : Type 0} → (String → V) → Dict String → Dict V
texts_of of_text [] = []
texts_of of_text ((key, t) ∷ rest) = (key, of_text t) ∷ texts_of of_text rest

-- The Details of a laptopSensor: the methods of linux.Sensor, but for `Icon`.
unfoldable pub laptop_details : {V : Type 0} → (Bool → V) → (String → V) → LaptopSensor → Details V
unfolding state_of texts_of laptop_icon sensor_type category attributes
laptop_details of_bool of_text s = record {
  id = s.sensor.unique_id;
  icon = laptop_icon s;
  state = state_of of_bool s.sensor.value;
  sensor_type = sensor_type s.sensor;
  units = s.sensor.units_string;
  attributes = texts_of of_text (attributes s.sensor);
  name = s.sensor.display_name;
  device_class = s.sensor.device_class_value;
  state_class = s.sensor.state_class_value;
  category = category s.sensor;
}

-- The sensors of a laptop have no unique id, so that they are one and the same to the tracker: to add
-- the one of a property after the one of another leaves what adding the second alone does.
pub laptop_sensors_overwrite :
    {V : Type 0} (of_bool : Bool → V) (of_text : String → V) (t : Tracker V) (first second : String)
    (a b : Bool)
    → add
        (laptop_details of_bool of_text (new_laptop_event second b))
        (add (laptop_details of_bool of_text (new_laptop_event first a)) t).1
      ≡ add (laptop_details of_bool of_text (new_laptop_event second b)) t
unfolding laptop_details new_laptop_event
laptop_sensors_overwrite of_bool of_text t first second a b =
    add-add (laptop_details of_bool of_text (new_laptop_event first a))
      (laptop_details of_bool of_text (new_laptop_event second b)) t refl

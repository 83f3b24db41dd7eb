-- ===== src/Sensor/Request.antt =====
-- internal/hass/sensor/sensor.go: the bodies of the three requests, and NewRequest.
use go_hass_agent.Prelude.{String, Option, none, some, ◌==◌, if◌then◌else◌}
use go_hass_agent.Prelude.Dict.{Dict}
use go_hass_agent.Sensor.{State, nil, value, Details, LocationRequest}
use go_hass_agent.Sensor.Classes.{
  sensor_class_string, state_class_string, state_class_set, device_class_string, device_class_set,
}

pub record StateUpdateRequest (V : Type 0) : Type 0 where
  pub state_attributes : Dict V
  pub state : State V
  pub icon : String
  pub type : String
  pub unique_id : String

pub record RegistrationRequest (V : Type 0) : Type 0 where
  pub update : StateUpdateRequest V
  pub name : String
  pub unit_of_measurement : String
  pub state_class : String
  pub entity_category : String
  pub device_class : String

pub data Body (V : Type 0) : Type 0 where
  registration : RegistrationRequest V → Body V
  update : StateUpdateRequest V → Body V
  location : LocationRequest V → Body V

pub record Request (V : Type 0) : Type 0 where
  pub body : Body V
  pub request_type : String

pub data RequestError : Type 0 where
  not_location unknown_details : RequestError

pub data RequestResult (V : Type 0) : Type 0 where
  ok : Request V → RequestResult V
  err : RequestError → RequestResult V

abbrev pub request_type_register : String
request_type_register = "register_sensor"

abbrev pub request_type_update : String
request_type_update = "update_sensor_states"

abbrev pub request_type_location : String
request_type_location = "update_location"

module _ {V : Type 0} where
  unfoldable pub create_state_update_request : Details V → StateUpdateRequest V
  create_state_update_request sensor = record {
    state_attributes = sensor.attributes;
    state = sensor.state;
    icon = sensor.icon;
    type = sensor_class_string sensor.sensor_type;
    unique_id = sensor.id;
  }

  unfoldable pub create_registration_request : Details V → RegistrationRequest V
  unfolding create_state_update_request
  create_registration_request sensor = record {
    update = create_state_update_request sensor;
    name = sensor.name;
    unit_of_measurement = sensor.units;
    state_class =
        if state_class_set sensor.state_class then state_class_string sensor.state_class else "";
    entity_category = sensor.category;
    device_class =
        if device_class_set sensor.device_class
        then device_class_string sensor.device_class
        else "";
  }

  -- details.State().(*LocationRequest)
  unfoldable pub as_location : State V → Option (LocationRequest V)
  as_location (State.location l) = some l
  as_location nil = none
  as_location (value v) = none

  unfoldable pub location_request : Option (LocationRequest V) → RequestResult V
  location_request none = err not_location
  location_request (some l) =
      ok (record { body = Body.location l; request_type = request_type_location })

  unfoldable pub new_request : String → Details V → RequestResult V
  unfolding create_registration_request as_location location_request
  new_request req_type details =
      if req_type == request_type_register
      then ok (record {
        body = registration (create_registration_request details);
        request_type = req_type;
      })
      else if req_type == request_type_update
      then ok (record {
        body = Body.update (create_state_update_request details);
        request_type = req_type;
      })
      else if req_type == request_type_location
      then location_request (as_location details.state)
      else err unknown_details

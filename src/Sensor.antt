-- ===== src/Sensor.antt =====
-- internal/hass/sensor/sensor.go: what a sensor is, and the requests and responses that the
-- client exchanges with Home Assistant about it.
pub mod Classes
pub mod Request
use go_hass_agent.Prelude.{ℕ, String, List, Option, none, some, Bool, true, false}
use go_hass_agent.Prelude.Dict.{Dict}
use go_hass_agent.Prelude.Int.{ℤ}
use Classes.{SensorClass, StateClass, DeviceClass}

-- `V` stands for the Go values (`any`, `float64`) that the code only passes on.
pub record LocationRequest (V : Type 0) : Type 0 where
  pub gps : List V
  pub gps_accuracy : ℤ
  pub battery : ℤ
  pub speed : ℤ
  pub altitude : ℤ
  pub course : ℤ
  pub vertical_accuracy : ℤ

-- What State() returns: nil, a *LocationRequest, or any other value.
pub data State (V : Type 0) : Type 0 where
  nil : State V
  location : LocationRequest V → State V
  value : V → State V

-- The Details interface: the values of its methods.
pub record Details (V : Type 0) : Type 0 where
  pub id : String
  pub icon : String
  pub state : State V
  pub sensor_type : SensorClass
  pub units : String
  pub attributes : Dict V
  pub name : String
  pub device_class : DeviceClass
  pub state_class : StateClass
  pub category : String

-- APIError; a code is a number or a text.
pub data Code : Type 0 where
  absent : Code
  number : ℕ → Code
  text : String → Code

pub record ApiError : Type 0 where
  pub code : Code
  pub message : String

pub record ResponseStatus : Type 0 where
  pub error_details : Option ApiError
  pub is_success : Bool

pub record UpdateResponseStatus : Type 0 where
  pub status : ResponseStatus
  pub open status use *
  pub is_disabled : Bool

-- Success() and Registered() return the pointer ErrorDetails as an `error`, which is not nil
-- also where the pointer is. So a failure always comes with an error.
unfoldable pub success : ResponseStatus → Bool × Option (Option ApiError)
success u = outcome u.is_success u.error_details
  where
    outcome : Bool → Option ApiError → Bool × Option (Option ApiError)
    outcome true e = (true, none)
    outcome false e = (false, some e)

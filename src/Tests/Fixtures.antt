-- ===== src/Tests/Fixtures.antt =====
-- Concrete values that the tests share: sensors, what Home Assistant answers, and a client.
use go_hass_agent.Prelude.{String, ℕ, Bool, true, false, none, some, [], ◌∷◌}
use go_hass_agent.Prelude.Int.{pos}
use go_hass_agent.Prelude.Dict.{Dict}
use go_hass_agent.Sensor.{
  Details, State, location, value, LocationRequest, ResponseStatus, UpdateResponseStatus,
}
use go_hass_agent.Sensor.Classes.{sensor, StateClass, DeviceClass}
use go_hass_agent.Sensor.Request.{Request}
use go_hass_agent.Registry.Gob.{GobRegistry, Metadata}
use go_hass_agent.Client.{Server, Endpoint, World}

abbrev pub details : String → State ℕ → Details ℕ
details id s = record {
  id = id;
  icon = "mdi:test";
  state = s;
  sensor_type = sensor;
  units = "%";
  attributes = [];
  name = "Test";
  device_class = DeviceClass.none;
  state_class = StateClass.none;
  category = "";
}

abbrev pub battery : Details ℕ
battery = details "battery" (value 80)

abbrev pub place : LocationRequest ℕ
place = record {
  gps = 52 ∷ 13 ∷ [];
  gps_accuracy = pos 10;
  battery = pos 0;
  speed = pos 0;
  altitude = pos 0;
  course = pos 0;
  vertical_accuracy = pos 0;
}

abbrev pub here : Details ℕ
here = details "location" (location place)

abbrev pub ok_status : ResponseStatus
ok_status = record { error_details = none; is_success = true }

-- An update disables the battery sensor.
abbrev pub answers : Dict UpdateResponseStatus
answers = ("battery", record { status = ok_status; is_disabled = true }) ∷ []

abbrev pub ha : Server ℕ
ha = record {
  config = record {
    status = 200;
    status_text = "200 OK";
    result = record { entities = some []; version = "2024.11" };
  };
  update = λ r. record { status = 200; status_text = "200 OK"; result = some answers };
  register = λ r. record { status = 201; status_text = "201 Created"; result = ok_status };
  location = λ r. record { status = 200; status_text = "200 OK"; result = tt };
}

-- Home Assistant answers every request with an error.
abbrev pub broken_ha : Server ℕ
broken_ha = record {
  config = record {
    status = 500;
    status_text = "500";
    result = record { entities = none; version = "" };
  };
  update = λ r. record { status = 500; status_text = "500"; result = none };
  register = λ r. record {
    status = 500;
    status_text = "500";
    result = record { error_details = none; is_success = false };
  };
  location = λ r. record { status = 500; status_text = "500"; result = tt };
}

abbrev pub accept : Request ℕ → Bool
accept r = true

abbrev pub webhook : Endpoint
webhook = record { url = "http://localhost:8123/api/webhook/1"; timeout = 30 }

abbrev pub registry_of : Dict Metadata → GobRegistry
registry_of m = record { sensors = m; file = []; outcomes = [] }

abbrev pub world_of : Dict Metadata → World ℕ GobRegistry
world_of m = record {
  client = record {
    endpoint = some webhook;
    tracker = record { sensor = some [] };
    registry = registry_of m;
  };
  sent = [];
}

abbrev pub new_world : World ℕ GobRegistry
new_world = world_of []

abbrev pub known_world : World ℕ GobRegistry
known_world = world_of (("battery", record { registered = true; disabled = false }) ∷ [])

abbrev pub disabled_world : World ℕ GobRegistry
disabled_world = world_of (("battery", record { registered = true; disabled = true }) ∷ [])

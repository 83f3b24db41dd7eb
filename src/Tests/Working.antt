-- ===== src/Tests/Working.antt =====
-- The theorems of the workers, the scripts and the websocket at concrete values.
use go_hass_agent.Prelude.{◌≡◌, ◌≢◌, refl, true, false, none, some, List, [], ◌∷◌, arith}
use go_hass_agent.Sensor.{Code}
use go_hass_agent.Prelude.Dict.{lookup}
use go_hass_agent.Agent.Workers.{
  DeviceController, stops, start_all, stop_all, panicked, external_ip,
}
use go_hass_agent.Agent.Lifecycle.{worker, Started, start-Started}
use go_hass_agent.Agent.Shutdown.{IsValid, stop_all-start_all_returns}
use go_hass_agent.Websocket.{
  Session, Event, message, tick, reply_written, ping_written, run, WebsocketResponse,
}
use go_hass_agent.Websocket.Ids.{IdsRise, run-Rises}
use go_hass_agent.Websocket.Auth.{reveals, token_on_demand}

abbrev two : DeviceController
two = record {
  sensor_workers =
      ("external_ip_sensor", record { object = external_ip false; started = false })
      ∷ ("running", record { object = external_ip true; started = true })
      ∷ [];
}

start-Started_example : Started "external_ip_sensor" two (worker "external_ip_sensor" two)
start-Started_example = start-Started "external_ip_sensor" two

two-IsValid : IsValid two
unfolding lookup stops
two-IsValid j = ground arith

stop_all-start_all_returns_example : (stop_all (start_all two).1).0 ≢ panicked
stop_all-start_all_returns_example = stop_all-start_all_returns two two-IsValid

abbrev session : Session
session = record {
  socket = record { token = "secret"; webhook_id = "hook"; url = "ws://localhost"; next_id = 4 };
  alive = true;
  pinging = none;
  repeating = false;
  replying = none;
}

abbrev auth_required : WebsocketResponse
auth_required = record {
  error = record { code = Code.absent; message = "" };
  type = "auth_required";
  notification = record { message = ""; title = ""; confirm_id = ""; target = [] };
  success = false;
}

-- The ping is written after the reply to a message that came in the meantime.
abbrev busy : List Event
busy =
    tick true
    ∷ message (some auth_required)
    ∷ reply_written
    ∷ ping_written
    ∷ message none
    ∷ tick true
    ∷ ping_written
    ∷ []

run-Rises_example : IdsRise 4 4 (run busy session).0 (run busy session).1.next_id
run-Rises_example = run-Rises busy session refl refl (omega arith)

abbrev quiet : List Event
quiet = tick true ∷ message none ∷ ping_written ∷ []

token_on_demand_example :
    (reveals "secret" (run quiet session).0 ≡ false)
    × (reveals "secret" (run (message (some auth_required) ∷ reply_written ∷ []) session).0 ≡ true)
token_on_demand_example =
    token_on_demand quiet session auth_required refl refl refl (refl, refl, refl, refl)
      (tt, (tt, (tt, tt))) refl

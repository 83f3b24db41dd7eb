-- ===== src/Tests/Processing.antt =====
-- The client's theorems at concrete sensors and answers.
use go_hass_agent.Prelude.{String, ◌≡◌, refl, true, some, [], ◌∷◌, ◌++◌, if◌then◌else◌, ◌==◌}
use go_hass_agent.Prelude.Dict.{lookup}
use go_hass_agent.Sensor.Request.{as_location, new_request}
use go_hass_agent.Registry.{RegistryApi}
use go_hass_agent.Registry.Gob.{GobRegistry, is_disabled, is_registered}
use go_hass_agent.Registry.Memory.{gob_api}
use go_hass_agent.Tracker.{get}
use go_hass_agent.Client.{send}
use go_hass_agent.Client.Process.{process_sensor, handle_sensor_update, bad_request}
use go_hass_agent.Client.Process
use go_hass_agent.Client.Traffic.{probe, payload, sent-process_sensor}
use go_hass_agent.Client.Sync.{Updated, handle_sensor_update-Updated}
use go_hass_agent.Client.History.{registrations, process_all, process_all_registers_once}
use go_hass_agent.Client.Outcomes.{process_sensor_registers, process_sensor_refused}
use go_hass_agent.Tests.Codec.{toy_codec}
use go_hass_agent.Tests.Fixtures.{
  battery, answers, ha, broken_ha, accept, webhook, new_world, known_world, disabled_world,
}

abbrev api : RegistryApi GobRegistry
api = gob_api toy_codec

sent-process_sensor_example :
    (process_sensor api accept ha battery disabled_world).1.sent
    ≡ probe api accept battery disabled_world.registry
      ++ payload api accept ha battery disabled_world.registry
sent-process_sensor_example = sent-process_sensor api accept ha battery disabled_world webhook refl

process_all_registers_once_example :
    (registrations "battery"
        (process_all api accept ((ha, battery) ∷ (broken_ha, battery) ∷ []) known_world).sent
      ≡ 0)
    × (is_registered "battery"
          (process_all api accept ((ha, battery) ∷ (broken_ha, battery) ∷ []) known_world).registry
        ≡ true)
unfolding is_registered lookup registrations
process_all_registers_once_example =
    process_all_registers_once api accept "battery" ((ha, battery) ∷ (broken_ha, battery) ∷ [])
      known_world webhook refl refl

process_sensor_registers_example :
    ((j : String)
      → (is_registered j (process_sensor api accept ha battery new_world).1.registry
          ≡ (if "battery" == j then true else is_registered j new_world.registry))
        × (is_disabled j (process_sensor api accept ha battery new_world).1.registry
            ≡ is_disabled j new_world.registry))
    × (get "battery" (process_sensor api accept ha battery new_world).1.tracker ≡ some battery)
unfolding is_disabled is_registered lookup as_location
process_sensor_registers_example =
    process_sensor_registers api accept ha battery new_world webhook refl refl refl refl refl refl
      refl

handle_sensor_update-Updated_example :
    Updated api accept battery answers known_world.client
      (handle_sensor_update api accept ha battery known_world).1.client
unfolding lookup
handle_sensor_update-Updated_example =
    handle_sensor_update-Updated api accept ha battery known_world webhook answers refl refl refl
      refl (refl, tt)

process_sensor_refused_example :
    (process_sensor api accept broken_ha battery known_world).1.client ≡ known_world.client
unfolding is_disabled lookup process_sensor Process.is_disabled is_registered handle_sensor_update
    new_request send
process_sensor_refused_example =
    process_sensor_refused api accept broken_ha battery known_world refl tt

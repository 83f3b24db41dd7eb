-- ===== src/Linux/System/Time.antt =====
-- time.go
use go_hass_agent.Prelude.{
  ℕ, suc, ◌+◌, String, Bool, true, false, Option, none, some, List, [], ◌∷◌, ◌++◌, ◌≡◌, refl, ◌==◌,
  if◌then◌else◌, arith, length,
}
use go_hass_agent.Prelude.Text.{words}
use go_hass_agent.Sensor.Classes.{StateClass, measurement, duration, timestamp}
use go_hass_agent.Linux.{LinuxSensor}

-- What the code does with float64: the zero, strconv.ParseFloat, and x / 60 / 60.
pub record Floats (F : Type 0) : Type 0 where
  pub zero_seconds : F
  pub parse_float : String → Option F
  pub hours : F → F

pub data TimeValue (F : Type 0) : Type 0 where
  number : F → TimeValue F
  time : String → TimeValue F

-- timeWorker, with the boot time as it is printed
pub record TimeWorker : Type 0 where
  pub boottime : String
  pub boottime_sent : Bool

-- `NewTimeWorker`, for the boot time of the context
unfoldable pub new_time_worker : Option String → Option TimeWorker
new_time_worker none = none
new_time_worker (some boottime) = some (record { boottime = boottime; boottime_sent = false })

module _ {F : Type 0} (floats : Floats F) where
  parsed : Option F → F
  parsed none = floats.zero_seconds
  parsed (some x) = x

  first_word : List String → F
  unfolding parsed
  first_word [] = floats.zero_seconds
  first_word (w ∷ rest) = parsed (floats.parse_float w)

  -- `getUptime`, for the text of the file
  unfoldable pub get_uptime : Option String → F
  unfolding first_word
  get_uptime none = floats.zero_seconds
  get_uptime (some text) = first_word (words text)

  unfoldable pub uptime_sensor : Option String → LinuxSensor (TimeValue F)
  unfolding get_uptime
  uptime_sensor file = record {
    display_name = "Uptime";
    unique_id = "uptime";
    last_reset = "";
    value = some (number (floats.hours (get_uptime file)));
    icon_string = "mdi:restart";
    units_string = "h";
    data_source = "";
    device_class_value = duration;
    state_class_value = measurement;
    is_binary = false;
    is_diagnostic = true;
  }

  unfoldable pub reboot_sensor : String → LinuxSensor (TimeValue F)
  reboot_sensor boottime = record {
    display_name = "Last Reboot";
    unique_id = "last_reboot";
    last_reset = "";
    value = some (time boottime);
    icon_string = "mdi:restart";
    units_string = "";
    data_source = "";
    device_class_value = timestamp;
    state_class_value = StateClass.none;
    is_binary = false;
    is_diagnostic = true;
  }

  -- `Sensors`
  unfoldable pub time_sensors :
      Option String → TimeWorker → List (LinuxSensor (TimeValue F)) × TimeWorker
  unfolding uptime_sensor reboot_sensor
  time_sensors file w =
      if w.boottime_sent
      then (uptime_sensor file ∷ [], w)
      else (uptime_sensor file ∷ reboot_sensor w.boottime ∷ [], record w { boottime_sent = true })

  -- What the calls of `Sensors` return, one after the other.
  unfoldable pub all_sensors : List (Option String) → TimeWorker → List (LinuxSensor (TimeValue F))
  unfolding time_sensors
  all_sensors [] w = []
  all_sensors (file ∷ files) w =
      let (sensors, w') = time_sensors file w in sensors ++ all_sensors files w'

  -- How many of the sensors have an id.
  unfoldable pub count_id : String → List (LinuxSensor (TimeValue F)) → ℕ
  count_id id [] = 0
  count_id id (s ∷ rest) = (if s.unique_id == id then 1 else 0) + count_id id rest

  sent_before :
      (files : List (Option String)) (w : TimeWorker)
      → w.boottime_sent ≡ true
      → (count_id "last_reboot" (all_sensors files w) ≡ 0)
        × (count_id "uptime" (all_sensors files w) ≡ length files)
  unfolding all_sensors count_id time_sensors uptime_sensor
  sent_before [] w h = (refl, refl)
  sent_before (file ∷ files) w h = ground (arith, h, sent_before files w h)

  -- The time of the last reboot is sent once, with the first of any number of rounds, and the uptime
  -- with each of them.
  pub reboot_sent_once :
      (file : Option String) (files : List (Option String)) (w : TimeWorker)
      → w.boottime_sent ≡ false
      → (count_id "last_reboot" (all_sensors (file ∷ files) w) ≡ 1)
        × (count_id "uptime" (all_sensors (file ∷ files) w) ≡ suc (length files))
  unfolding all_sensors count_id time_sensors uptime_sensor reboot_sensor
  reboot_sent_once file files w h =
      ground (arith, h, sent_before files (record w { boottime_sent = true }) refl)

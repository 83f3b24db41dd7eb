-- ===== src/Linux/Problems.antt =====
-- internal/linux/problems/problems.go: the problems that ABRT knows. Printing of times, and the
-- parsers of strconv with their errors, are parameters.
use go_hass_agent.Prelude.{
  ℕ, String, false, ◌||◌, Option, none, some, List, [], ◌∷◌, ◌==◌, length, if◌then◌else◌, ◌≡◌,
}
use go_hass_agent.Prelude.Dict.{Dict, lookup, insert}
use go_hass_agent.Prelude.Int.{ℤ, pos}
use go_hass_agent.Sensor.Classes.{DeviceClass, measurement}
use go_hass_agent.Linux.{LinuxSensor}

-- A detail of a problem.
pub data Detail : Type 0 where
  word : String → Detail
  number : ℤ → Detail

-- `parse_time` reads seconds and prints the time; `parse_int` is strconv.Atoi.
pub record Parsers : Type 0 where
  pub parse_time : String → Option String
  pub parse_int : String → Option ℤ

pub record ProblemsSensor : Type 0 where
  pub list : Dict (Dict Detail)
  pub sensor : LinuxSensor ℕ

unfoldable pub new_problems_sensor : ProblemsSensor
new_problems_sensor = record {
  list = [];
  sensor = record {
    display_name = "Problems";
    unique_id = "problems";
    last_reset = "";
    value = none;
    icon_string = "mdi:alert";
    units_string = "problems";
    data_source = "D-Bus";
    device_class_value = DeviceClass.none;
    state_class_value = measurement;
    is_binary = false;
    is_diagnostic = false;
  };
}

time_detail : Option String → Detail
time_detail none = number (pos 0)
time_detail (some t) = word t

count_detail : Option ℤ → Detail
count_detail none = number (pos 0)
count_detail (some n) = number n

module _ (parsers : Parsers) where
  unfoldable pub parse_detail : String → String → Dict Detail → Dict Detail
  unfolding time_detail count_detail
  parse_detail key value parsed =
      if key == "time"
      then insert "time" (time_detail (parsers.parse_time value)) parsed
      else if key == "count"
      then insert "count" (count_detail (parsers.parse_int value)) parsed
      else if key == "package" || key == "reason"
      then insert key (word value) parsed
      else parsed

  parse_details : Dict String → Dict Detail → Dict Detail
  unfolding parse_detail
  parse_details [] parsed = parsed
  parse_details ((key, value) ∷ rest) parsed = parse_details rest (parse_detail key value parsed)

  -- `parseProblem`
  unfoldable pub parse_problem : Dict String → Dict Detail
  unfolding parse_details
  parse_problem details = parse_details details []

  with_problem : String → Option (Dict String) → Dict (Dict Detail) → Dict (Dict Detail)
  unfolding parse_problem
  with_problem problem none list = list
  with_problem problem (some details) list = insert problem (parse_problem details) list

  details_of :
      (String → Option (Dict String)) → List String → Dict (Dict Detail) → Dict (Dict Detail)
  unfolding with_problem
  details_of get [] list = list
  details_of get (p ∷ problems) list = details_of get problems (with_problem p (get p) list)

  -- `Sensors`, for the list of problems and the details of each; `none` is its error.
  unfoldable pub problem_sensors :
      Option (List String) → (String → Option (Dict String)) → Option (List ProblemsSensor)
  unfolding details_of new_problems_sensor
  problem_sensors none get = none
  problem_sensors (some problems) get = some (
      record {
        list = details_of get problems [];
        sensor = record new_problems_sensor.sensor { value = some (length problems) };
      }
      ∷ [])

abbrev pub NoEntry : String → Dict Detail → Type 0
NoEntry key parsed = lookup key parsed ≡ none

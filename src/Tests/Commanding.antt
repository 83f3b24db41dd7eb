-- ===== src/Tests/Commanding.antt =====
-- The theorems of the commands and the network rates at concrete values.
use go_hass_agent.Prelude.{
  ℕ, ◌+◌, ◌*◌, ◌≤◌, String, ◌≡◌, refl, false, some, List, [], ◌∷◌, ◌==◌, arith,
}
use go_hass_agent.Prelude.Int.{pos}
use go_hass_agent.Prelude.Split.{split_spaces}
use go_hass_agent.Commands.{int64, float64, other, Command, CommandList, Os}
use go_hass_agent.Linux.Counts.{
  whole_seconds, NetIoRateSensor, new_net_io_rate_sensor, bytes_recv_rate,
}
use go_hass_agent.Linux.Rates.{reported, reported_le_counted}

-- A machine on which every process prints ON.
abbrev machine : Os
machine = record {
  output = λ argv. some "ON";
  trim_space = λ s. s;
  parses_int = λ s. false;
  parses_float = λ s. false;
  contains = λ s t. s == t;
}

abbrev lamp : Command ℕ
lamp = record {
  name = "lamp";
  exec = "lamp toggle";
  icon = "";
  display = "";
  number_type = "";
  min = other;
  max = other;
  step = other;
}

abbrev volume : Command ℕ
volume = record {
  name = "volume";
  exec = "volume";
  icon = "";
  display = "slider";
  number_type = "int";
  min = int64 (pos 5);
  max = int64 (pos 60);
  step = int64 (pos 5);
}

abbrev level : Command ℕ
level = record {
  name = "level";
  exec = "level";
  icon = "";
  display = "box";
  number_type = "float";
  min = float64 1;
  max = float64 2;
  step = float64 1;
}

abbrev commands : CommandList ℕ
commands = record { buttons = lamp ∷ []; switches = lamp ∷ []; numbers = volume ∷ level ∷ [] }

abbrev snake : String → String
snake s = s

two_words : split_spaces "lamp toggle" ≡ "lamp" ∷ "toggle" ∷ []
unfolding split_spaces
two_words = refl

abbrev samples : List (ℕ × ℕ)
samples = (5000000000, 1000) ∷ (5900000000, 2000) ∷ (400000000, 2004) ∷ (7000000001, 5000) ∷ []

abbrev downstream : NetIoRateSensor
downstream = new_net_io_rate_sensor snake bytes_recv_rate

reported_le_counted_example :
    (reported whole_seconds samples downstream + 0 ≤ 5000)
    × (reported (λ elapsed. elapsed) samples downstream + 2000000000 * 0 ≤ 2000000000 * 5000)
unfolding new_net_io_rate_sensor
reported_le_counted_example = reported_le_counted samples downstream (
  omega arith,
  omega arith,
  (omega arith, omega arith, (omega arith, omega arith, (omega arith, omega arith, tt))),
)

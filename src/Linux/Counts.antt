-- ===== src/Linux/Counts.antt =====
-- internal/linux/net/networkRates.go: the worker of the network's counters and rates. The
-- counters are read by the gopsutil library, and strcase.ToSnake makes the identifiers.
use go_hass_agent.Prelude.{
  ℕ, ◌+◌, ◌-◌, ◌*◌, ◌≤◌, ◌<◌, arith, ◌/◌, ◌%◌, ◌^◌, String, false, not, ◌&&◌, Option, none, some,
  ltb, nat_eq, if◌then◌else◌,
}
use go_hass_agent.Sensor.Classes.{measurement, DeviceClass, data_size, data_rate}
use go_hass_agent.Linux.{LinuxSensor}

pub data RateSensor : Type 0 where
  bytes_sent bytes_recv bytes_sent_rate bytes_recv_rate : RateSensor

-- networkRates_generated.go
unfoldable pub rate_sensor_string : RateSensor → String
rate_sensor_string bytes_sent = "Bytes Sent"
rate_sensor_string bytes_recv = "Bytes Received"
rate_sensor_string bytes_sent_rate = "Bytes Sent Throughput"
rate_sensor_string bytes_recv_rate = "Bytes Received Throughput"

-- net.IOCountersStat: the fields the sensors read, each a uint64
pub record IoCountersStat : Type 0 where
  pub bytes_sent : ℕ
  pub bytes_recv : ℕ
  pub packets_sent : ℕ
  pub packets_recv : ℕ
  pub errin : ℕ
  pub errout : ℕ
  pub dropin : ℕ
  pub dropout : ℕ
  pub fifoin : ℕ
  pub fifoout : ℕ

pub record NetIoSensor : Type 0 where
  pub sensor : LinuxSensor ℕ
  pub sensor_type : RateSensor
  pub packets : ℕ
  pub errors : ℕ
  pub drops : ℕ
  pub fifo_errors : ℕ

pub record NetIoRateSensor : Type 0 where
  pub sensor : LinuxSensor ℕ
  pub sensor_type : RateSensor
  pub last_value : ℕ

unfoldable pub icon : RateSensor → String
icon bytes_recv = "mdi:download-network"
icon bytes_sent = "mdi:upload-network"
icon bytes_sent_rate = "mdi:help-network"
icon bytes_recv_rate = "mdi:help-network"

unfoldable pub rate_icon : RateSensor → String
rate_icon bytes_recv_rate = "mdi:transfer-down"
rate_icon bytes_sent_rate = "mdi:transfer-up"
rate_icon bytes_sent = "mdi:help-network"
rate_icon bytes_recv = "mdi:help-network"

counted : RateSensor → IoCountersStat → NetIoSensor → NetIoSensor
counted bytes_recv c s = record s {
  sensor = record s.sensor { value = some c.bytes_recv };
  packets = c.packets_recv;
  errors = c.errin;
  drops = c.dropin;
  fifo_errors = c.fifoin;
}
counted bytes_sent c s = record s {
  sensor = record s.sensor { value = some c.bytes_sent };
  packets = c.packets_sent;
  errors = c.errout;
  drops = c.dropout;
  fifo_errors = c.fifoout;
}
counted bytes_sent_rate c s = s
counted bytes_recv_rate c s = s

-- `update` of netIOSensor
unfoldable pub update_count : IoCountersStat → NetIoSensor → NetIoSensor
unfolding counted
update_count c s = counted s.sensor_type c s

-- a - b on uint64
unfoldable pub sub_64 : ℕ → ℕ → ℕ
sub_64 a b = (a + 2 ^ 64 - b) % 2 ^ 64

-- uint64(d.Seconds()), of a duration in nanoseconds: the fraction is dropped.
unfoldable pub whole_seconds : ℕ → ℕ
whole_seconds elapsed = elapsed / 1000000000

pub whole_seconds_lem :
    (elapsed : ℕ)
    → (1000000000 * whole_seconds elapsed ≤ elapsed)
      × (elapsed < 1000000000 * whole_seconds elapsed + 1000000000)
unfolding whole_seconds
whole_seconds_lem elapsed = (omega arith, omega arith)

-- The value of the rate sensor, from the nanoseconds gone by and the two counters.
unfoldable pub rate : ℕ → ℕ → ℕ → ℕ
unfolding sub_64
rate elapsed last current =
    if ltb 0 (whole_seconds elapsed) && not (nat_eq last 0)
    then sub_64 current last / whole_seconds elapsed
    else 0

-- `update` of netIORateSensor
unfoldable pub update_rate : ℕ → ℕ → NetIoRateSensor → NetIoRateSensor
unfolding rate
update_rate elapsed current s = record s {
  sensor = record s.sensor { value = some (rate elapsed s.last_value current) };
  last_value = current;
}

base_sensor : (String → String) → RateSensor → String → DeviceClass → LinuxSensor ℕ
base_sensor to_snake t units device_class = record {
  display_name = rate_sensor_string t;
  unique_id = to_snake (rate_sensor_string t);
  last_reset = "";
  value = none;
  icon_string = "";
  units_string = units;
  data_source = "ProcFS";
  device_class_value = device_class;
  state_class_value = measurement;
  is_binary = false;
  is_diagnostic = false;
}

unfoldable pub new_net_io_sensor : (String → String) → RateSensor → NetIoSensor
unfolding base_sensor
new_net_io_sensor to_snake t = record {
  sensor = base_sensor to_snake t "B" data_size;
  sensor_type = t;
  packets = 0;
  errors = 0;
  drops = 0;
  fifo_errors = 0;
}

unfoldable pub new_net_io_rate_sensor : (String → String) → RateSensor → NetIoRateSensor
unfolding base_sensor
new_net_io_rate_sensor to_snake t = record {
  sensor = base_sensor to_snake t "B/s" data_rate;
  sensor_type = t;
  last_value = 0;
}

pub record RatesWorker : Type 0 where
  pub bytes_rx : NetIoSensor
  pub bytes_tx : NetIoSensor
  pub bytes_rx_rate : NetIoRateSensor
  pub bytes_tx_rate : NetIoRateSensor

unfoldable pub new_rates_worker : (String → String) → RatesWorker
unfolding new_net_io_sensor new_net_io_rate_sensor
new_rates_worker to_snake = record {
  bytes_rx = new_net_io_sensor to_snake bytes_recv;
  bytes_tx = new_net_io_sensor to_snake bytes_sent;
  bytes_rx_rate = new_net_io_rate_sensor to_snake bytes_recv_rate;
  bytes_tx_rate = new_net_io_rate_sensor to_snake bytes_sent_rate;
}

pub data FetchError : Type 0 where
  fetch_failed : FetchError

-- `Sensors`: what the library reads, if it can, and the time since the last time. The list it
-- returns holds pointers to the four sensors of the worker, so it is read off the worker.
unfoldable pub sensors : Option IoCountersStat → ℕ → RatesWorker → Option FetchError × RatesWorker
unfolding update_count update_rate
sensors none elapsed w = (some fetch_failed, w)
sensors (some c) elapsed w = (
  none,
  record {
    bytes_rx = update_count c w.bytes_rx;
    bytes_tx = update_count c w.bytes_tx;
    bytes_rx_rate = update_rate elapsed c.bytes_recv w.bytes_rx_rate;
    bytes_tx_rate = update_rate elapsed c.bytes_sent w.bytes_tx_rate;
  },
)

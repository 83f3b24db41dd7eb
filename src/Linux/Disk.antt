-- ===== src/Linux/Disk.antt =====
-- internal/linux/disk/ioSensors.go and ioWorker.go: the counters and rates of disks. Reading
-- /proc and /sys is a parameter, and so are the texts of the sensors' attributes.
pub mod Sectors
pub mod Sent
pub mod Files
pub mod Mounts
pub mod MountIds
use go_hass_agent.Prelude.{
  ℕ, ◌+◌, ◌/◌, ◌%◌, ◌^◌, String, Bool, true, false, ◌||◌, Option, none, some, List, [], ◌∷◌, ◌++◌,
  map, ltb, if◌then◌else◌,
}
use go_hass_agent.Prelude.Dict.{Dict, lookup, insert}
use go_hass_agent.Linux.Counts.{sub_64, whole_seconds}

-- The statistics that the sensors read, of those of ioStats.go.
pub data Stat : Type 0 where
  total_reads total_sectors_read total_time_reading : Stat
  total_writes total_sectors_written total_time_writing : Stat

-- map[stat]uint64: a missing key reads as 0
abbrev pub Stats : Type 0
Stats = Stat → ℕ

pub data IoSensor : Type 0 where
  disk_reads disk_writes disk_read_rate disk_write_rate : IoSensor

-- diskIOSensor, with the attributes that `updateAttributes` sets
pub record DiskIoSensor : Type 0 where
  pub sensor_type : IoSensor
  pub value : Option ℕ
  pub prev_value : ℕ
  pub attributes : Dict ℕ

unfoldable pub new_disk_io_sensor : IoSensor → DiskIoSensor
new_disk_io_sensor t = record { sensor_type = t; value = none; prev_value = 0; attributes = [] }

-- newDeviceSensors
unfoldable pub new_device_sensors : List DiskIoSensor
unfolding new_disk_io_sensor
new_device_sensors =
    new_disk_io_sensor disk_reads
    ∷ new_disk_io_sensor disk_writes
    ∷ new_disk_io_sensor disk_read_rate
    ∷ new_disk_io_sensor disk_write_rate
    ∷ []

-- Half of the sectors (of 512 bytes) a second, by the whole seconds of the nanoseconds gone by.
unfoldable pub disk_rate : ℕ → ℕ → ℕ → ℕ
unfolding sub_64
disk_rate elapsed prev curr =
    if ltb 0 (whole_seconds elapsed) then sub_64 curr prev / whole_seconds elapsed / 2 else 0

with_totals : ℕ → ℕ → Dict ℕ → Dict ℕ
with_totals sectors milliseconds a =
    insert "total_milliseconds" milliseconds (insert "total_sectors" sectors a)

unfoldable pub update_as : IoSensor → Stats → ℕ → DiskIoSensor → DiskIoSensor
unfolding disk_rate with_totals
update_as disk_reads stats elapsed s = record s {
  value = some (stats total_reads);
  attributes = with_totals (stats total_sectors_read) (stats total_time_reading) s.attributes;
}
update_as disk_writes stats elapsed s = record s {
  value = some (stats total_writes);
  attributes = with_totals (stats total_sectors_written) (stats total_time_writing) s.attributes;
}
update_as disk_read_rate stats elapsed s = record s {
  value = some (disk_rate elapsed s.prev_value (stats total_sectors_read));
  prev_value = stats total_sectors_read;
}
update_as disk_write_rate stats elapsed s = record s {
  value = some (disk_rate elapsed s.prev_value (stats total_sectors_written));
  prev_value = stats total_sectors_written;
}

-- `update`, with the nanoelapsed since the last time
unfoldable pub update : Stats → ℕ → DiskIoSensor → DiskIoSensor
unfolding update_as
update stats elapsed s = update_as s.sensor_type stats elapsed s

-- ioWorker's map of devices
abbrev pub Devices : Type 0
Devices = Dict (List DiskIoSensor)

unfoldable pub new_io_worker : Devices
unfolding new_device_sensors
new_io_worker = ("total", new_device_sensors) ∷ []

unfoldable pub add_to : String → Option (List DiskIoSensor) → Devices → Devices
unfolding new_device_sensors
add_to id none w = insert id new_device_sensors w
add_to id (some sensors) w = w

unfoldable pub add_device : String → Devices → Devices
unfolding add_to
add_device id w = add_to id (lookup id w) w

-- make([]sensor.Details, len(w.devices["total"])): a nil for each sensor of "total".
nils_of : Option (List DiskIoSensor) → List (Option DiskIoSensor)
nils_of none = []
nils_of (some sensors) = map (λ s. none) sensors

-- sensors[idx] = ... for each of a device's sensors; `none` is an index out of range, a panic.
unfoldable pub fill :
    List (Option DiskIoSensor) → List DiskIoSensor → Option (List (Option DiskIoSensor))
fill made [] = some made
fill [] (s ∷ found) = none
fill (m ∷ made) (s ∷ found) =
    let rest = fill made found in elim rest [ none ↦ none | some all ↦ some (some s ∷ all) ]

-- The list and the worker, where nothing panicked.
abbrev pub Updated : Type 0
Updated = Option (List (Option DiskIoSensor) × Devices)

filled : Devices → Option (List (Option DiskIoSensor)) → Updated
filled w none = none
filled w (some sensors) = some (sensors, w)

-- The list returned holds pointers to the sensors, so it is what the map has afterwards. The
-- statistics of a device that could be read are never the nil map.
unfoldable pub update_found : String → Stats → ℕ → Option (List DiskIoSensor) → Devices → Updated
unfolding update nils_of fill filled
update_found id stats elapsed none w = some (nils_of (lookup "total" w), w)
update_found id stats elapsed (some sensors) w =
    let updated = map (update stats elapsed) sensors in
    filled (insert id updated w) (fill (nils_of (lookup "total" w)) updated)

-- `updateDevice`, and `updateTotals` for "total".
unfoldable pub update_device : String → Stats → ℕ → Devices → Updated
unfolding update_found
update_device id stats elapsed w = update_found id stats elapsed (lookup id w) w

-- totals[stat] += value
unfoldable pub add_stats : Stats → Stats → Stats
add_stats totals stats = λ s. (totals s + stats s) % 2 ^ 64

-- What the loop has: the sensors, the totals and the worker.
abbrev pub Gathered : Type 0
Gathered = Option ((List (Option DiskIoSensor) × Stats) × Devices)

before : List (Option DiskIoSensor) → Gathered → Gathered
before sensors none = none
before sensors (some ((rest, sums), w)) = some ((sensors ++ rest, sums), w)

with_rest : (Devices → Gathered) → Updated → Gathered
unfolding before
with_rest rest none = none
with_rest rest (some (sensors, w)) = before sensors (rest w)

-- The loop of `Sensors` over the devices whose statistics can be read; `is_aggregate` is the test
-- of the name's prefix. `none` is a panic.
unfoldable pub update_devices :
    (String → Bool) → List (String × Stats) → ℕ → Stats → Devices → Gathered
unfolding add_device update_device add_stats with_rest
update_devices is_aggregate [] elapsed totals w = some (([], totals), w)
update_devices is_aggregate ((id, stats) ∷ devices) elapsed totals w =
    let totals' = if is_aggregate id then totals else add_stats totals stats in
    with_rest (update_devices is_aggregate devices elapsed totals')
      (update_device id stats elapsed (add_device id w))

with_all : List (Option DiskIoSensor) → Updated → Updated
with_all sensors none = none
with_all sensors (some (all, w)) = some (sensors ++ all, w)

with_totals_of : ℕ → Gathered → Updated
unfolding update_device with_all
with_totals_of elapsed none = none
with_totals_of elapsed (some ((sensors, totals), w)) =
    with_all sensors (update_device "total" totals elapsed w)

-- `Sensors`, when the list of devices can be read
unfoldable pub disk_sensors : (String → Bool) → List (String × Stats) → ℕ → Devices → Updated
unfolding update_devices with_totals_of
disk_sensors is_aggregate devices elapsed w =
    with_totals_of elapsed (update_devices is_aggregate devices elapsed (λ s. 0) w)

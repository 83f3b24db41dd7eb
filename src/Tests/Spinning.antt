-- ===== src/Tests/Spinning.antt =====
-- The theorems of the disks at concrete values.
use go_hass_agent.Prelude.{
  ℕ, ◌+◌, ◌*◌, ◌≤◌, ◌≡◌, refl, false, Bool-cases, inl, inr, List, [], ◌∷◌, length, arith, map, some,
  ◌==◌,
}
use go_hass_agent.Prelude.Dict.{lookup}
use go_hass_agent.Linux.Counts.{whole_seconds}
use go_hass_agent.Linux.Disk.{
  Devices, Stats, disk_read_rate, DiskIoSensor, new_disk_io_sensor, new_io_worker, disk_sensors,
}
use go_hass_agent.Linux.Disk.Sectors.{sectors, sectors_le_counted}
use go_hass_agent.Linux.Disk.Sent.{IsComplete, disk_sensors-four}

abbrev read_rate : DiskIoSensor
read_rate = new_disk_io_sensor disk_read_rate

abbrev all : ℕ → Stats
all n s = n

abbrev samples : List (ℕ × Stats)
samples = (5900000000, all 100) ∷ (400000000, all 120) ∷ (3000000000, all 121) ∷ []

sectors_le_counted_example :
    (sectors whole_seconds samples read_rate + 0 ≤ 121)
    × (sectors (λ elapsed. elapsed) samples read_rate + 2000000000 * 0 ≤ 2000000000 * 121)
unfolding new_disk_io_sensor
sectors_le_counted_example =
    sectors_le_counted samples read_rate tt
      (omega arith, omega arith, (omega arith, omega arith, (omega arith, omega arith, tt)))

new_io_worker-IsComplete : IsComplete new_io_worker
unfolding new_io_worker lookup
new_io_worker-IsComplete =
    (λ id. elim (Bool-cases ("total" == id)) [ inl e ↦ rw e refl | inr e ↦ rw e tt ], tt)

disk_sensors-four_example :
    (sent : List DiskIoSensor) × (w : Devices) × (disk_sensors
        (λ id. false)
        (("sda", all 1) ∷ ("sdb", all 2) ∷ [])
        5000000000
        new_io_worker
      ≡ some (map (λ s. some s) sent, w))
    × (length sent ≡ 12)
    × IsComplete w
disk_sensors-four_example =
    disk_sensors-four (λ id. false) 5000000000 (("sda", all 1) ∷ ("sdb", all 2) ∷ []) new_io_worker
      new_io_worker-IsComplete

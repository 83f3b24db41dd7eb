-- ===== src/Linux/Disk/Sectors.antt =====
-- internal/linux/disk: how the rates stand to the sectors, and how many sensors are sent.
use native.Mathlib.Nat.{div-add-mod', mul_assoc, mul-le-mul_right}
use go_hass_agent.Prelude.{
  ℕ, ◌+◌, ◌-◌, ◌*◌, ◌/◌, ◌^◌, ◌≤◌, ◌<◌, ◌≡◌, refl, ap, ◌∙◌, Bool-cases, inl, inr, Option, none,
  some, List, [], ◌∷◌, ltb, arith,
}
use go_hass_agent.Linux.Counts.{sub_64, whole_seconds}
use go_hass_agent.Linux.Rates.{twice_whole_seconds}
use go_hass_agent.Linux.Disk.{
  total_sectors_read, total_sectors_written, Stats, IoSensor, disk_reads, disk_writes,
  disk_read_rate, disk_write_rate, DiskIoSensor, disk_rate, update, update_as,
}

-- The counter of a rate sensor.
abbrev pub counter : IoSensor → Stats → ℕ
counter disk_reads stats = 0
counter disk_writes stats = 0
counter disk_read_rate stats = stats total_sectors_read
counter disk_write_rate stats = stats total_sectors_written

abbrev pub IsRate : IoSensor → Type 0
IsRate disk_reads = ⊥
IsRate disk_writes = ⊥
IsRate disk_read_rate = Unit {0}
IsRate disk_write_rate = Unit {0}

value_or_zero : Option ℕ → ℕ
value_or_zero none = 0
value_or_zero (some v) = v

-- The sectors that the rates stand for, each for the time it is taken to be for, over samples of the
-- nanoseconds gone by and the statistics.
unfoldable pub sectors : (ℕ → ℕ) → List (ℕ × Stats) → DiskIoSensor → ℕ
unfolding value_or_zero
sectors time [] s = 0
sectors time ((elapsed, stats) ∷ samples) s =
    let s' = update stats elapsed s in
    2 * (value_or_zero s'.value * time elapsed) + sectors time samples s'

abbrev pub last_counter : IoSensor → ℕ → List (ℕ × Stats) → ℕ
last_counter t prev [] = prev
last_counter t prev ((elapsed, stats) ∷ samples) = last_counter t (counter t stats) samples

-- The counter never goes down, and is a uint64.
abbrev pub NeverFalls : IoSensor → ℕ → List (ℕ × Stats) → Type 0
NeverFalls t prev [] = Unit {0}
NeverFalls t prev ((elapsed, stats) ∷ samples) =
    prev ≤ counter t stats × counter t stats < 2 ^ 64 × NeverFalls t (counter t stats) samples

difference : (prev curr : ℕ) → prev ≤ curr → curr < 2 ^ 64 → sub_64 curr prev ≡ curr - prev
unfolding sub_64
difference prev curr h k = omega arith

halved : (n : ℕ) → 2 * (n / 2) ≤ n
halved n = omega arith

halved_rate : (seconds d : ℕ) → 2 * (d / seconds / 2 * seconds) ≤ d
halved_rate seconds d = omega (
  arith,
  div-add-mod' d seconds,
  mul_assoc 2 (d / seconds / 2) seconds,
  mul-le-mul_right seconds (halved (d / seconds)),
)

disk_rate-le :
    (elapsed prev curr : ℕ)
    → prev ≤ curr
    → curr < 2 ^ 64
    → 2 * (disk_rate elapsed prev curr * whole_seconds elapsed) ≤ curr - prev
unfolding disk_rate
disk_rate-le elapsed prev curr h k = elim (Bool-cases (ltb 0 (whole_seconds elapsed))) [
  | inl e ↦ rw (e, difference prev curr h k) (halved_rate (whole_seconds elapsed) (curr - prev))
  | inr e ↦ rw e (omega arith)
]

disk_rate-real :
    (elapsed prev curr : ℕ)
    → disk_rate elapsed prev curr * elapsed
      ≤ 2000000000 * (disk_rate elapsed prev curr * whole_seconds elapsed)
unfolding disk_rate
disk_rate-real elapsed prev curr = elim (Bool-cases (ltb 0 (whole_seconds elapsed))) [
  | inl e ↦ rw e (
      twice_whole_seconds (sub_64 curr prev / whole_seconds elapsed / 2) elapsed
        (ground (arith, e)))
  | inr e ↦ rw e (omega arith)
]

update_as-rate :
    (t : IoSensor) (stats : Stats) (elapsed : ℕ) (s : DiskIoSensor)
    → IsRate t
    → ((update_as t stats elapsed s).value
        ≡ some (disk_rate elapsed s.prev_value (counter t stats)))
      × ((update_as t stats elapsed s).prev_value ≡ counter t stats)
      × ((update_as t stats elapsed s).sensor_type ≡ s.sensor_type)
unfolding update_as
update_as-rate disk_reads stats elapsed s h = absurd h
update_as-rate disk_writes stats elapsed s h = absurd h
update_as-rate disk_read_rate stats elapsed s h = (refl, refl, refl)
update_as-rate disk_write_rate stats elapsed s h = (refl, refl, refl)

update-as :
    (t : IoSensor) (stats : Stats) (elapsed : ℕ) (s : DiskIoSensor)
    → s.sensor_type ≡ t
    → update stats elapsed s ≡ update_as t stats elapsed s
unfolding update
update-as t stats elapsed s e = ap (λ u. update_as u stats elapsed s) e

sectors-le :
    (t : IoSensor) (samples : List (ℕ × Stats)) (s : DiskIoSensor)
    → IsRate t
    → s.sensor_type ≡ t
    → NeverFalls t s.prev_value samples
    → (sectors whole_seconds samples s + s.prev_value ≤ last_counter t s.prev_value samples)
      × (sectors (λ elapsed. elapsed) samples s + 2000000000 * s.prev_value
          ≤ 2000000000 * last_counter t s.prev_value samples)
unfolding sectors value_or_zero disk_rate update_as
sectors-le t [] s r e h = (omega arith, omega arith)
sectors-le t ((elapsed, stats) ∷ samples) s r e h =
    let (value, prev, type) = update_as-rate t stats elapsed s r in
    let s' = update_as t stats elapsed s in
    let later = sectors-le t samples s' r (type ∙ e) (rw prev h.2) in
    let now = disk_rate-le elapsed s.prev_value (counter t stats) h.0 h.1 in
    let real = disk_rate-real elapsed s.prev_value (counter t stats) in
    rw (update-as t stats elapsed s e) (
      rw value
        (omega (arith, rw prev at later.0, now), omega (arith, rw prev at later.1, now, real)))

-- Over any run of samples of a disk's counter that never falls, twice each reported rate times the
-- whole seconds gone by, in sectors, is in sum at most what the counter grew by; and twice each
-- reported rate times the time really gone by, in nanoseconds, at most twice that: as the code drops
-- the fraction of a second, the rates can overstate the traffic, but by no more than that factor.
pub sectors_le_counted :
    (samples : List (ℕ × Stats)) (s : DiskIoSensor)
    → IsRate s.sensor_type
    → NeverFalls s.sensor_type s.prev_value samples
    → (sectors whole_seconds samples s + s.prev_value
        ≤ last_counter s.sensor_type s.prev_value samples)
      × (sectors (λ elapsed. elapsed) samples s + 2000000000 * s.prev_value
          ≤ 2000000000 * last_counter s.sensor_type s.prev_value samples)
sectors_le_counted samples s r h = sectors-le s.sensor_type samples s r refl h

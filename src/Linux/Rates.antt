-- ===== src/Linux/Rates.antt =====
-- internal/linux/net/networkRates.go: how the reported rates stand to the counters.
use native.Mathlib.Nat.{div-add-mod', le-div_iff_mul-le, mul_assoc, mul_comm, mul-le-mul_right}
use go_hass_agent.Prelude.{
  ℕ, ◌+◌, ◌-◌, ◌*◌, ◌/◌, ◌^◌, ◌≤◌, ◌<◌, ◌≡◌, refl, Option, none, some, List, [], ◌∷◌, not, ◌&&◌,
  inl, inr, Bool-cases, ltb, nat_eq, arith,
}
use go_hass_agent.Linux.Counts.{
  NetIoRateSensor, whole_seconds, whole_seconds_lem, update_rate, rate, sub_64,
}

value_or_zero : Option ℕ → ℕ
value_or_zero none = 0
value_or_zero (some v) = v

-- The bytes that the rates stand for: each reported rate times the time it is taken to be for, over
-- samples of the nanoseconds gone by and the counter.
unfoldable pub reported : (ℕ → ℕ) → List (ℕ × ℕ) → NetIoRateSensor → ℕ
unfolding value_or_zero
reported time [] s = 0
reported time ((elapsed, current) ∷ samples) s =
    let s' = update_rate elapsed current s in
    value_or_zero s'.sensor.value * time elapsed + reported time samples s'

-- The counter of the last sample.
abbrev pub final : ℕ → List (ℕ × ℕ) → ℕ
final last [] = last
final last ((elapsed, current) ∷ samples) = final current samples

-- The counters never go down, and are uint64.
abbrev pub IsCounter : ℕ → List (ℕ × ℕ) → Type 0
IsCounter last [] = Unit {0}
IsCounter last ((elapsed, current) ∷ samples) =
    last ≤ current × current < 2 ^ 64 × IsCounter current samples

sub_64-le :
    (last current : ℕ) → last ≤ current → current < 2 ^ 64 → sub_64 current last ≡ current - last
unfolding sub_64
sub_64-le last current h k = omega arith

rate-le :
    (elapsed last current : ℕ)
    → last ≤ current
    → current < 2 ^ 64
    → rate elapsed last current * whole_seconds elapsed ≤ current - last
unfolding rate
rate-le elapsed last current h k =
    let seconds = whole_seconds elapsed in
    elim (Bool-cases (ltb 0 seconds && not (nat_eq last 0))) [
      | inl e ↦
          rw (e, sub_64-le last current h k) (omega (arith, div-add-mod' (current - last) seconds))
      | inr e ↦ rw e (omega arith)
    ]

-- From one second on, the time gone by is at most twice its whole seconds.
pub twice_whole_seconds :
    (v elapsed : ℕ)
    → 0 < whole_seconds elapsed
    → v * elapsed ≤ 2000000000 * (v * whole_seconds elapsed)
twice_whole_seconds v elapsed p = omega (
  arith,
  mul-le-mul_right v (below elapsed p),
  mul_assoc 2000000000 (whole_seconds elapsed) v,
  mul_comm v elapsed,
  mul_comm v (whole_seconds elapsed),
)
  where
    below : (elapsed : ℕ) → 0 < whole_seconds elapsed → elapsed ≤ 2000000000 * whole_seconds elapsed
    below elapsed p = omega (arith, whole_seconds_lem elapsed)

rate-real :
    (elapsed last current : ℕ)
    → rate elapsed last current * elapsed
      ≤ 2000000000 * (rate elapsed last current * whole_seconds elapsed)
unfolding rate
rate-real elapsed last current =
    let seconds = whole_seconds elapsed in
    elim (Bool-cases (ltb 0 seconds && not (nat_eq last 0))) [
      | inl e ↦
          rw e (twice_whole_seconds (sub_64 current last / seconds) elapsed (ground (arith, e)))
      | inr e ↦ rw e (omega arith)
    ]

-- Over any run of samples of a counter that is not reset, each reported rate times the whole
-- seconds gone by is in sum at most what the counter grew by; and each reported rate times the time
-- really gone by, in nanoseconds, at most twice that: as the code drops the fraction of a second,
-- the rates can overstate the traffic, but by no more than that factor.
pub reported_le_counted :
    (samples : List (ℕ × ℕ)) (s : NetIoRateSensor)
    → IsCounter s.last_value samples
    → (reported whole_seconds samples s + s.last_value ≤ final s.last_value samples)
      × (reported (λ elapsed. elapsed) samples s + 2000000000 * s.last_value
          ≤ 2000000000 * final s.last_value samples)
unfolding reported update_rate
reported_le_counted [] s h = (omega arith, omega arith)
reported_le_counted ((elapsed, current) ∷ samples) s h =
    let later = reported_le_counted samples (update_rate elapsed current s) h.2 in
    let now = rate-le elapsed s.last_value current h.0 h.1 in
    (
      omega (arith, h.0, now, later.0),
      omega (arith, h.0, now, rate-real elapsed s.last_value current, later.1),
    )

sub_64-ge :
    (last current drop : ℕ)
    → 0 < drop
    → drop ≤ 2 ^ 63
    → last ≡ current + drop
    → last < 2 ^ 64
    → 2 ^ 63 ≤ sub_64 current last
unfolding sub_64
sub_64-ge last current drop d h e w = omega arith

rate-ge :
    (elapsed last current : ℕ)
    → 0 < whole_seconds elapsed
    → whole_seconds elapsed ≤ 2 ^ 32
    → 0 < last
    → 2 ^ 63 ≤ sub_64 current last
    → 2 ^ 31 ≤ rate elapsed last current
unfolding rate
rate-ge elapsed last current p q l h =
    elim (Bool-cases (ltb 0 (whole_seconds elapsed) && not (nat_eq last 0))) [
      | inl e ↦ rw e ((le-div_iff_mul-le p).1 (omega (arith, h)))
      | inr e ↦ ground arith
    ]

-- A counter that went down, as after a reset of the interface, makes the rate sensor report the
-- difference modulo 2 ^ 64: with 1 to 2 ^ 32 whole seconds gone by and a drop of 1 to 2 ^ 63, the rate
-- is at least 2 ^ 31 bytes a second, whatever the traffic was.
pub rate_after_reset :
    (elapsed current drop : ℕ) (s : NetIoRateSensor)
    → 0 < whole_seconds elapsed
    → whole_seconds elapsed ≤ 2 ^ 32
    → 0 < drop
    → drop ≤ 2 ^ 63
    → s.last_value ≡ current + drop
    → s.last_value < 2 ^ 64
    → (v : ℕ) × ((update_rate elapsed current s).sensor.value ≡ some v × 2 ^ 31 ≤ v)
unfolding update_rate
rate_after_reset elapsed current drop s p q d h e w = (
  rate elapsed s.last_value current,
  (
    refl,
    rate-ge elapsed s.last_value current p q (omega (arith, e))
        (sub_64-ge s.last_value current drop d h e w),
  ),
)

-- ===== src/Linux/Battery/Signals.antt =====
-- internal/linux/battery/battery.go: which changes of a battery's properties reach its sensors.
use go_hass_agent.Prelude.{
  ℕ, String, ◌≡◌, ◌≢◌, refl, subst, ap, Bool, true, false, Bool-cases, ◌⊎◌, inl, inr, Option, none,
  some, List, [], ◌∷◌, ◌++◌, ◌==◌, eq_iff, nat_eq, if◌then◌else◌, arith,
}
use go_hass_agent.Prelude.Dict.{Dict, lookup}
use go_hass_agent.Linux.Battery.{
  BatterySensor, batt_percentage, batt_temp, batt_energy_rate, batt_state, batt_level, prop_of,
  dbus_prop_to_sensor, Variant, UpowerBattery, UpowerBatterySensor, sensors_for,
  battery_type_battery, new_battery_sensor, changed_sensor, changed_sensors,
}

-- The sensor is one of the list.
abbrev pub In : BatterySensor → List BatterySensor → Type 0
In s [] = ⊥
In s (t ∷ ts) = (t ≡ s) ⊎ In s ts

abbrev pub is_temp : BatterySensor → Bool
is_temp batt_temp = true
is_temp _ = false

-- No sensor of the list is a temperature.
abbrev pub NoTemp : {F : Type 0} → List (UpowerBatterySensor F) → Type 0
NoTemp [] = Unit {0}
NoTemp (s ∷ ss) = (s.sensor_type ≢ batt_temp) × NoTemp ss

not_temp :
    (prop : String)
    → (prop == "Temperatute") ≡ false
    → lookup prop dbus_prop_to_sensor ≢ some batt_temp
unfolding lookup dbus_prop_to_sensor
not_temp prop h = ground (arith, eq_iff prop "Temperatute", eq_iff "Temperatute" prop)

module _ {F : Type 0} (b : UpowerBattery) where
  abbrev Follows : Variant F → BatterySensor → Type 0
  Follows v s =
      changed_sensors b ((prop_of s, v) ∷ [])
      ≡ (if is_temp s then [] else new_battery_sensor b s v ∷ [])

  Follows-listed : (v : Variant F) (s t : BatterySensor) → Follows v t → t ≡ s → Follows v s
  Follows-listed v s t h e = subst (λ u. Follows v u) e h

  Follows-battery :
      (v : Variant F) (s : BatterySensor)
      → In s (batt_state ∷ batt_percentage ∷ batt_temp ∷ batt_energy_rate ∷ [])
      → Follows v s
  unfolding changed_sensors prop_of lookup
  Follows-battery v s (inl e) = Follows-listed v s batt_state refl e
  Follows-battery v s (inr (inl e)) = Follows-listed v s batt_percentage refl e
  Follows-battery v s (inr (inr (inl e))) = Follows-listed v s batt_temp refl e
  Follows-battery v s (inr (inr (inr (inl e)))) = Follows-listed v s batt_energy_rate refl e
  Follows-battery v s (inr (inr (inr (inr e)))) = absurd e

  Follows-other :
      (v : Variant F) (s : BatterySensor) → In s (batt_state ∷ batt_level ∷ []) → Follows v s
  unfolding changed_sensors prop_of lookup
  Follows-other v s (inl e) = Follows-listed v s batt_state refl e
  Follows-other v s (inr (inl e)) = Follows-listed v s batt_level refl e
  Follows-other v s (inr (inr e)) = absurd e

  -- Of the sensors that a battery of any type has, each follows its property: a change of the
  -- property that the sensor was read from gives that sensor again, with the new value. The
  -- exception is the temperature, whose changes are ignored.
  pub changed_sensors-sensors_for :
      (t : ℕ) (s : BatterySensor) (v : Variant F)
      → In s (sensors_for t)
      → changed_sensors b ((prop_of s, v) ∷ [])
        ≡ (if is_temp s then [] else new_battery_sensor b s v ∷ [])
  unfolding sensors_for
  changed_sensors-sensors_for t s v h = elim (Bool-cases (nat_eq t battery_type_battery)) [
    | inl e ↦ Follows-battery v s (rw e at h)
    | inr e ↦ Follows-other v s (rw e at h)
  ]

  NoTemp-append : (xs ys : List (UpowerBatterySensor F)) → NoTemp xs → NoTemp ys → NoTemp (xs ++ ys)
  NoTemp-append [] ys h k = k
  NoTemp-append (x ∷ xs) ys h k = (h.0, NoTemp-append xs ys h.1 k)

  NoTemp-changed_sensor :
      (v : Variant F) (o : Option BatterySensor)
      → o ≢ some batt_temp
      → NoTemp (changed_sensor b v o)
  unfolding changed_sensor new_battery_sensor
  NoTemp-changed_sensor v none h = tt
  NoTemp-changed_sensor v (some s) h = (λ e. h (ap (λ (t : BatterySensor). some t) e), tt)

  -- Whatever properties of a battery change, none of the sensors that are sent is its
  -- temperature, so this sensor keeps the value that was read at first. Only a property with the
  -- misspelt name of the code's table would change it.
  pub temperature_never_changes :
      (changes : Dict (Variant F))
      → lookup "Temperatute" changes ≡ none
      → NoTemp (changed_sensors b changes)
  unfolding changed_sensors lookup
  temperature_never_changes [] h = tt
  temperature_never_changes ((prop, v) ∷ rest) h = elim (Bool-cases (prop == "Temperatute")) [
    | inl e ↦ absurd (cc (rw e at h))
    | inr e ↦
        NoTemp-append (changed_sensor b v (lookup prop dbus_prop_to_sensor))
          (changed_sensors b rest)
          (NoTemp-changed_sensor v (lookup prop dbus_prop_to_sensor) (not_temp prop e))
          (temperature_never_changes rest (rw e at h))
  ]

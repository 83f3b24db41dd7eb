-- ===== src/Linux/Battery/Monitors.antt =====
-- internal/linux/battery/battery.go: `track`, `remove` and monitorBatteryChanges. A monitor is the
-- goroutine of `track` that the stored cancel function stops; it is named by the number of its
-- context, and runs until that context is cancelled. The loop starts a goroutine for each device
-- that is added, which calls `track` at some later time; `remove` the loop calls itself, and its two
-- parts, the cancel and the delete, can have a `track` between them.
use go_hass_agent.Prelude.{
  ℕ, suc, ◌<◌, String, ◌≡◌, ◌⊎◌, refl, Bool, true, false, ◌&&◌, ◌||◌, Option, none, some, List, [],
  ◌∷◌, ◌++◌, ◌==◌, eq_refl, nat_eq, if◌then◌else◌, arith,
}
use go_hass_agent.Prelude.Dict.{Dict, lookup, insert, delete}

-- batterySensorWorker, with the monitors that run, the number of the next context, the goroutines
-- that have not called `track` yet, and the device that the loop is in the middle of removing.
pub record BatterySensorWorker : Type 0 where
  pub battery_list : Dict ℕ
  pub running : List (ℕ × String)
  pub next_context : ℕ
  pub pending : List String
  pub removing : Option String

unfoldable pub new_worker : BatterySensorWorker
new_worker = record {
  battery_list = [];
  running = [];
  next_context = 0;
  pending = [];
  removing = none;
}

-- `track`, and whether newBattery succeeds
unfoldable pub track : String → Bool → BatterySensorWorker → BatterySensorWorker
track path false w = w
track path true w = record w {
  battery_list = insert path w.next_context w.battery_list;
  running = (w.next_context, path) ∷ w.running;
  next_context = suc w.next_context;
}

-- A call of a cancel function.
unfoldable pub cancel : ℕ → List (ℕ × String) → List (ℕ × String)
cancel n [] = []
cancel n ((m, path) ∷ ms) = let rest = cancel n ms in if nat_eq m n then rest else (m, path) ∷ rest

cancel_found : String → Option ℕ → BatterySensorWorker → BatterySensorWorker
unfolding cancel
cancel_found path none w = w
cancel_found path (some n) w = record w { running = cancel n w.running; removing = some path }

-- `remove`, up to the call of the cancel function of a device that is listed
unfoldable pub cancel_listed : String → BatterySensorWorker → BatterySensorWorker
unfolding cancel_found
cancel_listed path w = cancel_found path (lookup path w.battery_list) w

-- The rest of `remove`, under the lock.
unfoldable pub delete_listed : String → BatterySensorWorker → BatterySensorWorker
delete_listed path w = record w { battery_list = delete path w.battery_list; removing = none }

-- What the loop and the goroutines do next.
pub data Step : BatterySensorWorker → BatterySensorWorker → Type 0 where
  device_added :
      (w : BatterySensorWorker) (path : String)
      → w.removing ≡ none
      → Step w (record w { pending = w.pending ++ path ∷ [] })
  tracked :
      (w : BatterySensorWorker) (before : List String) (path : String) (after : List String)
      (works : Bool)
      → w.pending ≡ before ++ path ∷ after
      → Step w (track path works (record w { pending = before ++ after }))
  device_removed :
      (w : BatterySensorWorker) (path : String) → w.removing ≡ none → Step w (cancel_listed path w)
  deleted :
      (w : BatterySensorWorker) (path : String)
      → w.removing ≡ some path
      → Step w (delete_listed path w)

pub data Reach : BatterySensorWorker → BatterySensorWorker → Type 0 where
  here : {w : BatterySensorWorker} → Reach w w
  next : {w v u : BatterySensorWorker} → Reach w v → Step v u → Reach w u

-- Whether a monitor runs for a device, under a context.
unfoldable pub runs : ℕ → String → List (ℕ × String) → Bool
runs n p [] = false
runs n p ((m, q) ∷ ms) = nat_eq m n && q == p || runs n p ms

-- A device that is listed is monitored, under the context whose cancel function is stored, unless
-- the loop is removing it; and no two devices have one context.
pub record IsInStep (w : BatterySensorWorker) : Type 0 where
  pub monitored :
      (p : String) (n : ℕ)
      → lookup p w.battery_list ≡ some n
      → (runs n p w.running ≡ true) ⊎ (w.removing ≡ some p)
  pub bounded : (p : String) (n : ℕ) → lookup p w.battery_list ≡ some n → n < w.next_context
  pub apart :
      (p q : String) (n : ℕ)
      → lookup p w.battery_list ≡ some n
      → lookup q w.battery_list ≡ some n
      → p ≡ q

-- The monitors that run for a device.
unfoldable pub monitors : String → List (ℕ × String) → List ℕ
monitors path [] = []
monitors path ((n, p) ∷ ms) = let rest = monitors path ms in if p == path then n ∷ rest else rest

-- A device that is added, removed and added again can end up with two monitors: where both
-- goroutines call `track` after the removal, the second cancel function replaces the first one,
-- which is never called.
pub added_again_leaks :
    (p : String)
    → (w : BatterySensorWorker) × Reach new_worker w
      × (lookup p w.battery_list ≡ some 1)
      × (monitors p w.running ≡ 1 ∷ 0 ∷ [])
unfolding new_worker track cancel_listed cancel_found monitors lookup insert
added_again_leaks p = (
  _,
  next
      (next
        (next (next (next here (device_added _ p refl)) (device_removed _ p refl))
          (device_added _ p refl))
        (tracked _ [] p (p ∷ []) true refl))
      (tracked _ [] p [] true refl),
  ground (arith, eq_refl p),
  ground (arith, eq_refl p),
)

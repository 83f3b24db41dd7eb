-- ===== src/Agent/Shutdown.antt =====
-- Stopping all workers: when `StopAll` panics, and that it does not after `StartAll`.
use go_hass_agent.Prelude.{
  String, ◌≡◌, refl, sym, ap, subst, ◌∙◌, ◌≢◌, true, false, ◌⊎◌, inl, inr, Option, none, some, List,
  [], ◌∷◌, arith, eq_iff, ◌==◌, Bool-cases,
}
use go_hass_agent.Prelude.Dict.{Dict, lookup}
use go_hass_agent.Agent.Workers.{
  Object, version, external_ip, os_worker, SensorWorker, DeviceController, updates, stops, start,
  start_ids, start_all, stop, stop_ids, stop_all, panicked, keys,
}
use go_hass_agent.Agent.Lifecycle.{worker, Started, start-Started}

-- Stopping the worker does not panic.
abbrev pub Stops : Option SensorWorker → Type 0
Stops none = Unit {0}
Stops (some w) = stops w.object ≡ true

-- A worker that is started has its cancel function.
abbrev pub IsReady : Option SensorWorker → Type 0
IsReady none = Unit {0}
IsReady (some w) = w.started ≡ true → stops w.object ≡ true

abbrev pub IsValid : DeviceController → Type 0
IsValid c = (j : String) → IsReady (worker j c)

stops-updates : (o : Object) → stops (updates o).1 ≡ true
unfolding stops updates
stops-updates version = refl
stops-updates (external_ip b) = refl
stops-updates (os_worker b d) = refl

module _ (name : String) (c : DeviceController) where
  -- Whatever holds of a worker that has run `Updates`, and held of every worker before, holds
  -- of every worker after `Start`.
  after_start :
      (P : Option SensorWorker → Type 0)
      → ((w : SensorWorker) → stops w.object ≡ true → P (some w))
      → (j : String) → P (worker j c)
      → (o : Option SensorWorker) → Started name c o
      → P (worker j (start name c).1)
  after_start P new j h none s =
      subst (λ (d : DeviceController). P (worker j d)) (sym (ap (λ p. p.1) s)) h
  after_start P new j h (some w) (inl (e, s)) =
      subst (λ (d : DeviceController). P (worker j d)) (sym (ap (λ p. p.1) s)) h
  after_start P new j h (some w) (inr (e, a, at, others)) = elim (Bool-cases (name == j)) [
    | inl same ↦
        subst P (ap (λ k. worker k (start name c).1) ((eq_iff name j).0 same))
          (subst P (sym at) (new _ (stops-updates w.object)))
    | inr other ↦ subst P (sym (others j other)) h
  ]

  Stops-start : (j : String) → Stops (worker j c) → Stops (worker j (start name c).1)
  Stops-start j h = after_start Stops (λ w s. s) j h (worker name c) (start-Started name c)

  -- `Start` keeps a controller valid.
  pub IsValid-start : IsValid c → IsValid (start name c).1
  IsValid-start v j =
      after_start IsReady (λ w s. λ _. s) j (v j) (worker name c) (start-Started name c)

  Stops-start_self_cases :
      (o : Option SensorWorker)
      → worker name c ≡ o
      → IsReady o
      → Started name c o
      → Stops (worker name (start name c).1)
  Stops-start_self_cases none at v s =
      subst (λ (d : DeviceController). Stops (worker name d)) (sym (ap (λ p. p.1) s))
        (subst Stops (sym at) tt)
  Stops-start_self_cases (some w) at v (inl (e, s)) =
      subst (λ (d : DeviceController). Stops (worker name d)) (sym (ap (λ p. p.1) s))
        (subst Stops (sym at) (v e))
  Stops-start_self_cases (some w) at v (inr (e, a, after, others)) =
      subst Stops (sym after) (stops-updates w.object)

  Stops-start_self : IsValid c → Stops (worker name (start name c).1)
  Stops-start_self v = Stops-start_self_cases (worker name c) refl (v name) (start-Started name c)

-- Every worker can be stopped.
abbrev AllStop : DeviceController → Type 0
AllStop c = (j : String) → Stops (worker j c)

abbrev In : String → List String → Type 0
In j [] = ⊥
In j (k ∷ ks) = (k ≡ j) ⊎ In j ks

Stops-start_ids :
    (ids : List String) (c : DeviceController) (j : String)
    → IsValid c
    → Stops (worker j c) ⊎ In j ids
    → Stops (worker j (start_ids ids c).1)
unfolding start_ids
Stops-start_ids [] c j v (inl h) = h
Stops-start_ids [] c j v (inr h) = absurd h
Stops-start_ids (k ∷ ids) c j v (inl h) =
    Stops-start_ids ids (start k c).1 j (IsValid-start k c v) (inl (Stops-start k c j h))
Stops-start_ids (k ∷ ids) c j v (inr (inl e)) =
    Stops-start_ids ids (start k c).1 j (IsValid-start k c v)
      (inl (subst (λ i. Stops (worker i (start k c).1)) e (Stops-start_self k c v)))
Stops-start_ids (k ∷ ids) c j v (inr (inr h)) =
    Stops-start_ids ids (start k c).1 j (IsValid-start k c v) (inr h)

missing_or_key : (j : String) (m : Dict SensorWorker) → (lookup j m ≡ none) ⊎ In j (keys m)
unfolding lookup keys
missing_or_key j [] = inl refl
missing_or_key j ((k, w) ∷ m) = elim (Bool-cases (k == j)) [
  | inl same ↦ inr (inl ((eq_iff k j).0 same))
  | inr other ↦ elim (missing_or_key j m) [ inl h ↦ inl (rw other h) | inr h ↦ inr (inr h) ]
]

AllStop-start_all : (c : DeviceController) → IsValid c → AllStop (start_all c).1
unfolding start_all
AllStop-start_all c v j = elim (missing_or_key j c.sensor_workers) [
  | inl h ↦ Stops-start_ids (keys c.sensor_workers) c j v (inl (subst Stops (sym h) tt))
  | inr h ↦ Stops-start_ids (keys c.sensor_workers) c j v (inr h)
]

stop_cases :
    (j : String) (c : DeviceController) (o : Option SensorWorker)
    → worker j c ≡ o
    → Stops o
    → (stop j c).0 ≢ panicked
unfolding stop
stop_cases j c none at h = rw at (λ e. cc)
stop_cases j c (some w) at h = rw at (rw h (λ e. cc))

stop_ids_returns :
    (ids : List String) (c : DeviceController) → AllStop c → (stop_ids ids c).0 ≢ panicked
unfolding stop_ids
stop_ids_returns [] c h = λ e. cc
stop_ids_returns (id ∷ ids) c h =
    ground (arith, stop_cases id c (worker id c) refl (h id), stop_ids_returns ids c h)

-- From any controller whose started workers have their cancel functions, `StartAll`, with
-- whichever of its workers failing to start, leaves every worker stoppable: a `StopAll` after it
-- returns and does not panic.
pub stop_all-start_all_returns :
    (c : DeviceController) → IsValid c → (stop_all (start_all c).1).0 ≢ panicked
unfolding stop_all
stop_all-start_all_returns c v = stop_ids_returns _ (start_all c).1 (AllStop-start_all c v)

stop_panics :
    (j : String) (c : DeviceController) (w : SensorWorker)
    → worker j c ≡ some w
    → stops w.object ≡ false
    → (stop j c).0 ≡ panicked
unfolding stop
stop_panics j c w at h = rw at (rw h)

stop_ids_panics :
    (j : String) (ids : List String) (c : DeviceController)
    → In j ids
    → (stop j c).0 ≡ panicked
    → (stop_ids ids c).0 ≡ panicked
unfolding stop_ids
stop_ids_panics j [] c h p = absurd h
stop_ids_panics j (k ∷ ids) c (inl e) p = rw (ap (λ i. (stop i c).0) e ∙ p, stop_ids)
stop_ids_panics j (k ∷ ids) c (inr h) p = ground (arith, stop_ids_panics j ids c h p)

-- `StopAll` panics if one of its workers has never run `Updates` and stops through a cancel
-- function, which is nil until then.
pub stop_all_panics :
    (j : String) (c : DeviceController) (w : SensorWorker)
    → worker j c ≡ some w
    → stops w.object ≡ false
    → (stop_all c).0 ≡ panicked
unfolding stop_all
stop_all_panics j c w at h = elim (missing_or_key j c.sensor_workers) [
  | inl gone ↦ cc
  | inr key ↦ stop_ids_panics j _ c key (stop_panics j c w at h)
]

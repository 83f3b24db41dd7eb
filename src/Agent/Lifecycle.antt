-- ===== src/Agent/Lifecycle.antt =====
-- Starting workers: what `Start` answers in each case, and what it leaves.
use mathlib.Core.List.{Perm, perm_middle}
use mathlib.Core.List.Perm
use go_hass_agent.Prelude.{
  String, ◌≡◌, refl, ◌∙◌, Bool, true, false, not, ◌⊎◌, inl, inr, Option, none, some, [], ◌∷◌, ◌++◌,
  arith, ◌==◌, if◌then◌else◌, Bool-cases,
}
use go_hass_agent.Prelude.Dict.{Dict, lookup, lookup-insert, lookup-insert_self}
use go_hass_agent.Agent.Workers.{
  Object, SensorWorker, DeviceController, unknown_worker, already_started, not_started, updates,
  launched, start, stop, active_workers, inactive_workers, workers_where, keys,
}

-- The worker `name` of a controller is there and started, there and not started, or not there.
abbrev pub worker : String → DeviceController → Option SensorWorker
worker name c = lookup name c.sensor_workers

split_perm :
    (m : Dict SensorWorker)
    → Perm (workers_where (λ w. w.started) m ++ workers_where (λ w. not w.started) m) (keys m)
unfolding workers_where keys
split_perm [] = Perm.refl _
split_perm ((id, w) ∷ m) = elim (Bool-cases w.started) [
  | inl e ↦ rw e (Perm.cons id (split_perm m))
  | inr e ↦
      rw e (
        Perm.trans (perm_middle (workers_where (λ w. w.started) m) _) (Perm.cons id (split_perm m)))
]

-- Every other worker is as it was.
abbrev pub OthersKept : String → DeviceController → DeviceController → Type 0
OthersKept name c c' = (j : String) → (name == j) ≡ false → worker j c' ≡ worker j c

-- The three answers of `Start`, by what is under the name.
abbrev pub Started : String → DeviceController → Option SensorWorker → Type 0
Started name c none = start name c ≡ (some unknown_worker, c)
Started name c (some w) =
    ((w.started ≡ true) × (start name c ≡ (some already_started, c)))
    ⊎ ((w.started ≡ false)
        × ((start name c).0 ≡ (if (updates w.object).0 then none else some not_started))
        × (worker name (start name c).1
            ≡ some (record { object = (updates w.object).1; started = (updates w.object).0 }))
        × OthersKept name c (start name c).1)

module _ (name : String) (c : DeviceController) where
  launched_lem :
      (u : Bool × Object)
      → ((launched name u c).0 ≡ (if u.0 then none else some not_started))
        × (worker name (launched name u c).1 ≡ some (record { object = u.1; started = u.0 }))
        × OthersKept name c (launched name u c).1
  unfolding launched
  launched_lem (true, o) =
      let w : SensorWorker = record { object = o; started = true } in
      (
        refl,
        lookup-insert_self name w c.sensor_workers,
        λ j h. lookup-insert name j w c.sensor_workers ∙ rw h,
      )
  launched_lem (false, o) =
      let w : SensorWorker = record { object = o; started = false } in
      (
        refl,
        lookup-insert_self name w c.sensor_workers,
        λ j h. lookup-insert name j w c.sensor_workers ∙ rw h,
      )

  start-launched :
      (w : SensorWorker)
      → lookup name c.sensor_workers ≡ some w
      → w.started ≡ false
      → start name c ≡ launched name (updates w.object) c
  unfolding start
  start-launched w h e = rw h (rw e)

  start_known : (w : SensorWorker) → lookup name c.sensor_workers ≡ some w → Started name c (some w)
  unfolding start
  start_known w h = elim (Bool-cases w.started) [
    | inl e ↦ inl (e, rw h (rw e))
    | inr e ↦
        let facts = launched_lem (updates w.object) in
        rw (start-launched w h e) (inr (e, facts.0, facts.1, facts.2))
  ]

  Started-cases : (o : Option SensorWorker) → lookup name c.sensor_workers ≡ o → Started name c o
  unfolding start
  Started-cases none h = rw h
  Started-cases (some w) h = start_known w h

  -- `Start` of an unknown name, and of a worker that is started, fails with its own error and
  -- changes nothing. Of any other worker it runs `Updates`: the worker is then started exactly if
  -- that succeeds, an error says that it did not, and no other worker changes.
  pub start-Started : Started name c (worker name c)
  start-Started = Started-cases (worker name c) refl

  started_by :
      (o : Option SensorWorker)
      → Started name c o
      → (start name c).0 ≡ none
      → (w : SensorWorker) × (worker name (start name c).1 ≡ some w) × (w.started ≡ true)
  started_by none s h = absurd (cc s)
  started_by (some w) (inl (e, s)) h = absurd (cc s)
  started_by (some w) (inr (e, answer, after, others)) h = (
    record { object = (updates w.object).1; started = (updates w.object).0 },
    after,
    ground arith,
  )

refused_at :
    (name : String) (c : DeviceController) (w : SensorWorker)
    → worker name c ≡ some w
    → w.started ≡ true
    → start name c ≡ (some already_started, c)
unfolding start
refused_at name c w h e = rw h (rw e)

-- A worker that `Start` has started, and that is then stopped, still counts as started: it cannot
-- be started again by this controller, and it is still listed as active.
pub restart_refused :
    (name : String) (c : DeviceController)
    → (start name c).0 ≡ none
    → let c' = (stop name (start name c).1).1 in
      (start name c' ≡ (some already_started, c'))
      × (active_workers c' ≡ active_workers (start name c).1)
unfolding stop
restart_refused name c h =
    let (w, at, on) = started_by name c (worker name c) (start-Started name c) h in
    (refused_at name (start name c).1 w at on, refl)

-- The active and the inactive workers are together all workers, each in one of the lists.
pub active-append-inactive-perm :
    (c : DeviceController) → Perm (active_workers c ++ inactive_workers c) (keys c.sensor_workers)
unfolding active_workers inactive_workers
active-append-inactive-perm c = split_perm c.sensor_workers

-- ===== src/Linux/Updates.antt =====
-- internal/linux/worker.go: what a worker sends, by its kind. The times at which the helper polls are
-- a parameter, given by the answers of the worker at these times; the errors are logged.
use go_hass_agent.Prelude.{
  Bool, true, Option, none, some, List, [], ◌∷◌, ◌++◌, ◌≡◌, refl, ap, ◌∙◌, sym,
}
use mathlib.Core.List.{append_assoc}
use go_hass_agent.Agent.Merge.{Channel}

-- The value of a SensorWorker, with what its methods return: `none` is an error. A polling worker
-- answers each poll, up to the end of its context; the events of a worker end if their channel is closed.
pub data Work (S : Type 0) : Type 0 where
  polling : List (Option (List S)) → Work S
  events : Option (List S) → Bool → Option (List S) → Work S
  one_shot : Option (List S) → Work S
  unknown : Work S

first_poll : {S : Type 0} → List (Option (List S)) → Option (List S)
first_poll [] = none
first_poll (p ∷ polls) = p

-- `Sensors`: the sensors, or an error; a polling worker is polled once.
unfoldable pub worker_sensors : {S : Type 0} → Work S → Option (List S)
unfolding first_poll
worker_sensors (polling polls) = first_poll polls
worker_sensors (events sent closes now) = now
worker_sensors (one_shot now) = now
worker_sensors unknown = none

or_nothing : {S : Type 0} → Option (List S) → List S
or_nothing none = []
or_nothing (some sensors) = sensors

-- The updater of `handlePolling`, at each poll: an error, or no sensors, sends nothing.
unfoldable pub polled : {S : Type 0} → List (Option (List S)) → List S
unfolding or_nothing
polled [] = []
polled (p ∷ polls) = or_nothing p ++ polled polls

-- `Updates`: the channel, or an error. handleEvents closes its channel at once where the worker gives
-- no events.
unfoldable pub updates_channel : {S : Type 0} → Work S → Option (Channel S)
unfolding polled or_nothing
updates_channel (polling polls) = some (record { contents = polled polls; closes = true })
updates_channel (events none closes now) = some (record { contents = []; closes = true })
updates_channel (events (some sent) closes now) = some (record { contents = sent; closes = closes })
updates_channel (one_shot now) = some (record { contents = or_nothing now; closes = true })
updates_channel unknown = none

polled-append :
    {S : Type 0} (xs ys : List (Option (List S))) → polled (xs ++ ys) ≡ polled xs ++ polled ys
unfolding polled
polled-append [] ys = refl
polled-append (x ∷ xs) ys =
    ap (λ l. or_nothing x ++ l) (polled-append xs ys)
    ∙ sym (append_assoc (or_nothing x) (polled xs) (polled ys))

-- A poll that fails costs only its own sensors: what was polled before it and after it is sent all
-- the same.
pub polled-error :
    {S : Type 0} (before after : List (Option (List S)))
    → polled (before ++ none ∷ after) ≡ polled (before ++ after)
unfolding polled or_nothing
polled-error before after = polled-append before (none ∷ after) ∙ sym (polled-append before after)

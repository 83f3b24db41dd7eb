-- ===== src/Agent/Workers.antt =====
-- internal/agent/device_controller.go and, for the workers of the Linux controller,
-- internal/linux/worker.go: which workers a controller has, and how they start and stop.
-- Channels and goroutines are left out; a worker's cancel function is either set or nil.
use go_hass_agent.Prelude.{
  String, Bool, true, false, not, Option, none, some, List, [], ◌∷◌, if◌then◌else◌,
}
use go_hass_agent.Prelude.Dict.{Dict, lookup, insert}

-- The implementations of Worker, with whether their cancelFunc is set. A linux.SensorWorker
-- holds a value whose kind it knows (polling, events, one shot), or one that it does not.
pub data Object : Type 0 where
  version : Object
  external_ip : Bool → Object
  os_worker : Bool → Bool → Object

-- sensorWorker
pub record SensorWorker : Type 0 where
  pub object : Object
  pub started : Bool

-- deviceController; linuxSensorController embeds it
pub record DeviceController : Type 0 where
  pub sensor_workers : Dict SensorWorker

pub data StartError : Type 0 where
  unknown_worker already_started : StartError
  -- the wrapped error of Updates
  not_started : StartError

-- `Updates`: whether it returns a channel, and the worker after it.
unfoldable pub updates : Object → Bool × Object
updates version = (true, version)
updates (external_ip cancel) = (true, external_ip true)
updates (os_worker known cancel) = (known, os_worker known true)

-- `Stop` of a worker: true, or a call of a nil function, which panics.
unfoldable pub stops : Object → Bool
stops version = true
stops (external_ip cancel) = cancel
stops (os_worker known cancel) = cancel

-- The loop of `ActiveWorkers` and `InactiveWorkers`, in the order of the range.
unfoldable pub workers_where : (SensorWorker → Bool) → Dict SensorWorker → List String
workers_where p [] = []
workers_where p ((id, w) ∷ m) = let rest = workers_where p m in if p w then id ∷ rest else rest

unfoldable pub active_workers : DeviceController → List String
active_workers c = workers_where (λ w. w.started) c.sensor_workers

unfoldable pub inactive_workers : DeviceController → List String
inactive_workers c = workers_where (λ w. not w.started) c.sensor_workers

-- sensorWorkers holds pointers: what is changed through one is changed in the map.
put : String → SensorWorker → DeviceController → DeviceController
put name w c = record { sensor_workers = insert name w c.sensor_workers }

-- What `Start` makes of a worker's answer.
unfoldable pub launched :
    String → Bool × Object → DeviceController → Option StartError × DeviceController
unfolding put
launched name (true, object) c = (none, put name (record { object = object; started = true }) c)
launched name (false, object) c =
    (some not_started, put name (record { object = object; started = false }) c)

start_worker :
    String → Option SensorWorker → DeviceController → Option StartError × DeviceController
unfolding launched
start_worker name none c = (some unknown_worker, c)
start_worker name (some w) c =
    if w.started then (some already_started, c) else launched name (updates w.object) c

-- `Start`: its error, and the controller that it leaves.
unfoldable pub start : String → DeviceController → Option StartError × DeviceController
unfolding start_worker
start name c = start_worker name (lookup name c.sensor_workers) c

-- `Stop` and `StopAll` return, with an error or not, or panic.
pub data StopResult : Type 0 where
  stopped stop_unknown panicked : StopResult

stop_worker : Option SensorWorker → StopResult
stop_worker none = stop_unknown
stop_worker (some w) = if stops w.object then stopped else panicked

-- `Stop` changes nothing in the controller.
unfoldable pub stop : String → DeviceController → StopResult × DeviceController
unfolding stop_worker
stop name c = (stop_worker (lookup name c.sensor_workers), c)

-- The loop of `StartAll` over the ids in the order of the range; the errors are joined.
unfoldable pub start_ids : List String → DeviceController → List StartError × DeviceController
start_ids [] c = ([], c)
start_ids (id ∷ ids) c =
    let (e, c') = start id c in
    let (es, c'') = start_ids ids c' in (elim e [ none ↦ es | some x ↦ x ∷ es ], c'')

unfoldable pub keys : Dict SensorWorker → List String
keys [] = []
keys ((id, w) ∷ m) = id ∷ keys m

unfoldable pub start_all : DeviceController → List StartError × DeviceController
unfolding keys
start_all c = start_ids (keys c.sensor_workers) c

-- The loop of `StopAll`: an error is joined, a panic ends it.
unfoldable pub stop_ids : List String → DeviceController → StopResult × DeviceController
stop_ids [] c = (stopped, c)
stop_ids (id ∷ ids) c =
    let (rest, c') = stop_ids ids c in
    (
      elim (stop id c).0 [
        | panicked ↦ panicked
        | stop_unknown ↦ elim rest [ panicked ↦ panicked | _ ↦ stop_unknown ]
        | stopped ↦ rest
      ],
      c',
    )

unfoldable pub stop_all : DeviceController → StopResult × DeviceController
unfolding keys
stop_all c = stop_ids (keys c.sensor_workers) c

-- newDeviceController: the version and the external address worker.
unfoldable pub new_device_controller : DeviceController
new_device_controller = record {
  sensor_workers =
      insert "external_ip_sensor" (record { object = external_ip false; started = false })
        (insert "agent_version_sensor" (record { object = version; started = false }) []);
}

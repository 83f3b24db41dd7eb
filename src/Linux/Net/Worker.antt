-- ===== src/Linux/Net/Worker.antt =====
-- worker.go, with `monitor` of connection.go: the goroutines that track connections. A step is one
-- action of one goroutine between two points at which another can run.
use go_hass_agent.Prelude.{
  ℕ, String, Bool, true, false, ◌||◌, Option, none, some, List, [], ◌∷◌, ◌++◌, ◌==◌, ◌≡◌, ltb,
  if◌then◌else◌,
}
use go_hass_agent.Prelude.Text.{elem}

-- One call of `monitor`: whether the goroutine that forwards the sensors of the connection still
-- runs, and whether the channel that it returned is closed. No code closes that channel.
pub record Ranging : Type 0 where
  pub path : String
  pub watching : Bool
  pub channel_closed : Bool

pub record ConnectionsWorker : Type 0 where
  -- w.list
  pub list : List String
  -- the goroutines of `handleConnection` before `track`
  pub spawned : List String
  -- those that range over the channel of `monitor`
  pub ranging : List Ranging

abbrev pub new_worker : ConnectionsWorker
new_worker = record { list = []; spawned = []; ranging = [] }

-- `track`, `untrack` and `isTracked`
unfoldable pub track : String → ConnectionsWorker → ConnectionsWorker
track path w = record w { list = w.list ++ path ∷ [] }

delete_path : String → List String → List String
delete_path path [] = []
delete_path path (p ∷ ps) = let rest = delete_path path ps in if path == p then rest else p ∷ rest

unfoldable pub untrack : String → ConnectionsWorker → ConnectionsWorker
unfolding delete_path
untrack path w = record w { list = delete_path path w.list }

unfoldable pub is_tracked : String → ConnectionsWorker → Bool
is_tracked path w = elem path w.list

-- `handleConnection`, for the name that `newConnection` reads; `none` is its error.
unfoldable pub handle_connection : Option String → String → ConnectionsWorker → ConnectionsWorker
unfolding is_tracked
handle_connection none path w = w
handle_connection (some name) path w =
    if name == "lo" || is_tracked path w then w else record w { spawned = w.spawned ++ path ∷ [] }

-- One event of the loop in `Events`: the state, where the first value of its body is a uint32.
unfoldable pub handle_event :
    (String → Option String) → String → Option ℕ → ConnectionsWorker → ConnectionsWorker
unfolding handle_connection
handle_event names path none w = handle_connection (names path) path w
handle_event names path (some state) w =
    if ltb 2 state then w else handle_connection (names path) path w

abbrev pub opened : String → Ranging
opened path = record { path = path; watching = true; channel_closed = false }

module _ (names : String → Option String) where
  pub data Step : ConnectionsWorker → ConnectionsWorker → Type 0 where
    event :
        (w : ConnectionsWorker) (path : String) (state : Option ℕ)
        → Step w (handle_event names path state w)
    -- a connection of the list that `Events` starts with
    listed :
        (w : ConnectionsWorker) (path : String) → Step w (handle_connection (names path) path w)
    start :
        (w : ConnectionsWorker) (path : String) (before after : List String)
        → w.spawned ≡ before ++ path ∷ after
        → Step w
            (track path (record w { spawned = before ++ after; ranging = opened path ∷ w.ranging }))
    -- `monitorConnection` closes its channel, so that the goroutine that forwards from it ends.
    stop_watching :
        (w : ConnectionsWorker) (r : Ranging) (before after : List Ranging)
        → w.ranging ≡ before ++ r ∷ after
        → Step w (record w { ranging = before ++ (record r { watching = false }) ∷ after })
    -- The range over the channel of `monitor` ends.
    finish :
        (w : ConnectionsWorker) (r : Ranging) (before after : List Ranging)
        → w.ranging ≡ before ++ r ∷ after
        → r.channel_closed ≡ true
        → Step w (untrack r.path (record w { ranging = before ++ after }))

  pub data Reach (w : ConnectionsWorker) : ConnectionsWorker → Type 0 where
    here : Reach w w
    next : {s t : ConnectionsWorker} → Reach w s → Step s t → Reach w t

-- ===== src/Linux/Net/AccessPoints.antt =====
-- connection.go: which access points of a wireless connection are watched. An access point is its path;
-- the watches are those of Dbusx, and whether one can be started is a parameter.
use go_hass_agent.Prelude.{Bool, false, String, Option, none, some, List, [], ◌∷◌, ◌++◌, ◌≡◌, refl}
use go_hass_agent.Dbusx.Values.{Any, object_path, Result, ok, err, Values, parse_value_change}

-- Each call of `watchAP`, and whether its watch still runs; a watch that could not be started does
-- not.
pub record ApWatch : Type 0 where
  pub ap : String
  pub runs : Bool

-- `apPropCancel` is that of the last call, which stands first.
abbrev pub ApWatches : Type 0
ApWatches = List ApWatch

-- apPropCancel()
unfoldable pub cancel_last : ApWatches → ApWatches
cancel_last [] = []
cancel_last (w ∷ ws) = record w { runs = false } ∷ ws

module _ (starts : String → Bool) where
  -- One access point that comes through the channel.
  unfoldable pub on_access_point : String → ApWatches → ApWatches
  unfolding cancel_last
  on_access_point ap ws = record { ap = ap; runs = starts ap } ∷ cancel_last ws

  -- The loop of `watchAccessPointProps`.
  unfoldable pub watch_access_points : List String → ApWatches → ApWatches
  unfolding on_access_point
  watch_access_points [] ws = ws
  watch_access_points (ap ∷ aps) ws = watch_access_points aps (on_access_point ap ws)

-- None of the watches runs.
abbrev pub AllStopped : ApWatches → Type 0
AllStopped [] = Unit {0}
AllStopped (w ∷ ws) = (w.runs ≡ false) × AllStopped ws

-- The watches behind the last are stopped.
abbrev pub OneRuns : ApWatches → Type 0
OneRuns [] = Unit {0}
OneRuns (w ∷ ws) = AllStopped ws

on_access_point-OneRuns :
    (starts : String → Bool) (ap : String) (ws : ApWatches)
    → OneRuns ws
    → OneRuns (on_access_point starts ap ws)
unfolding on_access_point
on_access_point-OneRuns starts ap [] h = tt
on_access_point-OneRuns starts ap (w ∷ ws) h = (refl, h)

-- Whatever access points a connection moves through, at most the last of them is watched: the watch
-- of each is stopped when the next one comes.
pub watch_access_points-OneRuns :
    (starts : String → Bool) (aps : List String) (ws : ApWatches)
    → OneRuns ws
    → OneRuns (watch_access_points starts aps ws)
unfolding watch_access_points
watch_access_points-OneRuns starts [] ws h = h
watch_access_points-OneRuns starts (ap ∷ aps) ws h =
    watch_access_points-OneRuns starts aps (on_access_point starts ap ws)
      (on_access_point-OneRuns starts ap ws h)

as_path : {V : Type 0} → Any V → Option String
as_path (object_path p) = some p
as_path _ = none

new_path : Result (Values String) → List String
new_path (err e) = []
new_path (ok values) = values.new ∷ []

-- `monitorDeviceAccessPoint`: the paths that it sends on, for the bodies of the signals.
unfoldable pub changed_access_points : {V : Type 0} → List (List (Any V)) → List String
unfolding as_path new_path parse_value_change
changed_access_points [] = []
changed_access_points (event ∷ events) =
    new_path (parse_value_change as_path event) ++ changed_access_points events

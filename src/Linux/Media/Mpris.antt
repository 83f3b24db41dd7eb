-- ===== src/Linux/Media/Mpris.antt =====
-- mpris.go: the state of media players.
use go_hass_agent.Prelude.{String, Option, none, some, List, [], ◌∷◌, ◌++◌, ◌==◌, if◌then◌else◌}
use go_hass_agent.Prelude.Text.{◌+++◌}
use go_hass_agent.Dbusx.Values.{Any, Result, ok, err, has_property_changed}

-- The state, the icon of the entity, and the messages published.
pub record MprisMonitor : Type 0 where
  pub media_state : String
  pub icon : String
  pub published : List String

unfoldable pub new_monitor : MprisMonitor
new_monitor = record { media_state = ""; icon = "mdi:music-note-off"; published = [] }

-- `mprisStateCallback`
unfoldable pub mpris_state_callback : MprisMonitor → String
mpris_state_callback m = "{ \"value\": " +++ m.media_state +++ " }"

media_icon : String → String
media_icon state =
    if state == "Playing"
    then "mdi:play"
    else if state == "Paused"
    then "mdi:pause"
    else if state == "Stopped"
    then "mdi:stop"
    else "mdi:music-note-off"

-- `publishPlaybackState`; `marshal` is the library's marshalling, `none` for its error.
unfoldable pub publish_playback_state :
    (String → Option String) → String → MprisMonitor → MprisMonitor
unfolding media_icon mpris_state_callback
publish_playback_state marshal state m =
    let m' : MprisMonitor = record m { media_state = state; icon = media_icon state } in
    elim (marshal (mpris_state_callback m')) [
      | none ↦ m'
      | some msg ↦ record m' { published = m.published ++ msg ∷ [] }
    ]

module _ {V : Type 0} (to_text : V → Option String) (marshal : String → Option String) where
  playback : Result (Option String) → MprisMonitor → MprisMonitor
  unfolding publish_playback_state
  playback (err e) m = m
  playback (ok none) m = m
  playback (ok (some status)) m = publish_playback_state marshal status m

  -- The loop over the signals.
  unfoldable pub mpris_events : List (List (Any V)) → MprisMonitor → MprisMonitor
  unfolding playback has_property_changed
  mpris_events [] m = m
  mpris_events (event ∷ events) m =
      mpris_events events (playback (has_property_changed to_text "PlaybackStatus" event) m)

-- ===== src/Linux/Media/Volume.antt =====
-- volume.go: the callbacks of the volume and the mute switch. Pulseaudio and the printing of a
-- float64 are parameters; what a callback publishes is the state that it reads afterwards.
use go_hass_agent.Prelude.{
  String, Bool, true, false, Option, none, some, List, [], ◌∷◌, ◌==◌, if◌then◌else◌,
}
use go_hass_agent.Prelude.Int.{ℤ}
use go_hass_agent.Prelude.Text.{◌+++◌}

-- What Pulseaudio answers, and the printing and reading of numbers.
pub record Audio (F : Type 0) : Type 0 where
  pub get_volume : Option F
  pub get_mute : Option Bool
  pub sets_volume : F → Bool
  pub sets_mute : Bool → Bool
  pub format_float : F → String
  pub parse_int : String → Option ℤ
  pub of_int : ℤ → F

-- A call of Pulseaudio, and a publication of an entity's state.
pub data Effect (F : Type 0) : Type 0 where
  set_volume : F → Effect F
  set_mute : Bool → Effect F
  publish_volume publish_mute : Effect F

module _ {F : Type 0} (audio : Audio F) where
  -- `volStateCallback`, with whether its error is nil
  unfoldable pub vol_state_callback : String × Bool
  vol_state_callback = elim (audio.get_volume) [
    | none ↦ ("{ \"value\": 0 }", false)
    | some v ↦ ("{ \"value\": " +++ audio.format_float v +++ " }", true)
  ]

  -- `muteStateCallback`
  unfoldable pub mute_state_callback : String × Bool
  mute_state_callback = elim (audio.get_mute) [
    | none ↦ ("OFF", false)
    | some muted ↦ (if muted then "ON" else "OFF", true)
  ]

  -- `volCommandCallback`
  unfoldable pub vol_command_callback : String → List (Effect F)
  vol_command_callback payload = elim (audio.parse_int payload) [
    | none ↦ []
    | some n ↦
        if audio.sets_volume (audio.of_int n)
        then set_volume (audio.of_int n) ∷ publish_volume ∷ []
        else set_volume (audio.of_int n) ∷ []
  ]

  -- `muteCommandCallback`: any other payload than ON and OFF sets nothing and publishes the state.
  muted_to : Bool → List (Effect F)
  muted_to b = if audio.sets_mute b then set_mute b ∷ publish_mute ∷ [] else set_mute b ∷ []

  unfoldable pub mute_command_callback : String → List (Effect F)
  unfolding muted_to
  mute_command_callback payload =
      if payload == "ON"
      then muted_to true
      else if payload == "OFF"
      then muted_to false
      else publish_mute ∷ []

-- The entities that `VolumeControl` makes, as the library is given them.
pub record VolumeEntities : Type 0 where
  pub volume_name : String
  pub volume_id : String
  pub volume_icon : String
  pub volume_template : String
  pub mute_name : String
  pub mute_id : String
  pub mute_icon : String
  pub mute_template : String

-- `VolumeControl`; without a connection to Pulseaudio there are none.
unfoldable pub volume_control : Bool → String → Option VolumeEntities
volume_control connected device =
    if connected
    then some (record {
      volume_name = "Volume";
      volume_id = device +++ "_volume";
      volume_icon = "mdi:knob";
      volume_template = "{{ value_json.value }}";
      mute_name = "Mute";
      mute_id = device +++ "_mute";
      mute_icon = "mdi:volume-mute";
      mute_template = "{{ value }}";
    })
    else none

-- `update`, at first and on each event of Pulseaudio
unfoldable pub audio_updates : {F E : Type 0} → List E → List (Effect F)
audio_updates [] = publish_mute ∷ publish_volume ∷ []
audio_updates (e ∷ events) = publish_mute ∷ publish_volume ∷ audio_updates events

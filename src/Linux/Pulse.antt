-- ===== src/Linux/Pulse.antt =====
-- pkg/linux/pulseaudiox/pulseaudio.go: the volume and the mute state of the default output device.
-- The protocol library and float64 are parameters, and so is what each request answers.
use go_hass_agent.Prelude.{
  ℕ, ◌+◌, ◌/◌, Bool, true, false, ◌||◌, Option, none, some, List, [], ◌∷◌, length, map,
  if◌then◌else◌,
}

-- What the code does with float64: the tests below 0 and above 100, the volume of a percentage as
-- uint32(pct / 100 * VolumeNorm), and the percentage of an average.
pub record Volumes (F : Type 0) : Type 0 where
  pub below_min : F → Bool
  pub above_max : F → Bool
  pub to_volume : F → ℕ
  pub to_percent : ℕ → F

-- GetSinkInfoReply
pub record SinkInfo : Type 0 where
  pub channel_volumes : List ℕ
  pub mute : Bool

-- PulseAudioClient, less its connection
pub record PulseAudioClient (F : Type 0) : Type 0 where
  pub mute : Bool
  pub vol : F

pub data PulseError : Type 0 where
  volume_out_of_range request_failed division_by_zero : PulseError

unfoldable pub sum_volumes : List ℕ → ℕ
sum_volumes [] = 0
sum_volumes (v ∷ vs) = v + sum_volumes vs

module _ {F : Type 0} (volumes : Volumes F) where
  -- `ParseVolume`: the average over the channels; without a channel the division panics.
  unfoldable pub parse_volume : List ℕ → Option F
  unfolding sum_volumes
  parse_volume [] = none
  parse_volume (v ∷ vs) = some (volumes.to_percent (sum_volumes (v ∷ vs) / length (v ∷ vs)))

  pub data Got : Type 0 where
    got : F → Got
    not_got : PulseError → Got

  -- `GetVolume`, for what `GetState` gives
  unfoldable pub get_volume : Option SinkInfo → Got
  unfolding parse_volume
  get_volume none = not_got request_failed
  get_volume (some info) = elim (parse_volume info.channel_volumes) [
    | none ↦ not_got division_by_zero
    | some pct ↦ got pct
  ]

  -- `GetMute`
  unfoldable pub get_mute : Option SinkInfo → Option Bool
  get_mute none = none
  get_mute (some info) = some info.mute

  set_all :
      F
      → Option SinkInfo
      → (List ℕ → Bool)
      → PulseAudioClient F
      → Option PulseError × PulseAudioClient F
  set_all pct none request c = (some request_failed, c)
  set_all pct (some info) request c =
      if request (map (λ v. volumes.to_volume pct) info.channel_volumes)
      then (none, record c { vol = pct })
      else (some request_failed, c)

  -- `SetVolume`: `request` tells whether the sink accepts the volumes of its channels.
  unfoldable pub set_volume :
      F
      → Option SinkInfo
      → (List ℕ → Bool)
      → PulseAudioClient F
      → Option PulseError × PulseAudioClient F
  unfolding set_all
  set_volume pct state request c =
      if volumes.below_min pct || volumes.above_max pct
      then (some volume_out_of_range, c)
      else set_all pct state request c

  -- `SetMute`
  unfoldable pub set_mute :
      Bool → Bool → PulseAudioClient F → Option PulseError × PulseAudioClient F
  set_mute state accepted c =
      if accepted then (none, record c { mute = state }) else (some request_failed, c)

-- EventCh, which holds one event.
pub data EventChannel : Type 0 where
  empty pending closed panicked : EventChannel

-- The callback for a change of a sink: whether the client is done, and which of two cases that are
-- ready the select takes. A full channel is left as it is, and on a channel that is closed either
-- case panics.
unfoldable pub on_sink_change : Bool → Bool → EventChannel → EventChannel
on_sink_change true true empty = closed
on_sink_change true false empty = pending
on_sink_change true choice pending = closed
on_sink_change false choice empty = pending
on_sink_change false choice pending = pending
on_sink_change done choice closed = panicked
on_sink_change done choice panicked = panicked

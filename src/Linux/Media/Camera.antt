-- ===== src/Linux/Media/Camera.antt =====
-- camera.go: the camera of the buttons. A device of go4vl is the number of its opening, and what it
-- answers is a parameter; frames and logging are left out.
use go_hass_agent.Prelude.{
  ℕ, ◌+◌, ◌/◌, String, Bool, Option, none, some, List, [], ◌∷◌, ◌++◌, nat_eq, if◌then◌else◌, zero,
  suc,
}

-- The pixel formats, by the numbers of v4l2.
abbrev pub Format : Type 0
Format = ℕ

-- What a device answers; `none` is an error.
pub record DeviceAnswers : Type 0 where
  pub opens : Bool
  pub frame_rate : Option ℕ
  pub formats : Option (List Format)
  pub accepts_format : Bool
  pub starts : Bool
  pub closes : Bool

pub record Camera : Type 0 where
  -- the device, by the number of its opening
  pub device : Option ℕ
  -- the recording that `cancelFunc` cancels
  pub cancel_func : Option ℕ
  pub state : String
  pub fps : ℕ
  -- the recordings that publish images, and the number of the next one
  pub recordings : List ℕ
  pub next : ℕ
  -- the states published to the topic of the status
  pub published : List String

-- `newCamera`, and the state that `NewCameraControl` publishes
unfoldable pub new_camera : Camera
new_camera = record {
  device = none;
  cancel_func = none;
  state = "Not Recording";
  fps = 0;
  recordings = [];
  next = 0;
  published = "Not Recording" ∷ [];
}

-- `getFormats`: the first description with the format
unfoldable pub get_formats : List Format → Format → Option Format
get_formats [] wanted = none
get_formats (f ∷ fs) wanted = if nat_eq f wanted then some f else get_formats fs wanted

-- The first of the preferred formats that the device has.
unfoldable pub preferred : List Format → List Format → Option Format
unfolding get_formats
preferred [] formats = none
preferred (p ∷ ps) formats = elim (get_formats formats p) [
  | none ↦ preferred ps formats
  | some f ↦ some f
]

-- How `openCamera` ends: with an error, a division by zero, or the time for a frame in nanoseconds.
pub data Opening : Type 0 where
  failed panics : Opening
  opened : ℕ → Opening

abbrev pub frame_time : ℕ → Opening
frame_time zero = panics
frame_time (suc n) = opened (1000000000 / suc n)

unfoldable pub with_format : Bool → ℕ → Option Format → Opening
with_format accepts fps none = failed
with_format accepts fps (some f) = if accepts then frame_time fps else failed

-- `openCamera`, for the preferred formats
unfoldable pub open_camera : List Format → DeviceAnswers → Opening
unfolding with_format preferred
open_camera wanted d =
    if d.opens
    then elim (d.frame_rate) [
      | none ↦ failed
      | some fps ↦ elim (d.formats) [
        | none ↦ failed
        | some formats ↦ with_format d.accepts_format fps (preferred wanted formats)
      ]
    ]
    else failed

-- The callback of the start button; `none` is a panic. A recording whose device does not start ends
-- at once.
unfoldable pub start_recording : Bool → ℕ → Camera → Camera
start_recording starts fps c = record c {
  device = some c.next;
  cancel_func = some c.next;
  state = "Recording";
  fps = fps;
  recordings = if starts then c.next ∷ c.recordings else c.recordings;
  next = c.next + 1;
  published = c.published ++ "Recording" ∷ [];
}

unfoldable pub start_camera : List Format → DeviceAnswers → Camera → Option Camera
unfolding open_camera start_recording
start_camera wanted d c = elim (open_camera wanted d) [
  | failed ↦ some c
  | panics ↦ none
  | opened fps ↦ some (start_recording d.starts fps c)
]

-- cancelFunc(): the recording of the context ends.
unfoldable pub without : ℕ → List ℕ → List ℕ
without r [] = []
without r (s ∷ rest) = let others = without r rest in if nat_eq r s then others else s ∷ others

unfoldable pub cancelled : Option ℕ → List ℕ → List ℕ
unfolding without
cancelled none rs = rs
cancelled (some r) rs = without r rs

-- The callback of the stop button; an error on closing the device is logged, and neither the device
-- nor the cancel function is reset.
unfoldable pub stop_camera : Camera → Camera
unfolding cancelled
stop_camera c = record c {
  state = "Not Recording";
  recordings = cancelled c.cancel_func c.recordings;
  published = c.published ++ "Not Recording" ∷ [];
}

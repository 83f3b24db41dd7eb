-- ===== src/Linux/Media/Recording.antt =====
-- Recordings over presses of the buttons.
use go_hass_agent.Prelude.{
  ℕ, ◌+◌, ◌<◌, Bool, true, false, some, List, [], ◌∷◌, ◌≡◌, refl, ap, ◌∙◌, arith,
}
use go_hass_agent.Linux.Media.Camera.{
  Format, DeviceAnswers, Camera, opened, open_camera, start_recording, start_camera, without,
  cancelled, stop_camera,
}

-- The recordings were numbered before the next.
abbrev pub AllBelow : ℕ → List ℕ → Type 0
AllBelow n [] = Unit {0}
AllBelow n (r ∷ rs) = r < n × AllBelow n rs

pub record IsValid (c : Camera) : Type 0 where
  pub below : AllBelow c.next c.recordings

without_fresh : (n : ℕ) (rs : List ℕ) → AllBelow n rs → without n rs ≡ rs
unfolding without
without_fresh n [] h = refl
without_fresh n (r ∷ rs) h = ground (arith, without_fresh n rs)

AllBelow-suc : (n : ℕ) (rs : List ℕ) → AllBelow n rs → AllBelow (n + 1) rs
AllBelow-suc n [] h = tt
AllBelow-suc n (r ∷ rs) h = (omega (arith, h.0), AllBelow-suc n rs h.1)

pub start_recording-IsValid :
    (starts : Bool) (fps : ℕ) (c : Camera) → IsValid c → IsValid (start_recording starts fps c)
unfolding start_recording
start_recording-IsValid true fps c v = record {
  below = (omega arith, AllBelow-suc c.next c.recordings v.below);
}
start_recording-IsValid false fps c v = record { below = AllBelow-suc c.next c.recordings v.below }

-- One start and one stop end the recording that was started, and no other one.
stop_camera-start :
    (starts : Bool) (fps : ℕ) (c : Camera)
    → IsValid c
    → (stop_camera (start_recording starts fps c)).recordings ≡ c.recordings
unfolding stop_camera start_recording cancelled without
stop_camera-start true fps c v = ground (arith, without_fresh c.next c.recordings v.below)
stop_camera-start false fps c v = without_fresh c.next c.recordings v.below

starts_recording :
    (wanted : List Format) (d : DeviceAnswers) (fps : ℕ) (c : Camera)
    → open_camera wanted d ≡ opened fps
    → d.starts ≡ true
    → start_camera wanted d c ≡ some (start_recording true fps c)
unfolding start_camera
starts_recording wanted d fps c e s = rw (e, start_camera) (rw s refl)

-- A second press of the stop button ends no recording that the first one left.
stop_twice :
    (fps : ℕ) (c : Camera)
    → IsValid c
    → (stop_camera (stop_camera (start_recording true fps c))).recordings ≡ c.recordings
unfolding stop_camera start_recording cancelled
stop_twice fps c v =
    ap (without c.next) (stop_camera-start true fps c v) ∙ without_fresh c.next c.recordings v.below

recorded : (fps : ℕ) (c : Camera) → (start_recording true fps c).recordings ≡ c.next ∷ c.recordings
unfolding start_recording
recorded fps c = refl

stopped_state : (c : Camera) → (stop_camera c).state ≡ "Not Recording"
unfolding stop_camera
stopped_state c = refl

-- The start button pressed twice starts a second recording beside the first: the stop button ends
-- the second alone, also where it is pressed twice, and the first goes on, though the status says
-- that nothing is recorded.
pub started_twice_goes_on :
    (wanted : List Format) (d : DeviceAnswers) (fps : ℕ) (c : Camera)
    → open_camera wanted d ≡ opened fps
    → d.starts ≡ true
    → IsValid c
    → (c' : Camera) × (start_camera wanted d c ≡ some c')
      × (c'' : Camera) × (start_camera wanted d c' ≡ some c'')
      × ((stop_camera c'').recordings ≡ c.next ∷ c.recordings)
      × ((stop_camera (stop_camera c'')).recordings ≡ c.next ∷ c.recordings)
      × ((stop_camera c'').state ≡ "Not Recording")
started_twice_goes_on wanted d fps c e s v =
    let c' : Camera = start_recording true fps c in
    let v' = start_recording-IsValid true fps c v in
    (
      c',
      starts_recording wanted d fps c e s,
      start_recording true fps c',
      starts_recording wanted d fps c' e s,
      stop_camera-start true fps c' v' ∙ recorded fps c,
      stop_twice fps c' v' ∙ recorded fps c,
      stopped_state (start_recording true fps c'),
    )

-- ===== src/Linux/Net/Tracked.antt =====
-- What becomes of the list of tracked connections, over the interleavings of the goroutines.
use go_hass_agent.Prelude.{
  ℕ, String, Bool, true, false, Option, none, some, List, [], ◌∷◌, ◌++◌, ◌==◌, ◌≡◌, refl, subst,
  sym, arith,
}
use go_hass_agent.Prelude.Text.{elem}
use go_hass_agent.Linux.Net.Worker.{
  opened, Ranging, ConnectionsWorker, new_worker, track, untrack, is_tracked, handle_connection,
  handle_event, Step, event, listed, start, stop_watching, finish, Reach, here, next,
}

-- Every channel is open.
abbrev pub AllOpen : List Ranging → Type 0
AllOpen [] = Unit {0}
AllOpen (r ∷ rs) = (r.channel_closed ≡ false) × AllOpen rs

AllOpen-member :
    (before : List Ranging) (r : Ranging) (after : List Ranging)
    → AllOpen (before ++ r ∷ after)
    → r.channel_closed ≡ false
AllOpen-member [] r after h = h.0
AllOpen-member (b ∷ before) r after h = AllOpen-member before r after h.1

AllOpen-replace :
    (before : List Ranging) (r s : Ranging) (after : List Ranging)
    → s.channel_closed ≡ false
    → AllOpen (before ++ r ∷ after)
    → AllOpen (before ++ s ∷ after)
AllOpen-replace [] r s after e h = (e, h.1)
AllOpen-replace (b ∷ before) r s after e h = (h.0, AllOpen-replace before r s after e h.1)

elem-append_left : (p : String) (xs ys : List String) → elem p xs ≡ true → elem p (xs ++ ys) ≡ true
unfolding elem
elem-append_left p [] ys h = cc
elem-append_left p (x ∷ xs) ys h = ground (arith, elem-append_left p xs ys)

handle_connection-keeps :
    (name : Option String) (path : String) (w : ConnectionsWorker)
    → ((handle_connection name path w).list ≡ w.list)
      × ((handle_connection name path w).ranging ≡ w.ranging)
unfolding handle_connection
handle_connection-keeps none path w = (refl, refl)
handle_connection-keeps (some name) path w = ground arith

handle_event-keeps :
    (names : String → Option String) (path : String) (state : Option ℕ) (w : ConnectionsWorker)
    → ((handle_event names path state w).list ≡ w.list)
      × ((handle_event names path state w).ranging ≡ w.ranging)
unfolding handle_event
handle_event-keeps names path none w = handle_connection-keeps (names path) path w
handle_event-keeps names path (some n) w =
    ground (arith, handle_connection-keeps (names path) path w)

Bool-differ : {b : Bool} → b ≡ false → b ≡ true → ⊥
Bool-differ e f = cc

Step-AllOpen :
    {names : String → Option String} {s t : ConnectionsWorker}
    → Step names s t
    → AllOpen s.ranging
    → AllOpen t.ranging
unfolding track untrack
Step-AllOpen {names} (event w path state) h =
    subst AllOpen (sym (handle_event-keeps names path state w).1) h
Step-AllOpen {names} (listed w path) h =
    subst AllOpen (sym (handle_connection-keeps (names path) path w).1) h
Step-AllOpen (start w path before after e) h = (refl, h)
Step-AllOpen (stop_watching w r before after e) h =
    let open_before = subst AllOpen e h in
    AllOpen-replace before r _ after (AllOpen-member before r after open_before) open_before
Step-AllOpen (finish w r before after e c) h =
    absurd (Bool-differ (AllOpen-member before r after (subst AllOpen e h)) c)

Step-tracked :
    {names : String → Option String} {s t : ConnectionsWorker} (path : String)
    → Step names s t
    → AllOpen s.ranging
    → is_tracked path s ≡ true
    → is_tracked path t ≡ true
unfolding is_tracked track untrack
Step-tracked {names} path (event w other state) h p =
    subst (λ l. elem path l ≡ true) (sym (handle_event-keeps names other state w).0) p
Step-tracked {names} path (listed w other) h p =
    subst (λ l. elem path l ≡ true) (sym (handle_connection-keeps (names other) other w).0) p
Step-tracked path (start w other before after e) h p = elem-append_left path w.list (other ∷ []) p
Step-tracked path (stop_watching w r before after e) h p = p
Step-tracked path (finish w r before after e c) h p =
    absurd (Bool-differ (AllOpen-member before r after (subst AllOpen e h)) c)

Reach-AllOpen :
    {names : String → Option String} {s t : ConnectionsWorker}
    → Reach names s t
    → AllOpen s.ranging
    → AllOpen t.ranging
Reach-AllOpen here h = h
Reach-AllOpen (next r step) h = Step-AllOpen step (Reach-AllOpen r h)

Reach-tracked :
    {names : String → Option String} {s t : ConnectionsWorker} (path : String)
    → Reach names s t
    → AllOpen s.ranging
    → is_tracked path s ≡ true
    → is_tracked path t ≡ true
Reach-tracked path here h p = p
Reach-tracked path (next r step) h p =
    Step-tracked path step (Reach-AllOpen r h) (Reach-tracked path r h p)

ignored :
    (name : Option String) (path : String) (w : ConnectionsWorker)
    → is_tracked path w ≡ true
    → handle_connection name path w ≡ w
unfolding handle_connection
ignored none path w h = refl
ignored (some name) path w h = ground arith

-- A connection that has been tracked is never untracked, whatever the goroutines do: no code closes
-- the channel of its monitor, so the range that would untrack it never ends. From then on each new
-- event about its path is ignored, though its monitor may have stopped.
pub tracked_for_good :
    (names : String → Option String) (s t : ConnectionsWorker) (path : String)
    → Reach names new_worker s
    → is_tracked path s ≡ true
    → Reach names s t
    → (name : Option String) → (is_tracked path t ≡ true) × (handle_connection name path t ≡ t)
unfolding handle_connection
tracked_for_good names s t path r p later name =
    let kept = Reach-tracked path later (Reach-AllOpen r tt) p in (kept, ignored name path t kept)

-- The first action of the goroutines on an event for a path that is not tracked.
abbrev waiting : List String → ConnectionsWorker
waiting paths = record { list = []; spawned = paths; ranging = [] }

spawns :
    (names : String → Option String) (path name : String) (paths : List String)
    → names path ≡ some name
    → (name == "lo") ≡ false
    → Step names (waiting paths) (waiting (paths ++ path ∷ []))
unfolding handle_event handle_connection is_tracked elem
spawns names path name paths e n =
    let w : handle_event names path none (waiting paths) ≡ waiting (paths ++ path ∷ []) =
      rw (e, n) refl in
    subst (Step names (waiting paths)) w (event (waiting paths) path none)

-- Two events for a path, before the goroutine of the first has tracked it, start two monitors of
-- the same connection.
pub two_monitors :
    (names : String → Option String) (path name : String)
    → names path ≡ some name
    → (name == "lo") ≡ false
    → (t : ConnectionsWorker) × Reach names new_worker t
      × (t.ranging ≡ opened path ∷ opened path ∷ [])
      × (t.list ≡ path ∷ path ∷ [])
unfolding track
two_monitors names path name e n = (
  _,
  next
      (next
        (next (next here (spawns names path name [] e n)) (spawns names path name (path ∷ []) e n))
        (start (waiting (path ∷ path ∷ [])) path [] (path ∷ []) refl))
      (start _ path [] [] refl),
  refl,
  refl,
)

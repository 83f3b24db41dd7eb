-- ===== src/Dbusx/Watch.antt =====
-- watch.go: a watch for signals. The goroutines of `Start` are a step relation: one forwards signals
-- from the channel that godbus sends to, the other closes the channel of the client and then takes
-- the first one off the connection. The match rules that the bus itself applies are left out, since
-- every watch on a connection is sent all the signals that the connection gets.
use go_hass_agent.Prelude.{
  String, Bool, true, false, ◌&&◌, ◌||◌, Option, none, some, List, [], ◌∷◌, ◌++◌, ◌==◌, ◌≡◌,
  if◌then◌else◌,
}
use text.Mathlib.Text.{starts_with}
use go_hass_agent.Dbusx.Values.{Any}

-- The options of a watch.
pub data WatchOption : Type 0 where
  match_path : String → WatchOption
  match_path_namespace : String → WatchOption
  match_members : List String → WatchOption
  -- an interface, arguments or changed properties: a rule for the bus
  match_on_bus : String → WatchOption

pub record Watch : Type 0 where
  pub path : String
  pub path_namespace : String
  pub matches : List String
  pub methods : List String

unfoldable pub apply_option : WatchOption → Watch → Watch
apply_option (match_path p) w = record w { path = p; matches = w.matches ++ p ∷ [] }
apply_option (match_path_namespace p) w = record w {
  path_namespace = p;
  matches = w.matches ++ p ∷ [];
}
apply_option (match_members names) w = record w { methods = w.methods ++ names }
apply_option (match_on_bus rule) w = record w { matches = w.matches ++ rule ∷ [] }

apply_options : List WatchOption → Watch → Watch
unfolding apply_option
apply_options [] w = w
apply_options (o ∷ options) w = apply_options options (apply_option o w)

-- `NewWatch`
unfoldable pub new_watch : List WatchOption → Watch
unfolding apply_options
new_watch options =
    apply_options options (record { path = ""; path_namespace = ""; matches = []; methods = [] })

-- A signal, and the trigger made of it.
pub record Trigger (V : Type 0) : Type 0 where
  pub signal : String
  pub path : String
  pub content : List (Any V)

-- The tests of the forwarding goroutine, of which a nil signal fails the first.
unfoldable pub accepts : {V : Type 0} → Watch → Trigger V → Bool
accepts w t =
    (w.path == "" || t.path == w.path)
    && (w.path_namespace == "" || starts_with t.path w.path_namespace)

-- The two goroutines: what the first holds until the client takes it, whether the context is
-- cancelled, the channel of the client closed and the signals stopped. `received` and `delivered`
-- record what went in and out.
pub record Forwarder (V : Type 0) : Type 0 where
  pub holding : Option (Trigger V)
  pub cancelled : Bool
  pub closed : Bool
  pub removed : Bool
  pub panicked : Bool
  pub received : List (Option (Trigger V))
  pub delivered : List (Trigger V)

unfoldable pub held : {V : Type 0} → Watch → Option (Trigger V) → Option (Trigger V)
unfolding accepts
held w none = none
held w (some t) = if accepts w t then some t else none

abbrev pub started : {V : Type 0} → Forwarder V
started = record {
  holding = none;
  cancelled = false;
  closed = false;
  removed = false;
  panicked = false;
  received = [];
  delivered = [];
}

module _ {V : Type 0} (w : Watch) where
  pub data Step : Forwarder V → Forwarder V → Type 0 where
    -- A signal arrives; `none` is a nil.
    receive :
        (s : Forwarder V) (signal : Option (Trigger V))
        → s.holding ≡ none
        → s.removed ≡ false
        → s.panicked ≡ false
        → Step s (record s { holding = held w signal; received = s.received ++ signal ∷ [] })
    -- The client takes the trigger.
    deliver :
        (s : Forwarder V) (t : Trigger V)
        → s.holding ≡ some t
        → s.closed ≡ false
        → Step s (record s { holding = none; delivered = s.delivered ++ t ∷ [] })
    cancel : (s : Forwarder V) → Step s (record s { cancelled = true })
    close :
        (s : Forwarder V)
        → s.cancelled ≡ true
        → s.closed ≡ false
        → Step s (record s { closed = true })
    remove : (s : Forwarder V) → s.closed ≡ true → Step s (record s { removed = true })
    -- A send on a closed channel, begun before or after it was closed.
    send_on_closed :
        (s : Forwarder V) (t : Trigger V)
        → s.holding ≡ some t
        → s.closed ≡ true
        → Step s (record s { panicked = true; holding = none })

  pub data Reach : Forwarder V → Type 0 where
    here : Reach started
    next : {s t : Forwarder V} → Reach s → Step s t → Reach t

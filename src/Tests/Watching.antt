-- ===== src/Tests/Watching.antt =====
-- The theorems of the watch, of the network connections and of the power sensors at concrete values.
use go_hass_agent.Prelude.{
  ℕ, String, Bool, true, false, Option, none, some, List, [], ◌∷◌, ◌++◌, ◌≡◌, ◌↔◌, refl, zero, suc,
}
use go_hass_agent.Prelude.Dict.{lookup}
use go_hass_agent.Prelude.Int.{pos}
use go_hass_agent.Dbusx.Values.{
  Any, text, variants, texts, others, ok, Properties, parse_properties_changed,
}
use go_hass_agent.Dbusx.Watch.{
  Watch, Trigger, Forwarder, match_path_namespace, match_members, new_watch, accepts, held, started,
  receive, deliver, Reach, here, next,
}
use go_hass_agent.Dbusx.Delivery.{
  accepted, pending, AllMatch, watch_delivers_in_order, watch_can_panic,
}
use go_hass_agent.Dbusx.Parsed.{body_of, parse_properties_changed-ok}
use go_hass_agent.Linux.Net.{Variants, object_path}
use go_hass_agent.Linux.Net.Address.{ipv4, Configs, AddrSensor, names_of, path_of, set_addr_state}
use go_hass_agent.Linux.Net.Nameservers.{set_times, copies, nameservers_pile_up}
use go_hass_agent.Linux.Net.Monitor.{
  Monitored, is_offline, monitor_connection, offline_ends_monitoring,
}
use go_hass_agent.Linux.Net.Worker.{
  ConnectionsWorker, new_worker, opened, track, is_tracked, handle_connection, handle_event, event,
  start, Reach as Reached, here as at_start, next as then_after,
}
use go_hass_agent.Linux.Net.Tracked.{tracked_for_good}
use go_hass_agent.Prelude.Text.{contains, elem}
use go_hass_agent.Linux.Power.Session.{state_events}
use go_hass_agent.Linux.Power.Unseen.{power_states_unseen}

-- Variants that are numbers.
abbrev Triggered : Type 0
Triggered = Trigger ℕ

abbrev watch : Watch
watch = new_watch (match_path_namespace "/org/a" ∷ match_members ("Changed" ∷ []) ∷ [])

abbrev signal : Triggered
signal = record { signal = "org.a.Changed"; path = "/org/a/1"; content = text "x" ∷ [] }

signal_accepted : accepts watch signal ≡ true
unfolding new_watch accepts
signal_accepted = refl

abbrev received : Forwarder ℕ
received = record {
  holding = held watch (some signal);
  cancelled = false;
  closed = false;
  removed = false;
  panicked = false;
  received = some signal ∷ [];
  delivered = [];
}

held_signal : held watch (some signal) ≡ some signal
unfolding held new_watch accepts
held_signal = refl

reached : Reach watch (record received { holding = none; delivered = signal ∷ [] })
reached =
    next (next here (receive started (some signal) refl refl refl))
      (deliver received signal held_signal refl)

watch_delivers_in_order_example :
    (accepted watch (some signal ∷ []) ≡ (signal ∷ []) ++ pending none)
    × AllMatch watch (signal ∷ [])
watch_delivers_in_order_example =
    watch_delivers_in_order watch (record received { holding = none; delivered = signal ∷ [] })
      reached refl

watch_can_panic_example : (s : Forwarder ℕ) × Reach watch s × (s.panicked ≡ true)
watch_can_panic_example = watch_can_panic watch signal signal_accepted

abbrev body : List (Any ℕ)
body = text "org.a" ∷ variants (("State", 4) ∷ []) ∷ texts [] ∷ []

abbrev changes : Properties ℕ
changes = record { interface = "org.a"; changed = ("State", 4) ∷ []; invalidated = [] }

parse_properties_changed-ok_example :
    (parse_properties_changed body ≡ ok changes) ↔ (body ≡ body_of changes)
parse_properties_changed-ok_example = parse_properties_changed-ok body changes

if_one : ℕ → Option String
if_one zero = none
if_one (suc n) = some "1.1.1.1"

abbrev ops : Variants ℕ
ops = record { missing = 0; to_text = if_one; to_int = λ v. some (pos v); to_state = λ v. some v }

abbrev configs : Configs ℕ
configs version path = record {
  address_data = some ((("address", 1) ∷ ("prefix", 24) ∷ []) ∷ []);
  gateway = some "10.0.0.1";
  nameserver_data = some ((("address", 1) ∷ []) ∷ []);
}

abbrev addresses : AddrSensor
addresses = record {
  addr = "";
  gateway = "";
  nameservers = [];
  prefix = pos 0;
  ver = ipv4;
  display_name = "Wired IPv4 Address";
  unique_id = "wired_ipv4_address";
  icon_string = "mdi:numeric-4-box-outline";
}

abbrev added : AddrSensor
added = record addresses {
  addr = "1.1.1.1";
  gateway = "10.0.0.1";
  nameservers = "1.1.1.1" ∷ "1.1.1.1" ∷ [];
  prefix = pos 24;
}

added_twice : set_times ops configs (object_path "/c") 2 addresses ≡ some added
unfolding set_times set_addr_state if_one lookup
added_twice = refl

path_read : path_of ops (object_path "/c") ≡ some "/c"
unfolding path_of
path_read = refl

nameservers_pile_up_example :
    added.nameservers ≡ [] ++ copies 2 (names_of ops ((("address", 1) ∷ []) ∷ []))
nameservers_pile_up_example =
    nameservers_pile_up ops configs (object_path "/c") "/c" ((("address", 1) ∷ []) ∷ []) 2 addresses
      added refl path_read refl added_twice

abbrev online : Monitored
online = record {
  state = record { display_name = "Wired"; unique_id = "wired"; value = 2 };
  ipv4_sensor = addresses;
  ipv6_sensor = addresses;
}

abbrev goes_offline : List (Any ℕ)
goes_offline =
    text "org.freedesktop.NetworkManager.Connection.Active"
    ∷ variants (("State", 4) ∷ [])
    ∷ texts []
    ∷ []

ends : is_offline ops configs (monitor_connection ops configs (goes_offline ∷ []) online).1 ≡ true
unfolding monitor_connection
ends = refl

offline_ends_monitoring_example :
    monitor_connection ops configs ((goes_offline ∷ []) ++ body ∷ []) online
    ≡ monitor_connection ops configs (goes_offline ∷ []) online
offline_ends_monitoring_example =
    offline_ends_monitoring ops configs (goes_offline ∷ []) (body ∷ []) online refl ends

names : String → Option String
names path = some "Wired"

abbrev spawned : ConnectionsWorker
spawned = handle_event names "/c/1" none new_worker

spawned_one : spawned.spawned ≡ [] ++ "/c/1" ∷ []
unfolding handle_event handle_connection names elem
spawned_one = refl

abbrev watched : ConnectionsWorker
watched = track "/c/1" (record spawned { spawned = []; ranging = opened "/c/1" ∷ spawned.ranging })

watched_reached : Reached names new_worker watched
watched_reached =
    then_after (then_after at_start (event new_worker "/c/1" none))
      (start spawned "/c/1" [] [] spawned_one)

watched_tracked : is_tracked "/c/1" watched ≡ true
unfolding is_tracked track elem handle_event names
watched_tracked = refl

tracked_for_good_example :
    (is_tracked "/c/1" (handle_event names "/c/1" (some 2) watched) ≡ true)
    × (handle_connection (some "Wired") "/c/1" (handle_event names "/c/1" (some 2) watched)
        ≡ handle_event names "/c/1" (some 2) watched)
tracked_for_good_example =
    tracked_for_good names watched (handle_event names "/c/1" (some 2) watched) "/c/1"
      watched_reached watched_tracked (then_after at_start (event watched "/c/1" (some 2)))
      (some "Wired")

abbrev sleeps : Trigger Bool
sleeps = record {
  signal = "org.freedesktop.login1.Manager.PrepareForSleep";
  path = "/org/freedesktop/login1";
  content = others ∷ [];
}

power_states_unseen_example : state_events (λ a. some true) (sleeps ∷ []) ≡ []
unfolding contains
power_states_unseen_example = power_states_unseen (λ a. some true) (sleeps ∷ []) (dotted, tt)
  where
    dotted : contains sleeps.signal "." ≡ true
    dotted = refl

-- ===== src/Websocket.antt =====
-- internal/hass/websocket.go: the messages that the websocket answers, and the pings that keep it
-- alive. JSON, the connection and the logger are left out; an event is what arrives, the outputs
-- are what is sent or handed on. `uint64` arithmetic wraps.
pub mod Ids
pub mod Auth
use go_hass_agent.Prelude.{
  ℕ, ◌+◌, ◌%◌, ◌^◌, String, Bool, true, false, Option, none, some, List, [], ◌∷◌, ◌++◌, ◌==◌,
  if◌then◌else◌,
}
use go_hass_agent.Sensor.{Code, absent, number, text, ApiError}

-- webSocketRequest; an `id` of 0 is left out of the JSON.
pub record WebSocketRequest : Type 0 where
  pub type : String
  pub webhook_id : String
  pub access_token : String
  pub id : ℕ
  pub support_confirm : Bool

pub record WebsocketNotification : Type 0 where
  pub message : String
  pub title : String
  pub confirm_id : String
  pub target : List String

-- websocketResponse, as far as OnMessage reads it
pub record WebsocketResponse : Type 0 where
  pub error : ApiError
  pub type : String
  pub notification : WebsocketNotification
  pub success : Bool

pub record Websocket : Type 0 where
  pub token : String
  pub webhook_id : String
  pub url : String
  pub next_id : ℕ

-- NewWebsocket
unfoldable pub new_websocket : String → String → String → Websocket
new_websocket url webhook_id token = record {
  token = token;
  webhook_id = webhook_id;
  url = url;
  next_id = 0;
}

unfoldable pub new_auth_msg : Websocket → WebSocketRequest
new_auth_msg c = record {
  type = "auth";
  webhook_id = "";
  access_token = c.token;
  id = 0;
  support_confirm = false;
}

unfoldable pub new_registration_msg : Websocket → WebSocketRequest
new_registration_msg c = record {
  type = "mobile_app/push_notification_channel";
  webhook_id = c.webhook_id;
  access_token = "";
  id = c.next_id;
  support_confirm = false;
}

unfoldable pub new_ping_msg : Websocket → WebSocketRequest
new_ping_msg c = record {
  type = "ping";
  webhook_id = "";
  access_token = "";
  id = c.next_id;
  support_confirm = false;
}

-- What leaves the websocket: a notification on its channel, or a request on the
-- connection, from keepAlive or from OnMessage.
pub data Output : Type 0 where
  notify : WebsocketNotification → Output
  ping : WebSocketRequest → Output
  reply : WebSocketRequest → Output

-- atomic.AddUint64(&c.nextID, 1)
unfoldable pub next : Websocket → Websocket
next c = record c { next_id = (c.next_id + 1) % 2 ^ 64 }

-- response.Error.Code == "id_reuse"
unfoldable pub is_id_reuse : Code → Bool
is_id_reuse absent = false
is_id_reuse (number n) = false
is_id_reuse (text s) = s == "id_reuse"

-- What OnMessage does after it has counted a message.
pub data Reaction : Type 0 where
  quiet increments : Reaction
  notifies : WebsocketNotification → Reaction
  replies : WebSocketRequest → Reaction

on_result : WebsocketResponse → Reaction
unfolding is_id_reuse
on_result r = if r.success then quiet else if is_id_reuse r.error.code then increments else quiet

-- The switch of OnMessage.
on_response : WebsocketResponse → Websocket → Reaction
unfolding new_auth_msg new_registration_msg on_result
on_response r c =
    if r.type == "event"
    then notifies r.notification
    else if r.type == "result"
    then on_result r
    else if r.type == "auth_required"
    then replies (new_auth_msg c)
    else if r.type == "auth_ok"
    then replies (new_registration_msg c)
    else quiet

-- `OnMessage`, up to the second increment or the write of its reply; `none` is a message that
-- cannot be decoded.
unfoldable pub on_message : Option WebsocketResponse → Websocket → Reaction × Websocket
unfolding on_response next
on_message none c = (quiet, c)
on_message (some r) c = let c' = next c in (on_response r c', c')

-- What happens to a connection, on which OnMessage and keepAlive run in goroutines of their own: a
-- message arrives; OnMessage increments once more, or writes its reply; the ticker of keepAlive
-- fires, with the deadline set or not, and the next id is read; the ping is written.
pub data Event : Type 0 where
  message : Option WebsocketResponse → Event
  incremented reply_written ping_written : Event
  tick : Bool → Event

-- The websocket, whether keepAlive still runs, the ping that it is about to write, and what
-- OnMessage is about to do: increment once more, or write a reply.
pub record Session : Type 0 where
  pub socket : Websocket
  pub open socket use *
  pub alive : Bool
  pub pinging : Option WebSocketRequest
  pub repeating : Bool
  pub replying : Option WebSocketRequest

react : Reaction → Session → List Output × Session
react quiet s = ([], s)
react increments s = ([], record s { repeating = true })
react (notifies n) s = (notify n ∷ [], s)
react (replies r) s = ([], record s { replying = some r })

-- A message arrives when OnMessage has done with the one before.
receive :
    Option WebsocketResponse → Bool → Option WebSocketRequest → Session → List Output × Session
unfolding react on_message
receive m true replying s = ([], s)
receive m false (some r) s = ([], s)
receive m false none s = let (x, c) = on_message m s.socket in react x (record s { socket = c })

increment : Bool → Session → List Output × Session
unfolding next
increment true s = ([], record s { socket = next s.socket; repeating = false })
increment false s = ([], s)

write_reply : Option WebSocketRequest → Session → List Output × Session
write_reply none s = ([], s)
write_reply (some r) s = (reply r ∷ [], record s { replying = none })

-- A round of keepAlive, which ends when the deadline cannot be set, up to the write of the ping.
keep_alive : Bool → Option WebSocketRequest → Session → List Output × Session
unfolding new_ping_msg
keep_alive deadline (some r) s = ([], s)
keep_alive false none s = ([], record s { alive = false })
keep_alive true none s =
    if s.alive then ([], record s { pinging = some (new_ping_msg s.socket) }) else ([], s)

write_ping : Option WebSocketRequest → Session → List Output × Session
write_ping none s = ([], s)
write_ping (some r) s = (ping r ∷ [], record s { pinging = none })

-- One event; one that is not possible changes nothing.
unfoldable pub step : Event → Session → List Output × Session
unfolding receive increment write_reply keep_alive write_ping
step (message m) s = receive m s.repeating s.replying s
step incremented s = increment s.repeating s
step reply_written s = write_reply s.replying s
step (tick deadline) s = keep_alive deadline s.pinging s
step ping_written s = write_ping s.pinging s

-- A history of events, with everything that leaves the websocket.
unfoldable pub run : List Event → Session → List Output × Session
run [] s = ([], s)
run (e ∷ es) s = let (out, s') = step e s in let (outs, s'') = run es s' in (out ++ outs, s'')

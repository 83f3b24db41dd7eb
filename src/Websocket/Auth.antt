-- ===== src/Websocket/Auth.antt =====
-- When the access token leaves the agent.
use go_hass_agent.Prelude.{
  String, Bool, true, false, ◌||◌, ◌≡◌, refl, Option, none, some, List, [], ◌∷◌, ◌++◌, ◌==◌,
  eq_refl, arith, Bool-cases, inl, inr,
}
use go_hass_agent.Websocket.{
  WebSocketRequest, WebsocketResponse, Websocket, Output, notify, ping, reply, Event, message,
  incremented, reply_written, ping_written, tick, Reaction, quiet, increments, notifies, replies,
  Session, on_message, react, receive, increment, write_reply, keep_alive, write_ping, step, run,
}

-- One of the texts of a request is the given one.
unfoldable pub carries : String → WebSocketRequest → Bool
carries t r = r.type == t || r.webhook_id == t || r.access_token == t

unfoldable pub reveals : String → List Output → Bool
unfolding carries
reveals t [] = false
reveals t (notify n ∷ out) = reveals t out
reveals t (ping r ∷ out) = carries t r || reveals t out
reveals t (reply r ∷ out) = carries t r || reveals t out

-- The token is none of the other texts that are sent.
abbrev pub IsSecret : String → Websocket → Type 0
IsSecret t c =
    (c.webhook_id == t ≡ false)
    × ("" == t ≡ false)
    × ("ping" == t ≡ false)
    × ("mobile_app/push_notification_channel" == t ≡ false)

-- An event that is no message that asks for authorisation.
abbrev pub NoAuth : Event → Type 0
NoAuth (message (some r)) = r.type == "auth_required" ≡ false
NoAuth _ = Unit {0}

abbrev pub NoneAuth : List Event → Type 0
NoneAuth [] = Unit {0}
NoneAuth (e ∷ es) = NoAuth e × NoneAuth es

-- A request that is about to be written does not carry the token.
Clean : String → Option WebSocketRequest → Type 0
Clean t none = Unit {0}
Clean t (some r) = carries t r ≡ false

Silent : String → List Output × Session → Type 0
Silent t (out, s) =
    (reveals t out ≡ false) × IsSecret t s.socket × Clean t s.pinging × Clean t s.replying

CleanReaction : String → Reaction → Type 0
CleanReaction t quiet = Unit {0}
CleanReaction t increments = Unit {0}
CleanReaction t (notifies n) = Unit {0}
CleanReaction t (replies r) = carries t r ≡ false

on_message-Clean :
    (t : String) (r : WebsocketResponse) (c : Websocket)
    → IsSecret t c
    → (r.type == "auth_required") ≡ false
    → CleanReaction t (on_message (some r) c).0
unfolding on_message CleanReaction carries
on_message-Clean t r c h a = ground (arith, a, h)

on_message-IsSecret :
    (t : String) (m : Option WebsocketResponse) (c : Websocket)
    → IsSecret t c
    → IsSecret t (on_message m c).1
unfolding on_message
on_message-IsSecret t none c h = h
on_message-IsSecret t (some r) c h = h

module _ (t : String) where
  still :
      (s : Session)
      → IsSecret t s.socket
      → Clean t s.pinging
      → Clean t s.replying
      → Silent t ([], s)
  unfolding Silent reveals
  still s h p q = (refl, h, p, q)

  react-Silent :
      (x : Reaction) (s : Session) (c : Websocket)
      → IsSecret t c
      → CleanReaction t x
      → Clean t s.pinging
      → Clean t s.replying
      → Silent t (react x (record s { socket = c }))
  unfolding react Silent CleanReaction Clean reveals
  react-Silent quiet s c h k p q = (refl, h, p, q)
  react-Silent increments s c h k p q = (refl, h, p, q)
  react-Silent (notifies n) s c h k p q = (refl, h, p, q)
  react-Silent (replies r) s c h k p q = (refl, h, p, k)

  message-Clean :
      (m : Option WebsocketResponse) (c : Websocket)
      → IsSecret t c
      → NoAuth (message m)
      → CleanReaction t (on_message m c).0
  unfolding CleanReaction on_message
  message-Clean none c h a = tt
  message-Clean (some r) c h a = on_message-Clean t r c h a

  receive-Silent :
      (m : Option WebsocketResponse) (b : Bool) (o : Option WebSocketRequest) (s : Session)
      → NoAuth (message m)
      → IsSecret t s.socket
      → Clean t s.pinging
      → Clean t s.replying
      → Silent t (receive m b o s)
  unfolding receive
  receive-Silent m true o s a h p q = still s h p q
  receive-Silent m false (some r) s a h p q = still s h p q
  receive-Silent m false none s a h p q =
      react-Silent (on_message m s.socket).0 s (on_message m s.socket).1
        (on_message-IsSecret t m s.socket h) (message-Clean m s.socket h a) p q

  increment-Silent :
      (b : Bool) (s : Session)
      → IsSecret t s.socket
      → Clean t s.pinging
      → Clean t s.replying
      → Silent t (increment b s)
  unfolding increment Silent reveals
  increment-Silent false s h p q = still s h p q
  increment-Silent true s h p q = (refl, h, p, q)

  write_reply-Silent :
      (o : Option WebSocketRequest) (s : Session)
      → IsSecret t s.socket
      → Clean t s.pinging
      → s.replying ≡ o
      → Clean t o
      → Silent t (write_reply o s)
  unfolding write_reply Silent Clean reveals
  write_reply-Silent none s h p e q = (refl, h, p, rw e tt)
  write_reply-Silent (some r) s h p e q = (ground (arith, q), h, p, tt)

  keep_alive-Silent :
      (d : Bool) (o : Option WebSocketRequest) (s : Session)
      → IsSecret t s.socket
      → Clean t s.pinging
      → Clean t s.replying
      → Silent t (keep_alive d o s)
  unfolding keep_alive Silent Clean reveals carries
  keep_alive-Silent d (some r) s h p q = (refl, h, p, q)
  keep_alive-Silent false none s h p q = (refl, h, p, q)
  keep_alive-Silent true none s h p q = elim (Bool-cases s.alive) [
    | inl a ↦ rw a (refl, h, ground (arith, h), q)
    | inr a ↦ rw a (refl, h, p, q)
  ]

  write_ping-Silent :
      (o : Option WebSocketRequest) (s : Session)
      → IsSecret t s.socket
      → Clean t s.replying
      → s.pinging ≡ o
      → Clean t o
      → Silent t (write_ping o s)
  unfolding write_ping Silent Clean reveals
  write_ping-Silent none s h q e p = (refl, h, rw e tt, q)
  write_ping-Silent (some r) s h q e p = (ground (arith, p), h, tt, q)

  step-Silent :
      (e : Event) (s : Session)
      → NoAuth e
      → IsSecret t s.socket
      → Clean t s.pinging
      → Clean t s.replying
      → Silent t (step e s)
  unfolding step
  step-Silent (message m) s a h p q = receive-Silent m s.repeating s.replying s a h p q
  step-Silent incremented s a h p q = increment-Silent s.repeating s h p q
  step-Silent reply_written s a h p q = write_reply-Silent s.replying s h p refl q
  step-Silent (tick d) s a h p q = keep_alive-Silent d s.pinging s h p q
  step-Silent ping_written s a h p q = write_ping-Silent s.pinging s h q refl p

  reveals-append :
      (xs ys : List Output)
      → reveals t xs ≡ false
      → reveals t ys ≡ false
      → reveals t (xs ++ ys) ≡ false
  unfolding reveals
  reveals-append [] ys h k = k
  reveals-append (notify n ∷ xs) ys h k = reveals-append xs ys h k
  reveals-append (ping r ∷ xs) ys h k = ground (arith, h, reveals-append xs ys, k)
  reveals-append (reply r ∷ xs) ys h k = ground (arith, h, reveals-append xs ys, k)

  run-silent :
      (es : List Event) (s : Session)
      → NoneAuth es
      → IsSecret t s.socket
      → Clean t s.pinging
      → Clean t s.replying
      → reveals t (run es s).0 ≡ false
  unfolding run Silent reveals
  run-silent [] s a h p q = refl
  run-silent (e ∷ es) s a h p q =
      let (now, h', p', q') = step-Silent e s a.0 h p q in
      reveals-append (step e s).0 (run es (step e s).1).0 now
        (run-silent es (step e s).1 a.1 h' p' q')

asked :
    (r : WebsocketResponse) (s : Session)
    → s.repeating ≡ false
    → s.replying ≡ none
    → r.type ≡ "auth_required"
    → reveals s.token (run (message (some r) ∷ reply_written ∷ []) s).0 ≡ true
unfolding run step receive react on_message write_reply reveals carries
asked r s b q a = rw (b, q, a) (ground (arith, eq_refl s.token))

-- In any interleaving of keepAlive and OnMessage, from a session in which neither has anything to
-- write, and where the access token is none of the webhook id and the fixed texts that are sent:
-- while no message of type `auth_required` comes, no text of any request is the token; and the
-- answer to such a message holds it.
pub token_on_demand :
    (es : List Event) (s : Session) (r : WebsocketResponse)
    → s.pinging ≡ none
    → s.repeating ≡ false
    → s.replying ≡ none
    → IsSecret s.token s.socket
    → NoneAuth es
    → r.type ≡ "auth_required"
    → (reveals s.token (run es s).0 ≡ false)
      × (reveals s.token (run (message (some r) ∷ reply_written ∷ []) s).0 ≡ true)
unfolding Clean
token_on_demand es s r p b q h a k =
    (run-silent s.token es s a h (rw p tt) (rw q tt), asked r s b q k)

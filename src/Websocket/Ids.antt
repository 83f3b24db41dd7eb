-- ===== src/Websocket/Ids.antt =====
-- The ids of the requests on the connection: Home Assistant wants them to increase.
use native.Mathlib.Nat.{le_refl}
use go_hass_agent.Prelude.{
  ℕ, ◌+◌, ◌^◌, ◌≤◌, ◌<◌, ◌≡◌, refl, ◌⊎◌, inl, inr, Bool, true, false, Option, none, some, List, [],
  ◌∷◌, ◌++◌, arith, length, nat_eq, if◌then◌else◌, Bool-cases,
}
use go_hass_agent.Websocket.{
  WebSocketRequest, WebsocketResponse, Websocket, Output, notify, ping, reply, Event, message,
  incremented, reply_written, ping_written, tick, Reaction, quiet, increments, notifies, replies,
  Session, on_message, react, receive, increment, write_reply, keep_alive, write_ping, step, run,
  next,
}

pub ping_ids : List Output → List ℕ
ping_ids [] = []
ping_ids (notify n ∷ out) = ping_ids out
ping_ids (ping r ∷ out) = r.id ∷ ping_ids out
ping_ids (reply r ∷ out) = ping_ids out

-- The ids of the replies, in order; the auth message has none, which is 0.
numbered : ℕ → List ℕ → List ℕ
numbered n ids = if nat_eq n 0 then ids else n ∷ ids

pub reply_ids : List Output → List ℕ
unfolding numbered
reply_ids [] = []
reply_ids (notify n ∷ out) = reply_ids out
reply_ids (ping r ∷ out) = reply_ids out
reply_ids (reply r ∷ out) = numbered r.id (reply_ids out)

-- Each is in a relation to the one before, and the last meets a condition.
abbrev pub Chain : (ℕ → ℕ → Type 0) → (ℕ → Type 0) → ℕ → List ℕ → Type 0
Chain R End lo [] = End lo
Chain R End lo (x ∷ xs) = R lo x × Chain R End x xs

Chain-append :
    (R : ℕ → ℕ → Type 0) (End Last : ℕ → Type 0) (lo : ℕ) (xs ys : List ℕ)
    → Chain R End lo xs
    → ((n : ℕ) → End n → Chain R Last n ys)
    → Chain R Last lo (xs ++ ys)
Chain-append R End Last lo [] ys h k = k lo h
Chain-append R End Last lo (x ∷ xs) ys h k = (h.0, Chain-append R End Last x xs ys h.1 k)

ping_ids-append : (xs ys : List Output) → ping_ids (xs ++ ys) ≡ ping_ids xs ++ ping_ids ys
unfolding ping_ids
ping_ids-append [] ys = refl
ping_ids-append (notify n ∷ xs) ys = ping_ids-append xs ys
ping_ids-append (ping r ∷ xs) ys = rw (ping_ids-append xs ys) refl
ping_ids-append (reply r ∷ xs) ys = ping_ids-append xs ys

reply_ids-append : (xs ys : List Output) → reply_ids (xs ++ ys) ≡ reply_ids xs ++ reply_ids ys
unfolding reply_ids
reply_ids-append [] ys = refl
reply_ids-append (notify n ∷ xs) ys = reply_ids-append xs ys
reply_ids-append (ping r ∷ xs) ys = reply_ids-append xs ys
reply_ids-append (reply r ∷ xs) ys = ground (arith, reply_ids-append xs ys)

-- The ping that is about to be written is not below `lo`, and not above the next id.
Ahead : Option WebSocketRequest → ℕ → ℕ → Type 0
Ahead none n lo = lo ≤ n
Ahead (some r) n lo = lo ≤ r.id × r.id ≤ n

-- A reply that is about to be written has no id, or one above `lo` and not above the next id.
Above : Option WebSocketRequest → ℕ → ℕ → Type 0
Above none n lo = lo ≤ n
Above (some r) n lo = (r.id ≡ 0 × lo ≤ n) ⊎ (lo < r.id × r.id ≤ n)

next-counts : (c : Websocket) → c.next_id + 1 < 2 ^ 64 → (next c).next_id ≡ c.next_id + 1
unfolding next
next-counts c h = omega arith

-- What a message does to the next id, and the id of its reply.
Fits : Reaction → ℕ → ℕ → Type 0
Fits quiet n n' = Unit {0}
Fits increments n n' = Unit {0}
Fits (notifies x) n n' = Unit {0}
Fits (replies r) n n' = (r.id ≡ 0) ⊎ (n < r.id × r.id ≤ n')

on_message-counts :
    (m : Option WebsocketResponse) (c : Websocket)
    → c.next_id + 1 < 2 ^ 64
    → (c.next_id ≤ (on_message m c).1.next_id) × ((on_message m c).1.next_id ≤ c.next_id + 1)
unfolding on_message
on_message-counts none c h = (omega arith, omega arith)
on_message-counts (some r) c h = (omega arith, omega arith)

on_message-Fits :
    (m : Option WebsocketResponse) (c : Websocket)
    → c.next_id + 1 < 2 ^ 64
    → Fits (on_message m c).0 c.next_id (on_message m c).1.next_id
unfolding on_message Fits
on_message-Fits none c h = tt
on_message-Fits (some r) c h = ground arith

-- What a step keeps, with the bounds from which the ids that are still to come are counted.
Kept : Session → ℕ → ℕ → List Output × Session → Type 0
Kept s lo low (out, s') =
    Chain (λ x y. x ≤ y) (Ahead s'.pinging s'.next_id) lo (ping_ids out)
    × Chain (λ x y. x < y) (Above s'.replying s'.next_id) low (reply_ids out)
    × (s'.next_id ≤ s.next_id + 1)

Ahead-up : (o : Option WebSocketRequest) (n n' lo : ℕ) → n ≤ n' → Ahead o n lo → Ahead o n' lo
unfolding Ahead
Ahead-up none n n' lo le h = omega arith
Ahead-up (some r) n n' lo le h = (h.0, omega (arith, h.1))

Above-up : (o : Option WebSocketRequest) (n n' lo : ℕ) → n ≤ n' → Above o n lo → Above o n' lo
unfolding Above
Above-up none n n' lo le h = omega arith
Above-up (some r) n n' lo le h = ground (arith, h)

react-Kept :
    (x : Reaction) (s : Session) (c : Websocket) (lo low : ℕ)
    → s.replying ≡ none
    → s.next_id ≤ c.next_id
    → c.next_id ≤ s.next_id + 1
    → Fits x s.next_id c.next_id
    → Ahead s.pinging s.next_id lo
    → low ≤ s.next_id
    → Kept s lo low (react x (record s { socket = c }))
unfolding react Kept Fits ping_ids reply_ids Above
react-Kept quiet s c lo low e l u f p q =
    (Ahead-up s.pinging s.next_id c.next_id lo l p, rw e (omega arith), u)
react-Kept increments s c lo low e l u f p q =
    (Ahead-up s.pinging s.next_id c.next_id lo l p, rw e (omega arith), u)
react-Kept (notifies n) s c lo low e l u f p q =
    (Ahead-up s.pinging s.next_id c.next_id lo l p, rw e (omega arith), u)
react-Kept (replies r) s c lo low e l u f p q =
    (Ahead-up s.pinging s.next_id c.next_id lo l p, ground (arith, f), u)

still :
    (s : Session) (lo low : ℕ)
    → Ahead s.pinging s.next_id lo
    → Above s.replying s.next_id low
    → Kept s lo low ([], s)
unfolding Kept ping_ids reply_ids
still s lo low p q = (p, q, omega arith)

receive-Kept :
    (m : Option WebsocketResponse) (b : Bool) (o : Option WebSocketRequest) (s : Session)
    (lo low : ℕ)
    → s.replying ≡ o
    → s.next_id + 1 < 2 ^ 64
    → Ahead s.pinging s.next_id lo
    → Above o s.next_id low
    → Kept s lo low (receive m b o s)
unfolding receive Above
receive-Kept m true o s lo low e h p q = still s lo low p (rw e q)
receive-Kept m false (some r) s lo low e h p q = still s lo low p (rw e q)
receive-Kept m false none s lo low e h p q =
    let (l, u) = on_message-counts m s.socket h in
    react-Kept (on_message m s.socket).0 s (on_message m s.socket).1 lo low e l u
      (on_message-Fits m s.socket h) p q

increment-Kept :
    (b : Bool) (s : Session) (lo low : ℕ)
    → s.next_id + 1 < 2 ^ 64
    → Ahead s.pinging s.next_id lo
    → Above s.replying s.next_id low
    → Kept s lo low (increment b s)
unfolding increment Kept ping_ids reply_ids
increment-Kept false s lo low h p q = still s lo low p q
increment-Kept true s lo low h p q =
    let up : s.next_id ≤ (next s.socket).next_id = at_least s.socket h in
    (
      Ahead-up s.pinging s.next_id (next s.socket).next_id lo up p,
      Above-up s.replying s.next_id (next s.socket).next_id low up q,
      at_most s.socket h,
    )
  where
    at_least : (c : Websocket) → c.next_id + 1 < 2 ^ 64 → c.next_id ≤ (next c).next_id
    at_least c h = omega (arith, next-counts c h)

    at_most : (c : Websocket) → c.next_id + 1 < 2 ^ 64 → (next c).next_id ≤ c.next_id + 1
    at_most c h = omega (arith, next-counts c h)

write_reply-Kept :
    (o : Option WebSocketRequest) (s : Session) (lo low : ℕ)
    → s.replying ≡ o
    → Ahead s.pinging s.next_id lo
    → Above o s.next_id low
    → Kept s lo low (write_reply o s)
unfolding write_reply Kept Above ping_ids reply_ids numbered
write_reply-Kept none s lo low e p q = still s lo low p (rw e q)
write_reply-Kept (some r) s lo low e p q = (
  p,
  elim (Bool-cases (nat_eq r.id 0)) [
    | inl z ↦ rw z (ground (arith, q, z))
    | inr z ↦ rw z (ground (arith, q, z), ground (arith, q, z))
  ],
  omega arith,
)

keep_alive-Kept :
    (d : Bool) (o : Option WebSocketRequest) (s : Session) (lo low : ℕ)
    → s.pinging ≡ o
    → Ahead o s.next_id lo
    → Above s.replying s.next_id low
    → Kept s lo low (keep_alive d o s)
unfolding keep_alive Kept Ahead ping_ids reply_ids
keep_alive-Kept d (some r) s lo low e p q = still s lo low (rw e p) q
keep_alive-Kept false none s lo low e p q = still s lo low (rw e p) q
keep_alive-Kept true none s lo low e p q = elim (Bool-cases s.alive) [
  | inl a ↦ rw a ((p, omega arith), q, omega arith)
  | inr a ↦ rw a (still s lo low (rw e p) q)
]

write_ping-Kept :
    (o : Option WebSocketRequest) (s : Session) (lo low : ℕ)
    → s.pinging ≡ o
    → Ahead o s.next_id lo
    → Above s.replying s.next_id low
    → Kept s lo low (write_ping o s)
unfolding write_ping Kept Ahead ping_ids reply_ids
write_ping-Kept none s lo low e p q = still s lo low (rw e p) q
write_ping-Kept (some r) s lo low e p q = ((p.0, p.1), q, omega arith)

step-Kept :
    (e : Event) (s : Session) (lo low : ℕ)
    → s.next_id + 1 < 2 ^ 64
    → Ahead s.pinging s.next_id lo
    → Above s.replying s.next_id low
    → Kept s lo low (step e s)
unfolding step
step-Kept (message m) s lo low h p q = receive-Kept m s.repeating s.replying s lo low refl h p q
step-Kept incremented s lo low h p q = increment-Kept s.repeating s lo low h p q
step-Kept reply_written s lo low h p q = write_reply-Kept s.replying s lo low refl p q
step-Kept (tick d) s lo low h p q = keep_alive-Kept d s.pinging s lo low refl p q
step-Kept ping_written s lo low h p q = write_ping-Kept s.pinging s lo low refl p q

Chain-end :
    (R : ℕ → ℕ → Type 0) (End : ℕ → Type 0) (lo : ℕ) (xs : List ℕ)
    → Chain R End lo xs
    → (n : ℕ) × End n
Chain-end R End lo [] h = (lo, h)
Chain-end R End lo (x ∷ xs) h = Chain-end R End x xs h.1

Ahead-le : (o : Option WebSocketRequest) (n lo : ℕ) → Ahead o n lo → lo ≤ n
unfolding Ahead
Ahead-le none n lo h = h
Ahead-le (some r) n lo h = omega (arith, h.0, h.1)

Above-le : (o : Option WebSocketRequest) (n lo : ℕ) → Above o n lo → lo ≤ n
unfolding Above
Above-le none n lo h = h
Above-le (some r) n lo h = ground (arith, h)

-- The ids of the pings never fall, those of the replies strictly rise, from two bounds and up to
-- a third.
abbrev pub IdsRise : ℕ → ℕ → List Output → ℕ → Type 0
IdsRise lo low out hi =
    Chain (λ x y. x ≤ y) (λ n. n ≤ hi) lo (ping_ids out)
    × Chain (λ x y. x < y) (λ n. n ≤ hi) low (reply_ids out)

none_sent :
    (s : Session) (lo low : ℕ)
    → Ahead s.pinging s.next_id lo
    → Above s.replying s.next_id low
    → IdsRise lo low [] s.next_id
unfolding ping_ids reply_ids
none_sent s lo low p q = (Ahead-le s.pinging s.next_id lo p, Above-le s.replying s.next_id low q)

run-IdsRise :
    (es : List Event) (s : Session) (lo low : ℕ)
    → s.next_id + length es < 2 ^ 64
    → Ahead s.pinging s.next_id lo
    → Above s.replying s.next_id low
    → IdsRise lo low (run es s).0 (run es s).1.next_id
unfolding run Kept
run-IdsRise [] s lo low h p q = none_sent s lo low p q
run-IdsRise (e ∷ es) s lo low h p q =
    let (out, s') = step e s in
    let outs = (run es s').0 in
    let hi = (run es s').1.next_id in
    let (pings, answers, up) = step-Kept e s lo low (omega arith) p q in
    let later : (n m : ℕ)
        → Ahead s'.pinging s'.next_id n
        → Above s'.replying s'.next_id m
        → IdsRise n m outs hi =
      λ n m a b. run-IdsRise es s' n m (omega (arith, up, h)) a b in
    let some_ping = Chain-end _ _ lo (ping_ids out) pings in
    let some_reply = Chain-end _ _ low (reply_ids out) answers in
    rw (ping_ids-append out outs, reply_ids-append out outs)
      (
        Chain-append _ _ _ lo (ping_ids out) (ping_ids outs) pings
            (λ n a. (later n some_reply.0 a some_reply.1).0),
        Chain-append _ _ _ low (reply_ids out) (reply_ids outs) answers
            (λ m b. (later some_ping.0 m some_ping.1 b).1),
      )

-- In any interleaving of keepAlive and OnMessage that is too short for the counter to wrap, from a
-- session in which neither has anything to write: the ids of the pings never fall, the ids of the
-- replies that have one strictly rise, and none is above the next id that the websocket would use.
pub run-Rises :
    (es : List Event) (s : Session)
    → s.pinging ≡ none
    → s.replying ≡ none
    → s.next_id + length es < 2 ^ 64
    → IdsRise s.next_id s.next_id (run es s).0 (run es s).1.next_id
unfolding Ahead Above
run-Rises es s p q h =
    run-IdsRise es s s.next_id s.next_id h (rw p (le_refl s.next_id)) (rw q (le_refl s.next_id))

-- While the keep-alive runs, two ticks with no message between them send two pings with the same
-- id: the pings themselves do not advance the counter. Home Assistant answers the second with
-- `id_reuse`.
pub pings_reuse_id :
    (s : Session)
    → s.alive ≡ true
    → s.pinging ≡ none
    → let (out, s') = run (tick true ∷ ping_written ∷ tick true ∷ ping_written ∷ []) s in
      (ping_ids out ≡ s.next_id ∷ s.next_id ∷ []) × (s'.next_id ≡ s.next_id)
unfolding run step keep_alive write_ping ping_ids
pings_reuse_id s h k = rw (k, h) (refl, refl)

-- The two goroutines write in whichever order they come to it: a ping that took its id before a
-- message can be written after the reply to that message, which has a greater id.
pub ping_overtaken :
    (r : WebsocketResponse) (s : Session)
    → s.alive ≡ true
    → s.pinging ≡ none
    → s.repeating ≡ false
    → s.replying ≡ none
    → r.type ≡ "auth_ok"
    → s.next_id + 1 < 2 ^ 64
    → let out = (run (tick true ∷ message (some r) ∷ reply_written ∷ ping_written ∷ []) s).0 in
      (reply_ids out ≡ (s.next_id + 1) ∷ []) × (ping_ids out ≡ s.next_id ∷ [])
unfolding run step keep_alive receive react on_message write_reply write_ping ping_ids reply_ids
    numbered
ping_overtaken r s a p b q t h = rw (p, b, q, a, t) (ground arith)

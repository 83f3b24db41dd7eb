-- ===== src/Dbusx/Delivery.antt =====
-- What a watch delivers, and how it ends.
use mathlib.Core.List.{append_assoc, append-nil}
use go_hass_agent.Prelude.{
  ◌⊎◌, true, false, Option, none, some, List, [], ◌∷◌, ◌++◌, ◌≡◌, refl, ap, sym, ◌∙◌, subst, ◌==◌,
  Bool-cases, inl, inr, eq_iff, arith,
}
use text.Mathlib.Text.{starts_with}
use go_hass_agent.Dbusx.Watch.{
  Watch, Trigger, accepts, Forwarder, held, started, Step, receive, deliver, cancel, close, remove,
  send_on_closed, Reach, here, next,
}

abbrev pub pending : {V : Type 0} → Option (Trigger V) → List (Trigger V)
pending none = []
pending (some t) = t ∷ []

-- The signals that the watch accepts, in the order in which they came.
unfoldable pub accepted : {V : Type 0} → Watch → List (Option (Trigger V)) → List (Trigger V)
unfolding held
accepted w [] = []
accepted w (s ∷ rest) = pending (held w s) ++ accepted w rest

accepted-append :
    {V : Type 0} (w : Watch) (xs ys : List (Option (Trigger V)))
    → accepted w (xs ++ ys) ≡ accepted w xs ++ accepted w ys
unfolding accepted
accepted-append w [] ys = refl
accepted-append w (x ∷ xs) ys = simp (accepted-append w xs ys, append_assoc)

held_step :
    {V : Type 0} (w : Watch) (s : Forwarder V) (signal : Option (Trigger V))
    → s.holding ≡ none
    → accepted w s.received ≡ s.delivered ++ pending s.holding
    → accepted w (s.received ++ signal ∷ []) ≡ s.delivered ++ pending (held w signal)
unfolding accepted
held_step w s signal e h =
    accepted-append w s.received (signal ∷ [])
    ∙ ap (λ xs. xs ++ (pending (held w signal) ++ [])) (h ∙ ap (λ o. s.delivered ++ pending o) e)
    ∙ simp (append-nil)

delivered_step :
    {V : Type 0} (w : Watch) (s : Forwarder V) (t : Trigger V)
    → s.holding ≡ some t
    → accepted w s.received ≡ s.delivered ++ pending s.holding
    → accepted w s.received ≡ (s.delivered ++ t ∷ []) ++ []
delivered_step w s t e h =
    h ∙ ap (λ o. s.delivered ++ pending o) e ∙ sym (append-nil (s.delivered ++ t ∷ []))

Step-delivers :
    {V : Type 0} {w : Watch} {s t : Forwarder V}
    → Step w s t
    → (s.panicked ≡ false → accepted w s.received ≡ s.delivered ++ pending s.holding)
    → t.panicked ≡ false
    → accepted w t.received ≡ t.delivered ++ pending t.holding
Step-delivers {w = w} (receive s signal e r p) h n = held_step w s signal e (h n)
Step-delivers {w = w} (deliver s t e c) h n = delivered_step w s t e (h n)
Step-delivers (cancel s) h n = h n
Step-delivers (close s e c) h n = h n
Step-delivers (remove s c) h n = h n
Step-delivers (send_on_closed s t e c) h n = cc

-- A signal from the path of the watch, and from a path that starts with the text of its namespace,
-- where the watch has these.
abbrev pub IsMatch : {V : Type 0} → Watch → Trigger V → Type 0
IsMatch w t =
    (w.path ≡ "" ⊎ t.path ≡ w.path)
    × (w.path_namespace ≡ "" ⊎ starts_with t.path w.path_namespace ≡ true)

abbrev pub AllMatch : {V : Type 0} → Watch → List (Trigger V) → Type 0
AllMatch w [] = Unit {0}
AllMatch w (t ∷ ts) = IsMatch w t × AllMatch w ts

accepts-IsMatch : {V : Type 0} (w : Watch) (t : Trigger V) → accepts w t ≡ true → IsMatch w t
unfolding accepts
accepts-IsMatch w t h = (
  elim (Bool-cases (w.path == "")) [
    | inl e ↦ inl ((eq_iff w.path "").0 e)
    | inr e ↦ inr (ground (arith, e, h, eq_iff t.path w.path))
  ],
  elim (Bool-cases (w.path_namespace == "")) [
    | inl e ↦ inl ((eq_iff w.path_namespace "").0 e)
    | inr e ↦ inr (ground (arith, e, h))
  ],
)

accepted-AllMatch :
    {V : Type 0} (w : Watch) (signals : List (Option (Trigger V))) → AllMatch w (accepted w signals)
unfolding accepted
accepted-AllMatch w [] = tt
accepted-AllMatch w (none ∷ rest) = accepted-AllMatch w rest
accepted-AllMatch w (some t ∷ rest) = elim (Bool-cases (accepts w t)) [
  | inl e ↦ rw e (accepts-IsMatch w t e, accepted-AllMatch w rest)
  | inr e ↦ rw e (accepted-AllMatch w rest)
]

AllMatch-append_left :
    {V : Type 0} (w : Watch) (xs ys : List (Trigger V)) → AllMatch w (xs ++ ys) → AllMatch w xs
AllMatch-append_left w [] ys h = tt
AllMatch-append_left w (x ∷ xs) ys h = (h.0, AllMatch-append_left w xs ys h.1)

delivers :
    {V : Type 0} (w : Watch) (s : Forwarder V)
    → Reach w s
    → s.panicked ≡ false
    → accepted w s.received ≡ s.delivered ++ pending s.holding
unfolding accepted
delivers w s here n = refl
delivers w s (next {s = r} reach step) n = Step-delivers step (delivers w r reach) n

-- Over any interleaving of its goroutines, as long as it has not panicked, a watch has delivered
-- the signals that pass its tests, each once and in the order in which they came, and at most the
-- last of them still waits for the client. Every signal delivered comes from the path of the watch,
-- and from a path that starts with the text of its namespace, where it has these.
pub watch_delivers_in_order :
    {V : Type 0} (w : Watch) (s : Forwarder V)
    → Reach w s
    → s.panicked ≡ false
    → (accepted w s.received ≡ s.delivered ++ pending s.holding) × AllMatch w s.delivered
watch_delivers_in_order w s reach n =
    let all = delivers w s reach n in
    (
      all,
      AllMatch-append_left w s.delivered (pending s.holding)
          (subst (AllMatch w) all (accepted-AllMatch w s.received)),
    )

-- Any signal that a watch accepts can end the program: if the context is cancelled while the
-- signal waits for the client, the other goroutine closes the channel, and the send panics.
pub watch_can_panic :
    {V : Type 0} (w : Watch) (t : Trigger V)
    → accepts w t ≡ true
    → (s : Forwarder V) × Reach w s × (s.panicked ≡ true)
unfolding held
watch_can_panic {V} w t h = (
  _,
  next
      (next (next (next here (receive started (some t) refl refl refl)) (cancel _))
        (close _ refl refl))
      (send_on_closed _ t (rw h) refl),
  refl,
)

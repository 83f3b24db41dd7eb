-- ===== src/Linux/Power/Unseen.antt =====
-- What the loop of the power state makes of the events of logind.
use go_hass_agent.Prelude.{
  String, Bool, true, false, Option, List, [], ◌∷◌, ◌==◌, ◌≡◌, refl, subst, Bool-cases, inl, inr,
  eq_iff,
}
use go_hass_agent.Prelude.Text.{contains}
use go_hass_agent.Dbusx.Values.{Any}
use go_hass_agent.Dbusx.Watch.{Trigger}
use go_hass_agent.Linux.Power.Session.{state_event, state_events}

-- The names of the signals are those of an interface and a member, with dots.
abbrev pub AllDotted : {V : Type 0} → List (Trigger V) → Type 0
AllDotted [] = Unit {0}
AllDotted (event ∷ events) = (contains event.signal "." ≡ true) × AllDotted events

undotted : (s t : String) → contains s "." ≡ true → contains t "." ≡ false → (s == t) ≡ false
undotted s t h k = elim (Bool-cases (s == t)) [
  | inl e ↦ absurd (both (subst (λ u. contains u "." ≡ true) ((eq_iff s t).0 e) h) k)
  | inr e ↦ e
]
  where
    both : {b : Bool} → b ≡ true → b ≡ false → ⊥
    both p q = cc

-- The power state is never reported again after the start: the signals of logind come under full
-- names, as org.freedesktop.login1.Manager.PrepareForSleep, and the loop compares them with the
-- bare member, so that no signal with a dot in its name makes a sensor.
pub power_states_unseen :
    {V : Type 0} (as_bool : Any V → Option Bool) (events : List (Trigger V))
    → AllDotted events
    → state_events as_bool events ≡ []
unfolding state_events state_event contains
power_states_unseen as_bool [] h = refl
power_states_unseen as_bool (event ∷ events) h =
    rw
      (
        undotted event.signal "PrepareForSleep" h.0 refl,
        undotted event.signal "PrepareForShutdown" h.0 refl,
      )
      (power_states_unseen as_bool events h.1)

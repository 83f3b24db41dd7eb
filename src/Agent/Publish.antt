-- ===== src/Agent/Publish.antt =====
-- internal/agent/mqtt_controller.go: the loop of `runMQTTWorkers`, which merges the channels of the
-- controllers anew for every message, as a step relation. The client of MQTT is left out.
pub mod Lost
use go_hass_agent.Prelude.{
  ℕ, ◌+◌, ◌≤◌, Option, none, some, List, [], ◌∷◌, ◌++◌, map, length, ◌≡◌, refl, sym, ap, ◌∙◌, subst,
  arith,
}

-- A channel of messages: those that it still gives, what the goroutine of the merge in use waits to
-- send, and what the goroutines of the earlier merges wait to send.
pub record Source {ℓ} (A : Type ℓ) : Type ℓ where
  pub left : List A
  pub held : Option A
  pub stale : List (Option A)

pub record Publishing {ℓ} (A : Type ℓ) : Type ℓ where
  pub sources : List (Source A)
  pub published : List A

-- The loop asks for the next message: the goroutines of the merge in use become stale.
unfoldable pub merged_anew {ℓ} : {A : Type ℓ} → Source A → Source A
merged_anew c = record c { held = none; stale = c.held ∷ c.stale }

unfoldable pub run_mqtt_workers {ℓ} : {A : Type ℓ} → List (List A) → Publishing A
run_mqtt_workers channels = record {
  sources = map (λ xs. record { left = xs; held = none; stale = [] }) channels;
  published = [];
}

pub data Step {ℓ} {A : Type ℓ} : Publishing A → Publishing A → Type ℓ where
  take :
      (s : Publishing A) (before after : List (Source A)) (c : Source A) (a : A) (rest : List A)
      → s.sources ≡ before ++ c ∷ after
      → c.left ≡ a ∷ rest
      → c.held ≡ none
      → Step s (record s { sources = before ++ (record c { left = rest; held = some a }) ∷ after })
  -- A goroutine of an earlier merge, which still ranges over the channel.
  take_stale :
      (s : Publishing A) (before after : List (Source A)) (c : Source A) (a : A) (rest : List A)
      (newer older : List (Option A))
      → s.sources ≡ before ++ c ∷ after
      → c.left ≡ a ∷ rest
      → c.stale ≡ newer ++ none ∷ older
      → Step s (record s {
        sources = before ++ (record c { left = rest; stale = newer ++ some a ∷ older }) ∷ after;
      })
  publish :
      (s : Publishing A) (before after : List (Source A)) (c : Source A) (a : A)
      → s.sources ≡ before ++ c ∷ after
      → c.held ≡ some a
      → Step s (record {
        sources = map merged_anew (before ++ (record c { held = none }) ∷ after);
        published = s.published ++ a ∷ [];
      })

pub data Reach {ℓ} {A : Type ℓ} (s : Publishing A) : Publishing A → Type ℓ where
  here : Reach s s
  next : {t u : Publishing A} → Reach s t → Step t u → Reach s u

-- How many messages the stale goroutines hold, and how many there are in all.
unfoldable pub held_count {ℓ} : {A : Type ℓ} → Option A → ℕ
held_count none = 0
held_count (some a) = 1

unfoldable pub stale_count {ℓ} : {A : Type ℓ} → List (Option A) → ℕ
unfolding held_count
stale_count [] = 0
stale_count (o ∷ os) = held_count o + stale_count os

unfoldable pub lost {ℓ} : {A : Type ℓ} → List (Source A) → ℕ
unfolding stale_count
lost [] = 0
lost (c ∷ cs) = stale_count c.stale + lost cs

unfoldable pub open_count {ℓ} : {A : Type ℓ} → List (Source A) → ℕ
unfolding held_count
open_count [] = 0
open_count (c ∷ cs) = (length c.left + held_count c.held) + open_count cs

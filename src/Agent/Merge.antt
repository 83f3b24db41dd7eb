-- ===== src/Agent/Merge.antt =====
-- internal/agent/util.go: `mergeCh`, with a goroutine for each channel and one that closes what is
-- merged, as a step relation. A channel is what comes out of it, and whether it is closed in the end;
-- nil is a channel without values that is closed.
pub mod Lanes
pub mod Fair
use go_hass_agent.Prelude.{Bool, true, false, Option, none, some, List, [], ◌∷◌, ◌++◌, map, ◌≡◌}

pub record Channel {ℓ} (A : Type ℓ) : Type ℓ where
  pub contents : List A
  pub closes : Bool

-- One goroutine: what its channel still gives, the value that it waits to send, and whether it is
-- done. `sent` records what it has sent.
pub record Lane {ℓ} (A : Type ℓ) : Type ℓ where
  pub channel : Channel A
  pub left : List A
  pub holding : Option A
  pub sent : List A
  pub is_done : Bool

unfoldable pub lane_of {ℓ} : {A : Type ℓ} → Channel A → Lane A
lane_of c = record { channel = c; left = c.contents; holding = none; sent = []; is_done = false }

-- What one goroutine does, where the context is cancelled or not, and what it sends.
pub data LaneStep {ℓ} {A : Type ℓ} (cancelled : Bool) : Lane A → Lane A → List A → Type ℓ where
  take :
      (l : Lane A) (a : A) (rest : List A)
      → l.left ≡ a ∷ rest
      → l.holding ≡ none
      → l.is_done ≡ false
      → LaneStep cancelled l (record l { left = rest; holding = some a }) []
  send :
      (l : Lane A) (a : A)
      → l.holding ≡ some a
      → l.is_done ≡ false
      → LaneStep cancelled l (record l { holding = none; sent = l.sent ++ a ∷ [] }) (a ∷ [])
  -- The other case of the select: what it holds is lost.
  give_up :
      (l : Lane A) (a : A)
      → l.holding ≡ some a
      → l.is_done ≡ false
      → cancelled ≡ true
      → LaneStep cancelled l (record l { holding = none; is_done = true }) []
  finish :
      (l : Lane A)
      → l.left ≡ []
      → l.holding ≡ none
      → l.is_done ≡ false
      → l.channel.closes ≡ true
      → LaneStep cancelled l (record l { is_done = true }) []

pub record Merging {ℓ} (A : Type ℓ) : Type ℓ where
  pub lanes : List (Lane A)
  pub cancelled : Bool
  pub out : List A
  pub out_closed : Bool

unfoldable pub merge_ch {ℓ} : {A : Type ℓ} → List (Channel A) → Merging A
unfolding lane_of
merge_ch channels = record {
  lanes = map lane_of channels;
  cancelled = false;
  out = [];
  out_closed = false;
}

abbrev pub AllDone {ℓ} : {A : Type ℓ} → List (Lane A) → Type 0
AllDone [] = Unit {0}
AllDone (l ∷ ls) = (l.is_done ≡ true) × AllDone ls

pub data Step {ℓ} {A : Type ℓ} : Merging A → Merging A → Type ℓ where
  lane :
      (s : Merging A) (l l' : Lane A) (before after : List (Lane A)) (sent : List A)
      → s.lanes ≡ before ++ l ∷ after
      → LaneStep s.cancelled l l' sent
      → Step s (record s { lanes = before ++ l' ∷ after; out = s.out ++ sent })
  cancel : (s : Merging A) → Step s (record s { cancelled = true })
  -- wg.Wait() and close(outCh)
  close : (s : Merging A) → AllDone s.lanes → Step s (record s { out_closed = true })

pub data Reach {ℓ} {A : Type ℓ} (channels : List (Channel A)) : Merging A → Type ℓ where
  here : Reach channels (merge_ch channels)
  next : {s t : Merging A} → Reach channels s → Step s t → Reach channels t

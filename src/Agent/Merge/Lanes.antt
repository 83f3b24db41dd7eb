-- ===== src/Agent/Merge/Lanes.antt =====
-- What one goroutine of a merge does to the whole.
use mathlib.Core.List.{append_assoc, append-nil}
use go_hass_agent.Prelude.{
  Bool, true, false, Option, none, some, List, [], ◌∷◌, ◌++◌, ◌≡◌, refl, ap, sym, ◌∙◌, subst, ◌⊎◌,
  inl, inr,
}
use go_hass_agent.Agent.Merge.{Lane, LaneStep, take, send, give_up, finish, AllDone}

abbrev pub AllEmpty {ℓ} : {A : Type ℓ} → List (List A) → Type ℓ
AllEmpty [] = Unit
AllEmpty (xs ∷ lists) = (xs ≡ []) × AllEmpty lists

-- The lists, interleaved: each keeps its order, and nothing is added or left out.
pub data Merges {ℓ} {A : Type ℓ} : List (List A) → List A → Type ℓ where
  start : (lists : List (List A)) → AllEmpty lists → Merges lists []
  also :
      (before after : List (List A)) (xs out : List A) (a : A)
      → Merges (before ++ xs ∷ after) out
      → Merges (before ++ (xs ++ a ∷ []) ∷ after) (out ++ a ∷ [])

abbrev pub waiting {ℓ} : {A : Type ℓ} → Option A → List A
waiting none = []
waiting (some a) = a ∷ []

-- A goroutine has lost nothing, and has ended only with all sent, or the context is cancelled and it
-- has given up.
abbrev pub IsValid {ℓ} : {A : Type ℓ} → Bool → Lane A → Type ℓ
IsValid {A = A} cancelled l =
    ((l.channel.contents ≡ l.sent ++ (waiting l.holding ++ l.left))
      × (l.is_done ≡ false ⊎ waiting l.holding ++ l.left ≡ []))
    ⊎ ((cancelled ≡ true)
        × (l.is_done ≡ true)
        × ((rest : List A) × (l.channel.contents ≡ l.sent ++ rest)))

pub differ : {b : Bool} → b ≡ false → b ≡ true → ⊥
differ e f = cc

pub LaneStep-IsValid {ℓ} :
    {A : Type ℓ} {cancelled : Bool} {l l' : Lane A} {sent : List A}
    → LaneStep cancelled l l' sent
    → IsValid cancelled l
    → IsValid cancelled l'
LaneStep-IsValid (take l a rest e h d) (inl (whole, rested)) =
    inl (whole ∙ ap (λ o. l.sent ++ (waiting o ++ l.left)) h ∙ ap (λ r. l.sent ++ r) e, inl d)
LaneStep-IsValid (take l a rest e h d) (inr (c, done, more)) = absurd (differ d done)
LaneStep-IsValid (send l a h d) (inl (whole, rested)) = inl (
  whole ∙ ap (λ o. l.sent ++ (waiting o ++ l.left)) h ∙ sym (append_assoc l.sent (a ∷ []) l.left),
  inl d,
)
LaneStep-IsValid (send l a h d) (inr (c, done, more)) = absurd (differ d done)
LaneStep-IsValid (give_up l a h d c) (inl (whole, rested)) =
    inr (c, refl, (waiting l.holding ++ l.left, whole))
LaneStep-IsValid (give_up l a h d c) (inr (c', done, more)) = absurd (differ d done)
LaneStep-IsValid (finish l e h d c) (inl (whole, rested)) =
    inl (whole, inr (ap (λ o. waiting o ++ l.left) h ∙ e))
LaneStep-IsValid (finish l e h d c) (inr (c', done, more)) = absurd (differ d done)

-- The goroutines together, and what they sent.
abbrev pub AllValid {ℓ} : {A : Type ℓ} → Bool → List (Lane A) → Type ℓ
AllValid cancelled [] = Unit
AllValid cancelled (l ∷ ls) = IsValid cancelled l × AllValid cancelled ls

pub AllValid-member {ℓ} :
    {A : Type ℓ} (c : Bool) (before : List (Lane A)) (l : Lane A) (after : List (Lane A))
    → AllValid c (before ++ l ∷ after)
    → IsValid c l
AllValid-member c [] l after h = h.0
AllValid-member c (b ∷ before) l after h = AllValid-member c before l after h.1

pub AllValid-replace {ℓ} :
    {A : Type ℓ} (c : Bool) (before : List (Lane A)) (l l' : Lane A) (after : List (Lane A))
    → IsValid c l'
    → AllValid c (before ++ l ∷ after)
    → AllValid c (before ++ l' ∷ after)
AllValid-replace c [] l l' after v h = (v, h.1)
AllValid-replace c (b ∷ before) l l' after v h = (h.0, AllValid-replace c before l l' after v h.1)

pub AllValid-cancelled {ℓ} :
    {A : Type ℓ} (c : Bool) (ls : List (Lane A)) → AllValid c ls → AllValid true ls
AllValid-cancelled c [] h = tt
AllValid-cancelled c (l ∷ ls) (inl v, rest) = (inl v, AllValid-cancelled c ls rest)
AllValid-cancelled c (l ∷ ls) (inr (e, d, v), rest) =
    (inr (refl, d, v), AllValid-cancelled c ls rest)

pub AllDone-member {ℓ} :
    {A : Type ℓ} (before : List (Lane A)) (l : Lane A) (after : List (Lane A))
    → AllDone (before ++ l ∷ after)
    → l.is_done ≡ true
AllDone-member [] l after h = h.0
AllDone-member (b ∷ before) l after h = AllDone-member before l after h.1

pub LaneStep-open {ℓ} :
    {A : Type ℓ} {c : Bool} {l l' : Lane A} {sent : List A}
    → LaneStep c l l' sent
    → l.is_done ≡ false
LaneStep-open (take l a rest e h d) = d
LaneStep-open (send l a h d) = d
LaneStep-open (give_up l a h d c) = d
LaneStep-open (finish l e h d c) = d

pub LaneStep-channel {ℓ} :
    {A : Type ℓ} {c : Bool} {l l' : Lane A} {sent : List A}
    → LaneStep c l l' sent
    → l'.channel ≡ l.channel
LaneStep-channel (take l a rest e h d) = refl
LaneStep-channel (send l a h d) = refl
LaneStep-channel (give_up l a h d c) = refl
LaneStep-channel (finish l e h d c) = refl

pub LaneStep-Merges {ℓ} :
    {A : Type ℓ} {c : Bool} {l l' : Lane A} {sent : List A} (before after : List (List A))
    (out : List A)
    → LaneStep c l l' sent
    → Merges (before ++ l.sent ∷ after) out
    → Merges (before ++ l'.sent ∷ after) (out ++ sent)
LaneStep-Merges before after out (take l a rest e h d) m =
    subst (Merges (before ++ l.sent ∷ after)) (sym (append-nil out)) m
LaneStep-Merges before after out (send l a h d) m = also before after l.sent out a m
LaneStep-Merges before after out (give_up l a h d c) m =
    subst (Merges (before ++ l.sent ∷ after)) (sym (append-nil out)) m
LaneStep-Merges before after out (finish l e h d c) m =
    subst (Merges (before ++ l.sent ∷ after)) (sym (append-nil out)) m

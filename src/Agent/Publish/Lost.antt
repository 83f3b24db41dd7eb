-- ===== src/Agent/Publish/Lost.antt =====
-- What becomes of the messages that the goroutines of earlier merges take.
use go_hass_agent.Prelude.{
  ℕ, ◌+◌, ◌≤◌, Bool, if◌then◌else◌, Option, none, some, List, [], ◌∷◌, ◌++◌, map, ◌≡◌, refl, ap,
  ◌∙◌, arith,
}
use go_hass_agent.Agent.Publish.{
  Source, Publishing, merged_anew, run_mqtt_workers, Step, take, take_stale, publish, Reach, here,
  next, held_count, stale_count, lost, open_count,
}

module _ {ℓ} {A : Type ℓ} (p : A → Bool) where
  unfoldable pub one : A → ℕ
  one a = if p a then 1 else 0

  -- How many messages of a list pass a test.
  unfoldable pub count : List A → ℕ
  unfolding one
  count [] = 0
  count (a ∷ xs) = one a + count xs

  count-append : (xs ys : List A) → count (xs ++ ys) ≡ count xs + count ys
  unfolding count
  count-append [] ys = omega arith
  count-append (x ∷ xs) ys = omega (arith, count-append xs ys)

  unfoldable pub held_of : Option A → ℕ
  unfolding one
  held_of none = 0
  held_of (some a) = one a

  unfoldable pub stale_of : List (Option A) → ℕ
  unfolding held_of
  stale_of [] = 0
  stale_of (o ∷ os) = held_of o + stale_of os

  -- Those that goroutines of earlier merges hold.
  unfoldable pub lost_of : List (Source A) → ℕ
  unfolding stale_of
  lost_of [] = 0
  lost_of (c ∷ cs) = stale_of c.stale + lost_of cs

  -- Those that wait in a controller's channel, or that the merge in use holds.
  unfoldable pub open_of : List (Source A) → ℕ
  unfolding held_of count
  open_of [] = 0
  open_of (c ∷ cs) = (count c.left + held_of c.held) + open_of cs

stale_of-append {ℓ} :
    {A : Type ℓ} (p : A → Bool) (xs ys : List (Option A))
    → stale_of p (xs ++ ys) ≡ stale_of p xs + stale_of p ys
unfolding stale_of
stale_of-append p [] ys = omega arith
stale_of-append p (x ∷ xs) ys = omega (arith, stale_of-append p xs ys)

lost_of-append {ℓ} :
    {A : Type ℓ} (p : A → Bool) (xs ys : List (Source A))
    → lost_of p (xs ++ ys) ≡ lost_of p xs + lost_of p ys
unfolding lost_of
lost_of-append p [] ys = omega arith
lost_of-append p (x ∷ xs) ys = omega (arith, lost_of-append p xs ys)

open_of-append {ℓ} :
    {A : Type ℓ} (p : A → Bool) (xs ys : List (Source A))
    → open_of p (xs ++ ys) ≡ open_of p xs + open_of p ys
unfolding open_of
open_of-append p [] ys = omega arith
open_of-append p (x ∷ xs) ys = omega (arith, open_of-append p xs ys)

lost_of-merged_anew {ℓ} :
    {A : Type ℓ} (p : A → Bool) (cs : List (Source A))
    → (lost_of p cs ≤ lost_of p (map merged_anew cs))
      × (lost_of p (map merged_anew cs) + open_of p (map merged_anew cs)
          ≡ lost_of p cs + open_of p cs)
unfolding lost_of open_of merged_anew stale_of held_of
lost_of-merged_anew p [] = (omega arith, refl)
lost_of-merged_anew p (c ∷ cs) =
    let ih = lost_of-merged_anew p cs in (omega (arith, ih.0), omega (arith, ih.1))

-- The counts of a list with one source in it.
lost_of-at {ℓ} :
    {A : Type ℓ} (p : A → Bool) (before : List (Source A)) (c : Source A) (after : List (Source A))
    → lost_of p (before ++ c ∷ after) ≡ lost_of p before + (stale_of p c.stale + lost_of p after)
unfolding lost_of stale_of
lost_of-at p before c after = lost_of-append p before (c ∷ after)

open_of-at {ℓ} :
    {A : Type ℓ} (p : A → Bool) (before : List (Source A)) (c : Source A) (after : List (Source A))
    → open_of p (before ++ c ∷ after)
      ≡ open_of p before + ((count p c.left + held_of p c.held) + open_of p after)
unfolding open_of held_of
open_of-at p before c after = open_of-append p before (c ∷ after)

Step-counts {ℓ} :
    {A : Type ℓ} (p : A → Bool) {s t : Publishing A}
    → Step s t
    → (lost_of p s.sources ≤ lost_of p t.sources)
      × (count p t.published + (lost_of p t.sources + open_of p t.sources)
          ≡ count p s.published + (lost_of p s.sources + open_of p s.sources))
unfolding held_of stale_of count
Step-counts p (take s before after c a rest e l h) =
    let c' : Source _ = record c { left = rest; held = some a } in
    (
      omega (
        arith,
        ap (lost_of p) e,
        ap (open_of p) e,
        lost_of-at p before c after,
        lost_of-at p before c' after,
        open_of-at p before c after,
        open_of-at p before c' after,
        ap (count p) l,
        ap (held_of p) h,
      ),
      omega (
        arith,
        ap (lost_of p) e,
        ap (open_of p) e,
        lost_of-at p before c after,
        lost_of-at p before c' after,
        open_of-at p before c after,
        open_of-at p before c' after,
        ap (count p) l,
        ap (held_of p) h,
      ),
    )
Step-counts p (take_stale s before after c a rest newer older e l h) =
    let c' : Source _ = record c { left = rest; stale = newer ++ some a ∷ older } in
    (
      omega (
        arith,
        ap (lost_of p) e,
        ap (open_of p) e,
        lost_of-at p before c after,
        lost_of-at p before c' after,
        open_of-at p before c after,
        open_of-at p before c' after,
        ap (count p) l,
        ap (stale_of p) h,
        stale_of-append p newer (none ∷ older),
        stale_of-append p newer (some a ∷ older),
      ),
      omega (
        arith,
        ap (lost_of p) e,
        ap (open_of p) e,
        lost_of-at p before c after,
        lost_of-at p before c' after,
        open_of-at p before c after,
        open_of-at p before c' after,
        ap (count p) l,
        ap (stale_of p) h,
        stale_of-append p newer (none ∷ older),
        stale_of-append p newer (some a ∷ older),
      ),
    )
Step-counts p (publish s before after c a e h) =
    let c' : Source _ = record c { held = none } in
    (
      omega (
        arith,
        ap (lost_of p) e,
        ap (open_of p) e,
        lost_of-at p before c after,
        lost_of-at p before c' after,
        open_of-at p before c after,
        open_of-at p before c' after,
        ap (held_of p) h,
        (lost_of-merged_anew p (before ++ c' ∷ after)).0,
        (lost_of-merged_anew p (before ++ c' ∷ after)).1,
        count-append p s.published (a ∷ []),
      ),
      omega (
        arith,
        ap (lost_of p) e,
        ap (open_of p) e,
        lost_of-at p before c after,
        lost_of-at p before c' after,
        open_of-at p before c after,
        open_of-at p before c' after,
        ap (held_of p) h,
        (lost_of-merged_anew p (before ++ c' ∷ after)).0,
        (lost_of-merged_anew p (before ++ c' ∷ after)).1,
        count-append p s.published (a ∷ []),
      ),
    )

Reach-counts {ℓ} :
    {A : Type ℓ} (p : A → Bool) {s t : Publishing A}
    → Reach s t
    → (lost_of p s.sources ≤ lost_of p t.sources)
      × (count p t.published + (lost_of p t.sources + open_of p t.sources)
          ≡ count p s.published + (lost_of p s.sources + open_of p s.sources))
Reach-counts p here = (omega arith, refl)
Reach-counts p (next r step) =
    let ih = Reach-counts p r in
    let now = Step-counts p step in (omega (arith, ih.0, now.0), now.1 ∙ ih.1)

-- A message that a goroutine of an earlier merge has taken is never published, since nothing
-- receives from that merge any more: whatever happens from then on, and whichever messages a test
-- picks out, those published are at most those published before and those that the merge in use
-- can still bring.
pub stale_never_published {ℓ} :
    {A : Type ℓ} (p : A → Bool) (s t : Publishing A)
    → Reach s t
    → count p t.published ≤ count p s.published + open_of p s.sources
stale_never_published p s t r = let counts = Reach-counts p r in omega (arith, counts.0, counts.1)

-- Of two messages of a controller the second can get lost: after the first is published, the
-- goroutine of the merge that is no longer in use takes the second.
pub second_message_lost {ℓ} :
    {A : Type ℓ} (a b : A)
    → (s : Publishing A) × Reach (run_mqtt_workers ((a ∷ b ∷ []) ∷ [])) s
      × (s.published ≡ a ∷ [])
      × (lost s.sources ≡ 1)
      × (open_count s.sources ≡ 0)
unfolding run_mqtt_workers merged_anew lost open_count stale_count held_count
second_message_lost a b = (
  _,
  next (next (next here (take _ [] [] _ a (b ∷ []) refl refl refl)) (publish _ [] [] _ a refl refl))
      (take_stale _ [] [] _ b [] [] [] refl refl refl),
  refl,
  refl,
  refl,
)

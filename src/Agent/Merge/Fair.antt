-- ===== src/Agent/Merge/Fair.antt =====
-- What comes out of a merge.
use mathlib.Core.List.{append-nil, map-append}
use go_hass_agent.Prelude.{
  Bool, true, false, List, [], ◌∷◌, ◌++◌, map, ◌≡◌, refl, ap, sym, ◌∙◌, subst, ◌⊎◌, inl, inr,
  Bool-cases,
}
use go_hass_agent.Agent.Merge.{
  Channel, Lane, lane_of, Merging, merge_ch, AllDone, Step, lane, cancel, close, Reach, here, next,
}
use go_hass_agent.Agent.Merge.Lanes.{
  AllEmpty, waiting, IsValid, LaneStep-IsValid, AllValid, AllValid-member, AllValid-replace,
  AllValid-cancelled, AllDone-member, LaneStep-open, LaneStep-channel, LaneStep-Merges, differ,
  Merges, start,
}

-- What holds at every time.
pub record IsMerge {ℓ} {A : Type ℓ} (channels : List (Channel A)) (s : Merging A) : Type ℓ where
  pub same : map (λ l. l.channel) s.lanes ≡ channels
  pub valid : AllValid s.cancelled s.lanes
  pub merged : Merges (map (λ l. l.sent) s.lanes) s.out
  pub closing : s.out_closed ≡ false ⊎ AllDone s.lanes

-- The goroutines of the channels, before they have done anything.
abbrev pub Starts {ℓ} : {A : Type ℓ} → List (Channel A) → Type ℓ
Starts channels =
    (map (λ l. l.channel) (map lane_of channels) ≡ channels)
    × AllValid false (map lane_of channels)
    × AllEmpty (map (λ l. l.sent) (map lane_of channels))

lane_of-Starts {ℓ} : {A : Type ℓ} (channels : List (Channel A)) → Starts channels
unfolding lane_of
lane_of-Starts [] = (refl, tt, tt)
lane_of-Starts (c ∷ channels) =
    let rest = lane_of-Starts channels in
    (ap (λ cs. c ∷ cs) rest.0, (inl (refl, inl refl), rest.1), (refl, rest.2))

Step-IsMerge {ℓ} :
    {A : Type ℓ} {channels : List (Channel A)} {s t : Merging A}
    → Step s t
    → IsMerge channels s
    → IsMerge channels t
Step-IsMerge (lane s l l' before after sent e step) m =
    let valid_before = subst (AllValid s.cancelled) e m.valid in
    let moved = LaneStep-IsValid step (AllValid-member s.cancelled before l after valid_before) in
    let merged_before =
      subst (λ lists. Merges lists s.out) (map-append (λ k. k.sent) before (l ∷ after))
        (subst (λ ls. Merges (map (λ k. k.sent) ls) s.out) e m.merged) in
    let merged_after =
      LaneStep-Merges (map (λ k. k.sent) before) (map (λ k. k.sent) after) s.out step
        merged_before in
    record {
      same =
          map-append (λ k. k.channel) before (l' ∷ after)
          ∙ ap (λ c. map (λ k. k.channel) before ++ c ∷ map (λ k. k.channel) after)
              (LaneStep-channel step)
          ∙ sym (map-append (λ k. k.channel) before (l ∷ after))
          ∙ ap (map (λ k. k.channel)) (sym e)
          ∙ m.same;
      valid = AllValid-replace s.cancelled before l l' after moved valid_before;
      merged =
          subst (λ lists. Merges lists (s.out ++ sent))
            (sym (map-append (λ k. k.sent) before (l' ∷ after))) merged_after;
      closing = elim m.closing [
        | inl o ↦ inl o
        | inr d ↦
            absurd (differ (LaneStep-open step) (AllDone-member before l after (subst AllDone e d)))
      ];
    }
Step-IsMerge (cancel s) m = record {
  same = m.same;
  valid = AllValid-cancelled s.cancelled s.lanes m.valid;
  merged = m.merged;
  closing = m.closing;
}
Step-IsMerge (close s d) m = record {
  same = m.same;
  valid = m.valid;
  merged = m.merged;
  closing = inr d;
}

Reach-IsMerge {ℓ} :
    {A : Type ℓ} {channels : List (Channel A)} {s : Merging A}
    → Reach channels s
    → IsMerge channels s
unfolding merge_ch
Reach-IsMerge {channels = channels} here =
    let (same, valid, empty) = lane_of-Starts channels in
    record { same = same; valid = valid; merged = start _ empty; closing = inl refl }
Reach-IsMerge (next r step) = Step-IsMerge step (Reach-IsMerge r)

-- Each list is what comes first in its channel.
abbrev pub AllFirst {ℓ} : {A : Type ℓ} → List (List A) → List (Channel A) → Type ℓ
AllFirst [] channels = channels ≡ []
AllFirst (xs ∷ lists) [] = xs ∷ lists ≡ []
AllFirst {A = A} (xs ∷ lists) (c ∷ cs) =
    ((rest : List A) × (c.contents ≡ xs ++ rest)) × AllFirst lists cs

IsValid-first {ℓ} :
    {A : Type ℓ} (c : Bool) (l : Lane A)
    → IsValid c l
    → (rest : List A) × (l.channel.contents ≡ l.sent ++ rest)
IsValid-first c l (inl (whole, rested)) = (waiting l.holding ++ l.left, whole)
IsValid-first c l (inr (e, d, more)) = more

IsValid-all {ℓ} :
    {A : Type ℓ} (c : Bool) (l : Lane A)
    → c ≡ false
    → l.is_done ≡ true
    → IsValid c l
    → l.sent ≡ l.channel.contents
IsValid-all c l n d (inl (whole, inl going)) = absurd (differ going d)
IsValid-all c l n d (inl (whole, inr empty)) =
    sym (whole ∙ ap (λ r. l.sent ++ r) empty ∙ append-nil l.sent)
IsValid-all c l n d (inr (e, done, more)) = absurd (differ n e)

AllValid-first {ℓ} :
    {A : Type ℓ} (c : Bool) (ls : List (Lane A))
    → AllValid c ls
    → AllFirst (map (λ l. l.sent) ls) (map (λ l. l.channel) ls)
AllValid-first c [] h = refl
AllValid-first c (l ∷ ls) h = (IsValid-first c l h.0, AllValid-first c ls h.1)

AllValid-all {ℓ} :
    {A : Type ℓ} (c : Bool) (ls : List (Lane A))
    → c ≡ false
    → AllDone ls
    → AllValid c ls
    → map (λ l. l.sent) ls ≡ map (λ k. k.contents) (map (λ l. l.channel) ls)
AllValid-all c [] n d h = refl
AllValid-all c (l ∷ ls) n d h =
    ap (λ xs. xs ∷ map (λ k. k.sent) ls) (IsValid-all c l n d.0 h.0)
    ∙ ap (λ lists. l.channel.contents ∷ lists) (AllValid-all c ls n d.1 h.1)

-- The merged channel, at every time and for every interleaving of the goroutines, has given an
-- interleaving of what comes first in the channels, each in its order and without loss or
-- repetition in between; and when it is closed, and the context has not been cancelled, it has given
-- all that the channels hold.
pub merge_ch-Merges {ℓ} :
    {A : Type ℓ} (channels : List (Channel A)) (s : Merging A)
    → Reach channels s
    → (lists : List (List A)) × AllFirst lists channels
      × Merges lists s.out
      × (s.out_closed ≡ false ⊎ (s.cancelled ≡ true ⊎ lists ≡ map (λ c. c.contents) channels))
merge_ch-Merges channels s r =
    let m = Reach-IsMerge r in
    (
      map (λ l. l.sent) s.lanes,
      subst (AllFirst (map (λ l. l.sent) s.lanes)) m.same
          (AllValid-first s.cancelled s.lanes m.valid),
      m.merged,
      elim m.closing [
        | inl o ↦ inl o
        | inr d ↦ elim (Bool-cases s.cancelled) [
          | inl c ↦ inr (inl c)
          | inr n ↦ inr (
              inr
                (AllValid-all s.cancelled s.lanes n d m.valid ∙ ap (map (λ c. c.contents)) m.same))
        ]
      ],
    )

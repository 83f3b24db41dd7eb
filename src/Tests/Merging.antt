-- ===== src/Tests/Merging.antt =====
-- The theorems of the merged channels at concrete values.
use go_hass_agent.Prelude.{
  ℕ, ◌+◌, ◌≤◌, nat_eq, Bool, true, false, none, some, List, [], ◌∷◌, ◌≡◌, refl, ◌⊎◌,
}
use go_hass_agent.Agent.Merge.{
  Channel, lane_of, Merging, merge_ch, take, send, finish, lane, close, Reach, here, next,
}
use go_hass_agent.Agent.Merge.Lanes.{Merges}
use go_hass_agent.Agent.Merge.Fair.{AllFirst, merge_ch-Merges}
use go_hass_agent.Agent.Publish.{
  Publishing, run_mqtt_workers, open_count, lost, Reach as Published, here as at_start,
  next as publishes, take as take_message, publish, merged_anew,
}
use go_hass_agent.Agent.Publish.Lost.{count, open_of, stale_never_published, second_message_lost}

abbrev channels : List (Channel ℕ)
channels = record { contents = 1 ∷ []; closes = true } ∷ []

abbrev merged : Merging ℕ
merged = record {
  lanes =
      record {
        channel = record { contents = 1 ∷ []; closes = true };
        left = [];
        holding = none;
        sent = 1 ∷ [];
        is_done = true;
      }
      ∷ [];
  cancelled = false;
  out = 1 ∷ [];
  out_closed = true;
}

merged_reached : Reach channels merged
unfolding merge_ch lane_of
merged_reached =
    next
      (next
        (next (next here (lane _ _ _ [] [] [] refl (take _ 1 [] refl refl refl)))
          (lane _ _ _ [] [] (1 ∷ []) refl (send _ 1 refl refl)))
        (lane _ _ _ [] [] [] refl (finish _ refl refl refl refl)))
      (close _ (refl, tt))

merge_ch-Merges_example :
    (lists : List (List ℕ)) × AllFirst lists channels
    × Merges lists (1 ∷ [])
    × (true ≡ false ⊎ (false ≡ true ⊎ lists ≡ (1 ∷ []) ∷ []))
merge_ch-Merges_example = merge_ch-Merges channels merged merged_reached

second_message_lost_example :
    (s : Publishing ℕ) × Published (run_mqtt_workers ((1 ∷ 2 ∷ []) ∷ [])) s
    × (s.published ≡ 1 ∷ [])
    × (lost s.sources ≡ 1)
    × (open_count s.sources ≡ 0)
second_message_lost_example = second_message_lost 1 2

abbrev after_loss : Publishing ℕ
after_loss = record {
  sources = record { left = 3 ∷ []; held = none; stale = some 2 ∷ none ∷ [] } ∷ [];
  published = 1 ∷ [];
}

abbrev third_published : Publishing ℕ
third_published = record {
  sources = record { left = []; held = none; stale = none ∷ some 2 ∷ none ∷ [] } ∷ [];
  published = 1 ∷ 3 ∷ [];
}

third_reached : Published after_loss third_published
unfolding merged_anew
third_reached =
    publishes (publishes at_start (take_message _ [] [] _ 3 [] refl refl refl))
      (publish _ [] [] _ 3 refl refl)

abbrev picks : ℕ → Bool
picks n = nat_eq n 2

stale_never_published_example :
    count picks third_published.published
    ≤ count picks after_loss.published + open_of picks after_loss.sources
stale_never_published_example = stale_never_published picks after_loss third_published third_reached

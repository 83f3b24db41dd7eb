-- ===== src/Linux/Disk/Sent.antt =====
-- internal/linux/disk/ioWorker.go: how many sensors `Sensors` sends.
use mathlib.Core.List.{map-append}
use go_hass_agent.Prelude.{
  ℕ, ◌+◌, ◌*◌, String, ◌≡◌, refl, ◌∙◌, ap, sym, map, ◌++◌, Bool, Bool-cases, inl, inr, Option, none,
  some, List, [], ◌∷◌, length, length-append, length-map, ◌==◌, arith, if◌then◌else◌,
}
use go_hass_agent.Prelude.Dict.{lookup, insert, lookup-insert, lookup-insert_self}
use go_hass_agent.Linux.Disk.{
  Stats, DiskIoSensor, Devices, Updated, Gathered, nils_of, fill, filled, update, before, with_rest,
  with_totals_of, with_all, add_to, add_device, update_found, update_device, update_devices,
  disk_sensors, new_device_sensors, add_stats,
}

abbrev pub HasFour : Option (List DiskIoSensor) → Type 0
HasFour none = Unit {0}
HasFour (some sensors) = length sensors ≡ 4

abbrev pub IsThere : Option (List DiskIoSensor) → Type 0
IsThere none = ⊥
IsThere (some sensors) = Unit {0}

-- Every device that is tracked has its four sensors, and "total" is tracked.
abbrev pub IsComplete : Devices → Type 0
IsComplete w = ((id : String) → HasFour (lookup id w)) × IsThere (lookup "total" w)

insert-IsComplete :
    (id : String) (sensors : List DiskIoSensor) (w : Devices)
    → length sensors ≡ 4
    → IsComplete w
    → IsComplete (insert id sensors w)
insert-IsComplete id sensors w four h = (
  λ j. elim (Bool-cases (id == j)) [
    | inl e ↦ rw (lookup-insert id j sensors w) (rw e four)
    | inr e ↦ rw (lookup-insert id j sensors w) (rw e (h.0 j))
  ],
  elim (Bool-cases (id == "total")) [
    | inl e ↦ rw (lookup-insert id "total" sensors w) (rw e tt)
    | inr e ↦ rw (lookup-insert id "total" sensors w) (rw e h.1)
  ],
)

add_to-IsComplete :
    (id : String) (o : Option (List DiskIoSensor)) (w : Devices)
    → IsComplete w
    → IsComplete (add_to id o w)
unfolding add_to new_device_sensors
add_to-IsComplete id none w h = insert-IsComplete id _ w refl h
add_to-IsComplete id (some sensors) w h = h

fill-same :
    (made : List (Option DiskIoSensor)) (found : List DiskIoSensor)
    → length made ≡ length found
    → fill made found ≡ some (map (λ s. some s) found)
unfolding fill
fill-same [] [] e = refl
fill-same [] (s ∷ found) e = cc
fill-same (m ∷ made) [] e = cc
fill-same (m ∷ made) (s ∷ found) e = rw (fill-same made found (omega (arith, e))) refl

nils_four : (o : Option (List DiskIoSensor)) → HasFour o → IsThere o → length (nils_of o) ≡ 4
unfolding nils_of
nils_four none h t = absurd t
nils_four (some sensors) h t = length-map _ sensors ∙ h

-- So many sensors are sent, none of them nil and without a panic, and the worker stays complete.
abbrev pub Sends : ℕ → Updated → Type 0
Sends n r =
    (sent : List DiskIoSensor) × (w : Devices) × (r ≡ some (map (λ s. some s) sent, w))
    × (length sent ≡ n)
    × IsComplete w

update_found-Sends :
    (id : String) (stats : Stats) (elapsed : ℕ) (o : Option (List DiskIoSensor)) (w : Devices)
    → IsComplete w
    → HasFour o
    → IsThere o
    → Sends 4 (update_found id stats elapsed o w)
unfolding update_found filled
update_found-Sends id stats elapsed none w h f t = absurd t
update_found-Sends id stats elapsed (some sensors) w h f t =
    let updated = map (update stats elapsed) sensors in
    let four : length updated ≡ 4 = length-map _ sensors ∙ f in
    let w' = insert id updated w in
    (
      updated,
      w',
      ap (filled w') (
          fill-same (nils_of (lookup "total" w)) updated
            (nils_four (lookup "total" w) (h.0 "total") h.1 ∙ sym four)),
      four,
      insert-IsComplete id updated w four h,
    )

update_device-Sends :
    (id : String) (stats : Stats) (elapsed : ℕ) (w : Devices)
    → IsComplete w
    → IsThere (lookup id w)
    → Sends 4 (update_device id stats elapsed w)
unfolding update_device
update_device-Sends id stats elapsed w h t =
    update_found-Sends id stats elapsed (lookup id w) w h (h.0 id) t

added_to :
    (id : String) (o : Option (List DiskIoSensor)) (w : Devices)
    → lookup id w ≡ o
    → IsThere (lookup id (add_to id o w))
unfolding add_to
added_to id none w e = rw (lookup-insert_self id new_device_sensors w) tt
added_to id (some sensors) w e = rw e tt

added : (id : String) (w : Devices) → IsThere (lookup id (add_device id w))
unfolding add_device
added id w = added_to id (lookup id w) w refl

add_device-IsComplete : (id : String) (w : Devices) → IsComplete w → IsComplete (add_device id w)
unfolding add_device
add_device-IsComplete id w h = add_to-IsComplete id (lookup id w) w h

module _ (is_aggregate : String → Bool) (elapsed : ℕ) where
  -- The loop gathers four sensors for each device.
  Gathers : ℕ → Gathered → Type 0
  Gathers n r =
      (sent : List DiskIoSensor) × (sums : Stats) × (w : Devices) × (r
        ≡ some ((map (λ s. some s) sent, sums), w))
      × (length sent ≡ n)
      × IsComplete w

  before-Gathers :
      (now : List DiskIoSensor) (n : ℕ) (r : Gathered)
      → Gathers n r
      → Gathers (length now + n) (before (map (λ s. some s) now) r)
  unfolding Gathers before
  before-Gathers now n r (rest, sums, w, e, l, h) = (
    now ++ rest,
    sums,
    w,
    rw e (ap (λ l. some ((l, sums), w)) (sym (map-append (λ s. some s) now rest))),
    length-append now rest ∙ ap (λ k. length now + k) l,
    h,
  )

  update_devices-Gathers :
      (devices : List (String × Stats)) (totals : Stats) (w : Devices)
      → IsComplete w
      → Gathers (4 * length devices) (update_devices is_aggregate devices elapsed totals w)
  unfolding update_devices with_rest Gathers
  update_devices-Gathers [] totals w h = ([], totals, w, refl, refl, h)
  update_devices-Gathers ((id, stats) ∷ devices) totals w h =
      let (now, w', e, four, complete) =
        update_device-Sends id stats elapsed (add_device id w) (add_device-IsComplete id w h)
          (added id w) in
      let totals' : Stats = if is_aggregate id then totals else add_stats totals stats in
      let r = update_devices is_aggregate devices elapsed totals' w' in
      let (sent, sums, w'', e', l, complete') =
        before-Gathers now (4 * length devices) r
          (update_devices-Gathers devices totals' w' complete) in
      (
        sent,
        sums,
        w'',
        ap (with_rest (update_devices is_aggregate devices elapsed totals')) e ∙ e',
        omega (arith, l, four),
        complete',
      )

  with_all-Sends :
      (sent : List DiskIoSensor) (n : ℕ) (r : Updated)
      → Sends n r
      → Sends (length sent + n) (with_all (map (λ s. some s) sent) r)
  unfolding with_all
  with_all-Sends sent n r (all, w, e, l, h) = (
    sent ++ all,
    w,
    rw e (ap (λ l. some (l, w)) (sym (map-append (λ s. some s) sent all))),
    length-append sent all ∙ ap (λ k. length sent + k) l,
    h,
  )

  -- From a worker whose tracked devices have their four sensors each, with "total" among them,
  -- `Sensors` does not panic: it sends four sensors for each device that can be read, whether it
  -- was known or not, and four for the totals, none of them nil; the worker stays so.
  pub disk_sensors-four :
      (devices : List (String × Stats)) (w : Devices)
      → IsComplete w
      → (sent : List DiskIoSensor) × (w' : Devices) × (disk_sensors is_aggregate devices elapsed w
          ≡ some (map (λ s. some s) sent, w'))
        × (length sent ≡ 4 * length devices + 4)
        × IsComplete w'
  unfolding disk_sensors with_totals_of Gathers
  disk_sensors-four devices w h =
      let (sent, totals, w', e, l, complete) = update_devices-Gathers devices (λ s. 0) w h in
      let (all, w'', e', l', complete') =
        with_all-Sends sent 4 (update_device "total" totals elapsed w')
          (update_device-Sends "total" totals elapsed w' complete complete.1) in
      (all, w'', ap (with_totals_of elapsed) e ∙ e', omega (arith, l, l'), complete')

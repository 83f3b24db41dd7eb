-- ===== src/Tracker/Contents.antt =====
-- What the tracker holds after each operation, and which names `SensorList` reports.
use go_hass_agent.Prelude.{
  ℕ, ◌+◌, Bool-cases, arith, eq_iff, subst, String, ap, ◌∙◌, ◌≡◌, refl, inl, inr, Bool, true, false,
  Option, none, some, List, ◌∷◌, [], ◌==◌, if◌then◌else◌,
}
use go_hass_agent.Prelude.Dict.{
  Dict, lookup, insert, lookup-insert, insert-insert, lookup-insert_self,
}
use go_hass_agent.Prelude.Order.{sort_strings, insert_sorted, IsSorted, sort_strings-IsSorted}
use go_hass_agent.Sensor.{Details, State, nil, location, value}
use go_hass_agent.Tracker.{
  state_set, new_tracker, Tracker, tracker_not_ready, get, add, reset, entities, sensor_list,
}

-- How often a name stands in a list.
unfoldable pub count : String → List String → ℕ
count j [] = 0
count j (n ∷ ns) = (if n == j then 1 else 0) + count j ns

count-insert_sorted :
    (j a : String) (ns : List String) → count j (insert_sorted a ns) ≡ count j (a ∷ ns)
unfolding count insert_sorted
count-insert_sorted j a [] = refl
count-insert_sorted j a (n ∷ ns) = ground (arith, count-insert_sorted j a ns)

count-sort_strings : (j : String) (ns : List String) → count j (sort_strings ns) ≡ count j ns
unfolding count sort_strings
count-sort_strings j [] = refl
count-sort_strings j (n ∷ ns) =
    omega (arith, count-insert_sorted j n (sort_strings ns), count-sort_strings j ns)

module _ {V : Type 0} where
  -- `Add` on a tracker that was not reset returns no error; its sensor is then what `Get` returns
  -- for the sensor's id, and every other id reads as before. On a tracker that was reset it returns
  -- the error of a tracker that is not ready, and leaves the tracker as it was.
  pub get-add :
      (d : Details V) (m : Dict (Details V)) (j : String)
      → let t : Tracker V = record { sensor = some m } in
        ((add d t).0 ≡ none)
        × (get j (add d t).1 ≡ (if d.id == j then some d else get j t))
        × (add d (record { sensor = none }) ≡ (some tracker_not_ready, record { sensor = none }))
  unfolding get add
  get-add d m j = (refl, lookup-insert d.id j d m, refl)

  -- Sensors are added one after the other; what `Add` answers is not looked at.
  unfoldable pub add_all : List (Details V) → Tracker V → Tracker V
  add_all [] t = t
  add_all (d ∷ ds) t = add_all ds (add d t).1

  add-reset : (d : Details V) (t : Tracker V) → (add d (reset t)).1 ≡ reset t
  unfolding add reset
  add-reset d t = refl

  add_all-reset : (ds : List (Details V)) (t : Tracker V) → add_all ds (reset t) ≡ reset t
  unfolding add_all
  add_all-reset [] t = refl
  add_all-reset (d ∷ ds) t = rw (add-reset d t) (add_all-reset ds t)

  refused-reset :
      (t : Tracker V) (d : Details V) (j : String)
      → ((add d (reset t)).0 ≡ some tracker_not_ready)
        × (get j (reset t) ≡ none)
        × (sensor_list (reset t) ≡ none)
  unfolding get add sensor_list reset
  refused-reset t d j = (refl, refl, refl)

  -- Once for a sensor with a state, and not at all for one without, or where there is none.
  abbrev pub once : State V → ℕ
  once nil = 0
  once (location l) = 1
  once (value v) = 1

  abbrev pub reported : Option (Details V) → ℕ
  reported none = 0
  reported (some d) = once d.state

  -- A map has one entry for a key.
  abbrev IsMap : Dict (Details V) → Type 0
  IsMap [] = Unit {0}
  IsMap ((key, d) ∷ rest) = (lookup key rest ≡ none) × IsMap rest

  insert-IsMap :
      (key : String) (d : Details V) (m : Dict (Details V)) → IsMap m → IsMap (insert key d m)
  unfolding lookup insert
  insert-IsMap key d [] h = (refl, tt)
  insert-IsMap key d ((name, old) ∷ rest) h = elim (Bool-cases (name == key)) [
    | inl e ↦ rw e (subst (λ k. lookup k rest ≡ none) ((eq_iff name key).0 e) h.0, h.1)
    | inr e ↦ rw e (missing name h.0 e, insert-IsMap key d rest h.1)
  ]
    where
      missing :
          (name : String)
          → lookup name rest ≡ none
          → (name == key) ≡ false
          → lookup name (insert key d rest) ≡ none
      missing name free e =
          ground (arith, lookup-insert key name d rest, eq_iff name key, eq_iff key name)

  count-entry :
      (j name : String) (names : List String) (s : State V) (n : ℕ)
      → count j names ≡ n
      → (name ≡ j → n ≡ 0)
      → count j (if state_set s then name ∷ names else names) ≡ (if name == j then once s else n)
  unfolding count
  count-entry j name names nil n h free = ground (arith, eq_iff name j, h, free)
  count-entry j name names (location l) n h free = ground (arith, eq_iff name j, h, free)
  count-entry j name names (value v) n h free = ground (arith, eq_iff name j, h, free)

  reported_if :
      (b : Bool) (d : Details V) (o : Option (Details V))
      → (if b then once d.state else reported o) ≡ reported (if b then some d else o)
  reported_if true d o = refl
  reported_if false d o = refl

  count-entities :
      (j : String) (m : Dict (Details V)) → IsMap m → count j (entities m) ≡ reported (lookup j m)
  unfolding count entities lookup
  count-entities j [] h = refl
  count-entities j ((name, d) ∷ rest) h =
      count-entry j name (entities rest) d.state (reported (lookup j rest))
        (count-entities j rest h.1) (λ e. ap reported (subst (λ k. lookup k rest ≡ none) e h.0))
      ∙ reported_if (name == j) d (lookup j rest)

  -- A tracker whose map has one entry for a key.
  abbrev KeysOnce : Tracker V → Type 0
  KeysOnce t = (m : Dict (Details V)) × (t.sensor ≡ some m) × IsMap m

  add_all-KeysOnce :
      (ds : List (Details V)) (m : Dict (Details V))
      → IsMap m
      → KeysOnce (add_all ds (record { sensor = some m }))
  unfolding add_all add
  add_all-KeysOnce [] m h = (m, refl, h)
  add_all-KeysOnce (d ∷ ds) m h = add_all-KeysOnce ds (insert d.id d m) (insert-IsMap d.id d m h)

  listed :
      (o : Option (Dict (Details V))) (m : Dict (Details V)) (j : String)
      → o ≡ some m
      → IsMap m
      → (names : List String) × (sensor_list (record { sensor = o }) ≡ some names)
        × IsSorted names
        × (count j names ≡ reported (get j (record { sensor = o })))
  unfolding sensor_list get
  listed none m j e h = cc
  listed (some n) m j e h = (
    sort_strings (entities n),
    refl,
    sort_strings-IsSorted (entities n),
    count-sort_strings j (entities n) ∙ count-entities j n (subst IsMap (cc) h),
  )

  -- After any sensors were added to a new tracker, `SensorList` is a sorted list in which an id
  -- stands once where `Get` finds a sensor with a state under it, and does not stand where it
  -- finds none, or one without a state.
  pub sensor_list-Lists :
      (ds : List (Details V)) (j : String)
      → (names : List String) × (sensor_list (add_all ds new_tracker) ≡ some names)
        × IsSorted names
        × (count j names ≡ reported (get j (add_all ds new_tracker)))
  unfolding new_tracker
  sensor_list-Lists ds j =
      let (m, e, h) = add_all-KeysOnce ds [] tt in listed (add_all ds new_tracker).sensor m j e h

  -- A tracker that was reset stays so: after any sensors were added, one more is refused still,
  -- `Get` finds nothing, and `SensorList` is nil.
  pub reset_refuses :
      (t : Tracker V) (ds : List (Details V)) (d : Details V) (j : String)
      → let t' = add_all ds (reset t) in
        ((add d t').0 ≡ some tracker_not_ready) × (get j t' ≡ none) × (sensor_list t' ≡ none)
  reset_refuses t ds d j = rw (add_all-reset ds t) (refused-reset t d j)

  -- The map is there: the tracker was not reset.
  abbrev pub ready : Tracker V → Bool
  ready t = is_made t.sensor
    where
      is_made : Option (Dict (Details V)) → Bool
      is_made none = false
      is_made (some m) = true

  ready-add_cases :
      (d : Details V) (o : Option (Dict (Details V)))
      → ready (add d (record { sensor = o })).1 ≡ ready (record { sensor = o })
  unfolding add
  ready-add_cases d none = refl
  ready-add_cases d (some m) = refl

  pub ready-add : (d : Details V) (t : Tracker V) → ready (add d t).1 ≡ ready t
  ready-add d t = ready-add_cases d t.sensor

  get-add-ready_cases :
      (d : Details V) (o : Option (Dict (Details V)))
      → get d.id (add d (record { sensor = o })).1
        ≡ (if ready (record { sensor = o }) then some d else none)
  unfolding add get
  get-add-ready_cases d none = refl
  get-add-ready_cases d (some m) = lookup-insert_self d.id d m

  pub get-add-ready :
      (d : Details V) (t : Tracker V) → get d.id (add d t).1 ≡ (if ready t then some d else none)
  get-add-ready d t = get-add-ready_cases d t.sensor

  add-add_cases :
      (d e : Details V) (o : Option (Dict (Details V)))
      → d.id ≡ e.id
      → add e (add d (record { sensor = o })).1 ≡ add e (record { sensor = o })
  unfolding add
  add-add_cases d e none h = refl
  add-add_cases d e (some m) h =
      let same : insert e.id e (insert d.id d m) ≡ insert e.id e m =
        ap (λ (k : String). insert e.id e (insert k d m)) h ∙ insert-insert e.id d e m in
      ap (λ (n : Dict (Details V)). (none, record { sensor = some n })) same

  -- Of two sensors with one id, the tracker keeps the second.
  pub add-add : (d e : Details V) (t : Tracker V) → d.id ≡ e.id → add e (add d t).1 ≡ add e t
  add-add d e t h = add-add_cases d e t.sensor h

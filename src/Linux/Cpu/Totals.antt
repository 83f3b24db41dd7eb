-- ===== src/Linux/Cpu/Totals.antt =====
-- What `generateValues` computes, and where it panics.
use go_hass_agent.Prelude.{
  String, false, Option, none, some, List, [], ◌∷◌, ◌==◌, ◌≡◌, refl, ◌∙◌, ap, subst, Option-cases,
  inl, inr,
}
use go_hass_agent.Prelude.Dict.{Dict, insert, lookup, lookup-insert, lookup-insert_self}
use go_hass_agent.Linux.Cpu.Usage.{
  Floats, CpuUsageSensor, made, panic, times, paired, add_times, usage_of, with_pairs,
  generate_values,
}

-- No pair has the name.
abbrev pub NoneNamed : String → List (String × String) → Type 0
NoneNamed name [] = Unit {0}
NoneNamed name ((other, text) ∷ rest) = ((other == name) ≡ false) × NoneNamed name rest

-- The times but for the first.
abbrev pub other_times : List String
other_times =
    "nice_time" ∷ "system_time" ∷ "idle_time" ∷ "iowait_time" ∷ "irq_time" ∷ "softirq_time"
    ∷ "steal_time" ∷ "guest_time" ∷ "guest_nice_time" ∷ []

some_inj {ℓ} : {A : Type ℓ} {a b : A} → some a ≡ some b → a ≡ b
some_inj e = cc

none-ne {ℓ} : {A : Type ℓ} {a : A} → none ≡ some a → ⊥
none-ne e = cc

-- No other name is that one.
AllOther : String → List String → Type 0
AllOther name [] = Unit {0}
AllOther name (other ∷ rest) = ((other == name) ≡ false) × AllOther name rest

paired-NoneNamed :
    (name : String) (names details : List String) (pairs : List (String × String))
    → AllOther name names
    → paired names details ≡ some pairs
    → NoneNamed name pairs
unfolding paired AllOther
paired-NoneNamed name [] [] pairs h e = subst (NoneNamed name) (some_inj e) tt
paired-NoneNamed name [] (d ∷ details) pairs h e = cc
paired-NoneNamed name (n ∷ names) [] pairs h e = cc
paired-NoneNamed name (n ∷ names) (d ∷ details) pairs h e =
    elim (Option-cases (paired names details)) [
      | inl none_left ↦ absurd (
          none-ne (
            subst (λ o. (elim o [ none ↦ none | some rest ↦ some ((n, d) ∷ rest) ]) ≡ some pairs)
              none_left e))
      | inr (rest, found) ↦
          subst (NoneNamed name)
            (some_inj (
              subst (λ o. (elim o [ none ↦ none | some r ↦ some ((n, d) ∷ r) ]) ≡ some pairs) found
                e))
            (h.0, paired-NoneNamed name names details rest h.1 found)
    ]

module _ {F : Type 0} (floats : Floats F) where
  add_times-other :
      (name : String) (pairs : List (String × String)) (attrs : Dict F) (sum : F)
      → NoneNamed name pairs
      → lookup name (add_times floats pairs attrs sum).0 ≡ lookup name attrs
  unfolding add_times
  add_times-other name [] attrs sum h = refl
  add_times-other name ((other, text) ∷ rest) attrs sum h =
      elim (Option-cases (floats.parse_float text)) [
        | inl e ↦ rw (e, add_times) (add_times-other name rest attrs sum h.1)
        | inr (v, e) ↦
            rw (e, add_times)
              (add_times-other name rest (insert other (floats.over_ticks v) attrs)
                  (floats.add sum (floats.over_ticks v)) h.1
                ∙ lookup-insert other name (floats.over_ticks v) attrs
                ∙ rw h.0 refl)
      ]

  -- The sum of the times that are numbers, in the order of the columns.
  unfoldable pub sum_of : List (String × String) → F → F
  sum_of [] sum = sum
  sum_of ((name, text) ∷ rest) sum = elim (floats.parse_float text) [
    | none ↦ sum_of rest sum
    | some v ↦ sum_of rest (floats.add sum (floats.over_ticks v))
  ]

  add_times-sum :
      (pairs : List (String × String)) (attrs : Dict F) (sum : F)
      → (add_times floats pairs attrs sum).1 ≡ sum_of pairs sum
  unfolding add_times sum_of
  add_times-sum [] attrs sum = refl
  add_times-sum ((name, text) ∷ rest) attrs sum = elim (Option-cases (floats.parse_float text)) [
    | inl e ↦ rw (e, add_times, sum_of) (add_times-sum rest attrs sum)
    | inr (v, e) ↦
        rw (e, add_times, sum_of)
          (add_times-sum rest (insert name (floats.over_ticks v) attrs)
            (floats.add sum (floats.over_ticks v)))
  ]

  generated :
      (user : String) (details : List String) (pairs : List (String × String))
      (s : CpuUsageSensor F)
      → paired other_times details ≡ some pairs
      → generate_values floats (user ∷ details) s
        ≡ usage_of floats s (add_times floats (("user_time", user) ∷ pairs) [] floats.zero_time)
  unfolding generate_values times paired with_pairs
  generated user details pairs s e =
      ap
        (λ (o : Option (List (String × String))).
          with_pairs floats s
            (elim o [ none ↦ none | some rest ↦ some (("user_time", user) ∷ rest) ]))
        e

  others_differ : AllOther "user_time" other_times
  unfolding AllOther
  others_differ = (refl, (refl, (refl, (refl, (refl, (refl, (refl, (refl, (refl, tt)))))))))

  user_read :
      (user : String) (details : List String) (pairs : List (String × String)) (v : F)
      → paired other_times details ≡ some pairs
      → floats.parse_float user ≡ some v
      → lookup "user_time" (add_times floats (("user_time", user) ∷ pairs) [] floats.zero_time).0
        ≡ some (floats.over_ticks v)
  unfolding add_times lookup
  user_read user details pairs v e p =
      rw (p, add_times)
        (add_times-other "user_time" pairs (insert "user_time" (floats.over_ticks v) [])
            (floats.add floats.zero_time (floats.over_ticks v))
            (paired-NoneNamed "user_time" other_times details pairs others_differ e)
          ∙ lookup-insert_self "user_time" (floats.over_ticks v) [])

  sum_read :
      (user : String) (pairs : List (String × String)) (v : F)
      → floats.parse_float user ≡ some v
      → (add_times floats (("user_time", user) ∷ pairs) [] floats.zero_time).1
        ≡ sum_of pairs (floats.add floats.zero_time (floats.over_ticks v))
  unfolding add_times sum_of
  sum_read user pairs v p =
      rw (p, add_times)
        (add_times-sum pairs (insert "user_time" (floats.over_ticks v) [])
          (floats.add floats.zero_time (floats.over_ticks v)))

  -- Where the first of the ten times is a number, the usage is its share of the sum of all the times
  -- that are numbers, which is also the total among the attributes.
  pub usage_is_share :
      (user : String) (details : List String) (pairs : List (String × String))
      (s : CpuUsageSensor F) (v : F)
      → paired other_times details ≡ some pairs
      → floats.parse_float user ≡ some v
      → let sum = sum_of pairs (floats.add floats.zero_time (floats.over_ticks v)) in
        (s' : CpuUsageSensor F) × (generate_values floats (user ∷ details) s ≡ made s')
        × (s'.value ≡ some (floats.percent (floats.over_ticks v) sum))
        × (lookup "total_time" s'.usage_attributes ≡ some sum)
  unfolding usage_of
  usage_is_share user details pairs s v e p =
      let read = user_read user details pairs v e p in
      let summed = sum_read user pairs v p in
      let (attrs, sum) = add_times floats (("user_time", user) ∷ pairs) [] floats.zero_time in
      (
        record s {
          usage_attributes = insert "total_time" sum attrs;
          value = some (floats.percent (floats.over_ticks v) sum);
        },
        generated user details pairs s e ∙ rw (read, usage_of) refl,
        ap (λ (t : F). some (floats.percent (floats.over_ticks v) t)) summed,
        lookup-insert_self "total_time" sum attrs ∙ ap some summed,
      )

  -- Where the first of the ten times is no number, the assertion that its attribute is one panics,
  -- whatever the other columns are.
  pub unreadable_user_time_panics :
      (user : String) (details : List String) (pairs : List (String × String))
      (s : CpuUsageSensor F)
      → paired other_times details ≡ some pairs
      → floats.parse_float user ≡ none
      → generate_values floats (user ∷ details) s ≡ panic
  unfolding usage_of add_times lookup
  unreadable_user_time_panics user details pairs s e p =
      generated user details pairs s e
      ∙ (let missing : lookup "user_time"
                (add_times floats (("user_time", user) ∷ pairs) [] floats.zero_time).0
              ≡ none =
            rw (p, add_times)
              (add_times-other "user_time" pairs [] floats.zero_time
                (paired-NoneNamed "user_time" other_times details pairs others_differ e)) in
          rw (missing, usage_of) refl)

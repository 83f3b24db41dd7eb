-- ===== src/Linux/Net/Nameservers.antt =====
-- What repeated changes of the address leave in the sensor.
use go_hass_agent.Prelude.{
  ℕ, zero, suc, String, Option, none, some, List, [], ◌∷◌, ◌++◌, ◌≡◌, refl, subst, Option-cases,
  inl, inr, ap, sym, ◌∙◌, arith,
}
use go_hass_agent.Prelude.Dict.{Dict}
use go_hass_agent.Prelude.Int.{ℤ}
use mathlib.Core.List.{append_assoc, append-nil}
use go_hass_agent.Linux.Net.{Variants, Setting}
use go_hass_agent.Linux.Net.Address.{
  ipv4, IpConfig, Configs, AddrSensor, update_addr, update_gateway, update_nameservers, with_config,
  path_of, set_addr_state, names_of, with_address, with_prefix, value_at,
}

-- The same change, n times.
unfoldable pub set_times :
    {V : Type 0} → Variants V → Configs V → Setting V → ℕ → AddrSensor → Option AddrSensor
set_times ops configs value zero s = some s
set_times ops configs value (suc n) s = elim (set_addr_state ops configs value s) [
  | none ↦ none
  | some s' ↦ set_times ops configs value n s'
]

-- n copies of a list, one after the other
abbrev pub copies : ℕ → List String → List String
copies zero xs = []
copies (suc n) xs = xs ++ copies n xs

none-ne-some : {s : AddrSensor} → none ≡ some s → ⊥
none-ne-some e = cc

prefix_keeps :
    {V : Type 0} (ops : Variants V) (a : String) (n : Option ℤ) (s s' : AddrSensor)
    → with_prefix ops a n s ≡ some s'
    → (s'.nameservers ≡ s.nameservers) × (s'.ver ≡ s.ver)
unfolding with_prefix
prefix_keeps ops a none s s' h = cc
prefix_keeps ops a (some n) s s' h = ground arith

update_addr-keeps :
    {V : Type 0} (ops : Variants V) (o : Option (List (Dict V))) (s s' : AddrSensor)
    → update_addr ops o s ≡ some s'
    → (s'.nameservers ≡ s.nameservers) × (s'.ver ≡ s.ver)
unfolding update_addr with_address
update_addr-keeps ops none s s' h = cc
update_addr-keeps ops (some []) s s' h = ground arith
update_addr-keeps ops (some (d ∷ rest)) s s' h =
    elim (Option-cases (ops.to_text (value_at ops "address" d))) [
      | inl e ↦ absurd (
          none-ne-some (
            subst (λ o. with_address ops o (ops.to_int (value_at ops "prefix" d)) s ≡ some s') e h))
      | inr (a, e) ↦
          prefix_keeps ops a (ops.to_int (value_at ops "prefix" d)) s s'
            (subst (λ o. with_address ops o (ops.to_int (value_at ops "prefix" d)) s ≡ some s') e h)
    ]

gateway_keeps :
    {V : Type 0} (ops : Variants V) (o : Option String) (s : AddrSensor)
    → ((update_gateway ops o s).nameservers ≡ s.nameservers)
      × ((update_gateway ops o s).ver ≡ s.ver)
unfolding update_gateway
gateway_keeps ops none s = (refl, refl)
gateway_keeps ops (some g) s = (refl, refl)

nameservers_append :
    {V : Type 0} (ops : Variants V) (found : List (Dict V)) (s : AddrSensor)
    → s.ver ≡ ipv4
    → ((update_nameservers ops (some found) s).nameservers ≡ s.nameservers ++ names_of ops found)
      × ((update_nameservers ops (some found) s).ver ≡ ipv4)
unfolding update_nameservers
nameservers_append ops found s v = ground (arith, v)

config_keeps :
    {V : Type 0} (ops : Variants V) (config : IpConfig V) (found : List (Dict V))
    (s s' : AddrSensor)
    → s.ver ≡ ipv4
    → config.nameserver_data ≡ some found
    → with_config ops config s ≡ some s'
    → (s'.nameservers ≡ s.nameservers ++ names_of ops found) × (s'.ver ≡ ipv4)
unfolding with_config
config_keeps ops config found s s' v f h =
    elim (Option-cases (update_addr ops config.address_data s)) [
      | inl e ↦ absurd (
          none-ne-some (
            subst
              (λ o.
                (elim o [
                  | none ↦ none
                  | some r ↦ some (
                      update_nameservers ops config.nameserver_data
                        (update_gateway ops config.gateway r))
                ])
                ≡ some s')
              e h))
      | inr (r, e) ↦ ground (
        arith,
        e,
        f,
        update_addr-keeps ops config.address_data s r e,
        gateway_keeps ops config.gateway r,
        nameservers_append ops found (update_gateway ops config.gateway r),
      )
    ]

-- The sensor that one change leaves, where its parts can be read.
changed_lem :
    {V : Type 0} (ops : Variants V) (configs : Configs V) (value : Setting V) (path : String)
    (found : List (Dict V)) (s s' : AddrSensor)
    → s.ver ≡ ipv4
    → path_of ops value ≡ some path
    → (configs ipv4 path).nameserver_data ≡ some found
    → set_addr_state ops configs value s ≡ some s'
    → (s'.nameservers ≡ s.nameservers ++ names_of ops found) × (s'.ver ≡ ipv4)
unfolding set_addr_state with_config
changed_lem ops configs value path found s s' v e f h =
    config_keeps ops (configs s.ver path) found s s' v
      (subst (λ u. (configs u path).nameserver_data ≡ some found) (sym v) f)
      (subst
        (λ o. (elim o [ none ↦ none | some p ↦ with_config ops (configs s.ver p) s ]) ≡ some s') e
        h)

-- Nameservers are appended at every change, and never dropped: after n changes to a configuration
-- of IPv4 the sensor lists its nameservers n times over, behind those that it had before.
pub nameservers_pile_up :
    {V : Type 0} (ops : Variants V) (configs : Configs V) (value : Setting V) (path : String)
    (found : List (Dict V)) (n : ℕ) (s s' : AddrSensor)
    → s.ver ≡ ipv4
    → path_of ops value ≡ some path
    → (configs ipv4 path).nameserver_data ≡ some found
    → set_times ops configs value n s ≡ some s'
    → s'.nameservers ≡ s.nameservers ++ copies n (names_of ops found)
unfolding set_times
nameservers_pile_up ops configs value path found zero s s' v e f h =
    let same : s ≡ s' = cc in ap (λ r. r.nameservers) (sym same) ∙ sym (append-nil s.nameservers)
nameservers_pile_up ops configs value path found (suc n) s s' v e f h =
    elim (Option-cases (set_addr_state ops configs value s)) [
      | inl failed ↦ absurd (
          none-ne-some (
            subst
              (λ o. (elim o [ none ↦ none | some r ↦ set_times ops configs value n r ]) ≡ some s')
              failed h))
      | inr (r, found_r) ↦
          let first = changed_lem ops configs value path found s r v e f found_r in
          nameservers_pile_up ops configs value path found n r s' first.1 e f (
            subst
              (λ o. (elim o [ none ↦ none | some q ↦ set_times ops configs value n q ]) ≡ some s')
              found_r h)
          ∙ ap (λ l. l ++ copies n (names_of ops found)) first.0
          ∙ append_assoc s.nameservers (names_of ops found) (copies n (names_of ops found))
    ]

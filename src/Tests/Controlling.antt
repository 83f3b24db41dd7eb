-- ===== src/Tests/Controlling.antt =====
-- The theorems of the scripts, the commands, the registration and the network rates at concrete
-- values.
use go_hass_agent.Prelude.{
  ℕ, suc, ◌+◌, ◌<◌, String, ◌≡◌, refl, Bool, true, false, ◌||◌, Option, none, some, List, [], ◌∷◌,
  if◌then◌else◌, ◌==◌, nat_eq, arith,
}
use go_hass_agent.Scripts.Controller.{Cron, Job, Controller, start, stop, find}
use go_hass_agent.Scripts.Schedule.{IsValid}
use go_hass_agent.Scripts.Running.{
  Operation, starts, stops, starts_all, stops_all, operate_all, operate_all-IsValid, stop-start,
}

-- A scheduler that knows its entries, and takes every schedule but the empty one.
total : List ℕ → ℕ
total [] = 0
total (x ∷ xs) = x + total xs

mem : ℕ → List ℕ → Bool
mem j [] = false
mem j (x ∷ xs) = nat_eq x j || mem j xs

without : ℕ → List ℕ → List ℕ
without id [] = []
without id (x ∷ xs) = let rest = without id xs in if nat_eq x id then rest else x ∷ rest

schedule_new : String → List ℕ → Option ℕ × List ℕ
unfolding total
schedule_new spec s = if spec == "" then (none, s) else (some (suc (total s)), suc (total s) ∷ s)

mem-large : (j : ℕ) (xs : List ℕ) → total xs < j → mem j xs ≡ false
unfolding mem total
mem-large j [] h = refl
mem-large j (x ∷ xs) h = ground (arith, mem-large j xs)

mem-without :
    (id j : ℕ) (xs : List ℕ) → mem j (without id xs) ≡ (if nat_eq id j then false else mem j xs)
unfolding mem without
mem-without id j [] = ground arith
mem-without id j (x ∷ xs) = ground (arith, mem-without id j xs)

fresh :
    (spec : String) (s : List ℕ) (id : ℕ)
    → (schedule_new spec s).0 ≡ some id
    → (0 < id) × (mem id s ≡ false)
unfolding schedule_new
fresh spec s id h = ground (arith, mem-large id s)

after_add :
    (spec : String) (s : List ℕ) (id j : ℕ)
    → (schedule_new spec s).0 ≡ some id
    → mem j (schedule_new spec s).1 ≡ (if nat_eq id j then true else mem j s)
unfolding schedule_new mem
after_add spec s id j h = ground arith

refused :
    (spec : String) (s : List ℕ) (j : ℕ)
    → (schedule_new spec s).0 ≡ none
    → mem j (schedule_new spec s).1 ≡ mem j s
unfolding schedule_new
refused spec s j h = ground arith

abbrev cron : Cron (List ℕ)
cron = record {
  add_func = schedule_new;
  remove = without;
  scheduled = mem;
  add_fresh = fresh;
  scheduled_after_add = after_add;
  refused_add = refused;
  scheduled_after_remove = λ id j s. mem-without id j s;
}

abbrev running_job : Job
running_job = record { path = "/scripts/a"; schedule = "@hourly"; id = 3 }

abbrev idle_job : Job
idle_job = record { path = "/scripts/b"; schedule = "@daily"; id = 0 }

abbrev scripts : Controller (List ℕ)
scripts = record { scheduler = 3 ∷ []; jobs = running_job ∷ idle_job ∷ [] }

scripts-IsValid : IsValid cron scripts
unfolding mem
scripts-IsValid = ((λ h. (refl, ((λ e. omega (arith, e)), tt))), ((λ h. absurd (h refl)), tt))

abbrev busy : List Operation
busy = starts "/scripts/b" ∷ stops "/scripts/a" ∷ starts_all ∷ stops_all ∷ starts "/scripts/a" ∷ []

operate_all-IsValid_example : IsValid cron (operate_all cron busy scripts)
operate_all-IsValid_example = operate_all-IsValid cron busy scripts scripts-IsValid

stop-start_example :
    let c' = (start cron "/scripts/b" scripts).1 in
    let c'' = (stop cron "/scripts/b" c').1 in
    ((start cron "/scripts/b" scripts).0 ≡ none)
    × ((stop cron "/scripts/b" c').0 ≡ none)
    × (c''.jobs ≡ scripts.jobs)
    × ((k : ℕ) → mem k c''.scheduler ≡ mem k (3 ∷ []))
unfolding find schedule_new
stop-start_example = stop-start cron "/scripts/b" scripts idle_job 4 refl refl refl

-- ===== src/Scripts/Controller.antt =====
-- internal/scripts/controller.go. The cron library is an interface over the states `S` of a
-- scheduler; what a job does when its time comes, channels and logging are left out.
use go_hass_agent.Prelude.{
  ℕ, ◌<◌, String, ◌≡◌, Bool, true, false, not, Option, none, some, List, [], ◌∷◌, ltb, nat_eq, ◌==◌,
  if◌then◌else◌,
}

-- github.com/robfig/cron: AddFunc fails on a schedule that it cannot parse, and gives every entry
-- a positive id that no entry had; Remove of an id that is not there changes nothing.
pub record Cron (S : Type 0) : Type 0 where
  pub add_func : String → S → Option ℕ × S
  pub remove : ℕ → S → S
  pub scheduled : ℕ → S → Bool
  pub add_fresh :
      (spec : String) (s : S) (id : ℕ)
      → (add_func spec s).0 ≡ some id
      → (0 < id) × (scheduled id s ≡ false)
  pub scheduled_after_add :
      (spec : String) (s : S) (id j : ℕ)
      → (add_func spec s).0 ≡ some id
      → scheduled j (add_func spec s).1 ≡ (if nat_eq id j then true else scheduled j s)
  pub refused_add :
      (spec : String) (s : S) (j : ℕ)
      → (add_func spec s).0 ≡ none
      → scheduled j (add_func spec s).1 ≡ scheduled j s
  pub scheduled_after_remove :
      (id j : ℕ) (s : S)
      → scheduled j (remove id s) ≡ (if nat_eq id j then false else scheduled j s)

pub record Job : Type 0 where
  pub path : String
  pub schedule : String
  pub id : ℕ

pub record Controller (S : Type 0) : Type 0 where
  pub scheduler : S
  pub jobs : List Job

pub data ScriptError : Type 0 where
  unknown_script already_started already_stopped scheduling_failed : ScriptError

-- The loop of `ActiveWorkers` and `InactiveWorkers`.
unfoldable pub paths_where : (ℕ → Bool) → List Job → List String
paths_where p [] = []
paths_where p (job ∷ jobs) =
    let rest = paths_where p jobs in if p job.id then job.path ∷ rest else rest

unfoldable pub active_workers : {S : Type 0} → Controller S → List String
active_workers c = paths_where (λ id. not (nat_eq id 0)) c.jobs

unfoldable pub inactive_workers : {S : Type 0} → Controller S → List String
inactive_workers c = paths_where (λ id. nat_eq id 0) c.jobs

-- c.jobs[found], for the first job with the path; `none` is an index of -1.
unfoldable pub find : String → List Job → Option Job
find name [] = none
find name (job ∷ jobs) = if job.path == name then some job else find name jobs

-- c.jobs[found].ID = id
unfoldable pub set_id : String → ℕ → List Job → List Job
set_id name id [] = []
set_id name id (job ∷ jobs) =
    if job.path == name then record job { id = id } ∷ jobs else job ∷ set_id name id jobs

module _ {S : Type 0} (cron : Cron S) where
  unfoldable pub added : String → Option ℕ × S → Controller S → Option ScriptError × Controller S
  added name (none, s) c = (some scheduling_failed, record c { scheduler = s })
  added name (some id, s) c = (none, record { scheduler = s; jobs = set_id name id c.jobs })

  unfoldable pub start_job : String → Option Job → Controller S → Option ScriptError × Controller S
  unfolding added
  start_job name none c = (some unknown_script, c)
  start_job name (some job) c =
      if ltb 0 job.id
      then (some already_started, c)
      else added name (cron.add_func job.schedule c.scheduler) c

  -- `Start`
  unfoldable pub start : String → Controller S → Option ScriptError × Controller S
  unfolding start_job
  start name c = start_job name (find name c.jobs) c

  unfoldable pub stop_job : String → Option Job → Controller S → Option ScriptError × Controller S
  stop_job name none c = (some unknown_script, c)
  stop_job name (some job) c = if nat_eq job.id 0 then (some already_stopped, c) else (
    none,
    record { scheduler = cron.remove job.id c.scheduler; jobs = set_id name 0 c.jobs },
  )

  -- `Stop`
  unfoldable pub stop : String → Controller S → Option ScriptError × Controller S
  unfolding stop_job
  stop name c = stop_job name (find name c.jobs) c

  -- One round of the loop of `StartAll`; a schedule that is refused is only logged.
  unfoldable pub assigned : Job → Option ℕ × S → Job × S
  assigned job (none, s) = (job, s)
  assigned job (some id, s) = (record job { id = id }, s)

  unfoldable pub start_one : Job → S → Job × S
  unfolding assigned
  start_one job s = if ltb 0 job.id then (job, s) else assigned job (cron.add_func job.schedule s)

  unfoldable pub start_jobs : List Job → S → List Job × S
  start_jobs [] s = ([], s)
  start_jobs (job ∷ jobs) s =
      let (job', s') = start_one job s in
      let (jobs', s'') = start_jobs jobs s' in (job' ∷ jobs', s'')

  -- `StartAll`
  unfoldable pub start_all : Controller S → Controller S
  start_all c =
      let (jobs, s) = start_jobs c.jobs c.scheduler in record { scheduler = s; jobs = jobs }

  unfoldable pub stop_jobs : List Job → S → List Job × S
  stop_jobs [] s = ([], s)
  stop_jobs (job ∷ jobs) s =
      let (jobs', s') = stop_jobs jobs (cron.remove job.id s) in (record job { id = 0 } ∷ jobs', s')

  -- `StopAll`
  unfoldable pub stop_all : Controller S → Controller S
  stop_all c = let (jobs, s) = stop_jobs c.jobs c.scheduler in record { scheduler = s; jobs = jobs }

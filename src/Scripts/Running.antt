-- ===== src/Scripts/Running.antt =====
-- The operations of the controller: each keeps its jobs and the scheduler in step.
use go_hass_agent.Prelude.{
  ℕ, ◌<◌, String, ◌≡◌, refl, sym, ap, subst, ◌∙◌, ◌≢◌, true, false, not, inl, inr, Option, none,
  some, List, [], ◌∷◌, arith, ltb, nat_eq, ◌==◌, Bool-cases,
}
use go_hass_agent.Scripts.Controller.{
  Cron, Job, Controller, find, set_id, start, stop, start_one, start_jobs, start_all, stop_jobs,
  stop_all, assigned, active_workers, paths_where,
}
use go_hass_agent.Scripts.Schedule.{
  Unused, Runs, IsValid, Runs-mono, Runs-Unused, keep_after_add, added_here, IsValid-start_job,
  IsValid-stop_job,
}

-- The controller's operations.
pub data Operation : Type 0 where
  starts stops : String → Operation
  starts_all stops_all : Operation

module _ {S : Type 0} (cron : Cron S) where
  abbrev Keep : S → S → Type 0
  Keep s s' = (k : ℕ) → cron.scheduled k s ≡ true → cron.scheduled k s' ≡ true

  -- What one round of the loop of `StartAll` gives its job, beside the jobs that follow.
  abbrev OneStarted : Job → List Job → S → Job × S → Type 0
  OneStarted job jobs s (job', s') =
      (job'.id ≢ 0 → (cron.scheduled job'.id s' ≡ true) × Unused job'.id jobs)
      × Keep s s'
      × ((k : ℕ) → cron.scheduled k s ≡ true → job.id ≢ k → job'.id ≢ k)

  OneStarted-assigned :
      (job : Job) (jobs : List Job) (s : S) (o : Option ℕ)
      → (cron.add_func job.schedule s).0 ≡ o
      → job.id ≡ 0
      → Runs cron jobs s
      → OneStarted job jobs s (assigned cron job (o, (cron.add_func job.schedule s).1))
  unfolding assigned
  OneStarted-assigned job jobs s none e z r =
      (λ a. absurd (a z), keep_after_add cron job.schedule s, λ k _ h. h)
  OneStarted-assigned job jobs s (some id) e z r =
      let fresh = cron.add_fresh job.schedule s id e in
      (
        λ _. (added_here cron job.schedule s id e, Runs-Unused cron jobs s id fresh.0 r fresh.1),
        keep_after_add cron job.schedule s,
        λ k h _ q. cc fresh.1,
      )

  OneStarted-start_one :
      (job : Job) (jobs : List Job) (s : S)
      → Runs cron (job ∷ jobs) s
      → OneStarted job jobs s (start_one cron job s)
  unfolding start_one
  OneStarted-start_one job jobs s r = elim (Bool-cases (ltb 0 job.id)) [
    | inl e ↦ rw e (r.0, λ k h. h, λ k _ h. h)
    | inr e ↦
        rw e
          (OneStarted-assigned job jobs s (cron.add_func job.schedule s).0 refl (ground arith) r.1)
  ]

  -- What the loop of `StartAll` keeps: the jobs run, entries stay, and a job takes no entry that
  -- the scheduler had before.
  abbrev Started : List Job → S → List Job × S → Type 0
  Started jobs s (jobs', s') =
      Runs cron jobs' s'
      × Keep s s'
      × ((k : ℕ) → cron.scheduled k s ≡ true → Unused k jobs → Unused k jobs')

  Started-start_jobs :
      (jobs : List Job) (s : S) → Runs cron jobs s → Started jobs s (start_jobs cron jobs s)
  unfolding start_jobs
  Started-start_jobs [] s r = (tt, λ k h. h, λ k h u. u)
  Started-start_jobs (job ∷ jobs) s r =
      let (head, keep, apart) = OneStarted-start_one job jobs s r in
      let s' = (start_one cron job s).1 in
      let (runs, kept, unused) =
        Started-start_jobs jobs s' (Runs-mono cron jobs s s' (λ k _. keep k) r.1) in
      (
        (λ a. (kept _ (head a).0, unused _ (head a).0 (head a).1), runs),
        λ k h. kept k (keep k h),
        λ k h u. (apart k h u.0, unused k (keep k h) u.1),
      )

  Runs-stop_jobs : (jobs : List Job) (s s' : S) → Runs cron (stop_jobs cron jobs s).0 s'
  unfolding stop_jobs
  Runs-stop_jobs [] s s' = tt
  Runs-stop_jobs (job ∷ jobs) s s' =
      (λ a. absurd (a refl), Runs-stop_jobs jobs (cron.remove job.id s) s')

  unfoldable pub operate : Operation → Controller S → Controller S
  operate (starts name) c = (start cron name c).1
  operate (stops name) c = (stop cron name c).1
  operate starts_all c = start_all cron c
  operate stops_all c = stop_all cron c

  operate-IsValid : (o : Operation) (c : Controller S) → IsValid cron c → IsValid cron (operate o c)
  unfolding operate start stop start_all stop_all
  operate-IsValid (starts name) c v = IsValid-start_job cron name (find name c.jobs) c v
  operate-IsValid (stops name) c v = IsValid-stop_job cron name (find name c.jobs) c refl v
  operate-IsValid starts_all c v = (Started-start_jobs c.jobs c.scheduler v).0
  operate-IsValid stops_all c v = Runs-stop_jobs c.jobs c.scheduler _

  unfoldable pub operate_all : List Operation → Controller S → Controller S
  operate_all [] c = c
  operate_all (o ∷ os) c = operate_all os (operate o c)

  -- Whatever scripts are started and stopped, one by one or all at once, with whichever schedules
  -- refused: each active script has an entry of the scheduler, and no two scripts share one, if
  -- this was so at the beginning.
  pub operate_all-IsValid :
      (os : List Operation) (c : Controller S) → IsValid cron c → IsValid cron (operate_all os c)
  unfolding operate_all
  operate_all-IsValid [] c v = v
  operate_all-IsValid (o ∷ os) c v = operate_all-IsValid os (operate o c) (operate-IsValid o c v)

  none_active :
      (jobs : List Job) (s : S)
      → paths_where (λ id. not (nat_eq id 0)) (stop_jobs cron jobs s).0 ≡ []
  unfolding paths_where stop_jobs
  none_active [] s = refl
  none_active (job ∷ jobs) s = none_active jobs (cron.remove job.id s)

  -- Stopping all scripts leaves none active.
  pub active_workers-stop_all : (c : Controller S) → active_workers (stop_all cron c) ≡ []
  unfolding active_workers stop_all
  active_workers-stop_all c = none_active c.jobs c.scheduler

nat_pos : (n : ℕ) → 0 < n → nat_eq n 0 ≡ false
nat_pos n h = ground arith

find-set_id :
    (name : String) (id : ℕ) (jobs : List Job) (job : Job)
    → find name jobs ≡ some job
    → find name (set_id name id jobs) ≡ some (record job { id = id })
unfolding find set_id
find-set_id name id [] job h = cc
find-set_id name id (j ∷ jobs) job h = elim (Bool-cases (j.path == name)) [
  | inl e ↦ rw e (rw e (ground arith))
  | inr e ↦ rw e (rw e (find-set_id name id jobs job (rw e at h)))
]

set_id-set_id :
    (name : String) (id : ℕ) (jobs : List Job) (job : Job)
    → find name jobs ≡ some job
    → set_id name job.id (set_id name id jobs) ≡ jobs
unfolding find set_id
set_id-set_id name id [] job h = refl
set_id-set_id name id (j ∷ jobs) job h = elim (Bool-cases (j.path == name)) [
  | inl e ↦ rw e (rw e (ground arith))
  | inr e ↦ rw e (rw e (ap (λ js. j ∷ js) (set_id-set_id name id jobs job (rw e at h))))
]

module _ {S : Type 0} (cron : Cron S) (name : String) (c : Controller S) (job : Job) (id : ℕ)
    (there : find name c.jobs ≡ some job) (idle : job.id ≡ 0)
    (accepted : (cron.add_func job.schedule c.scheduler).0 ≡ some id) where
  started : Controller S
  started = record {
    scheduler = (cron.add_func job.schedule c.scheduler).1;
    jobs = set_id name id c.jobs;
  }

  start-started : start cron name c ≡ (none, started)
  unfolding start started
  start-started = rw there (rw idle (rw accepted))

  stopped_again : stop cron name started ≡ (
    none,
    record { scheduler = cron.remove id started.scheduler; jobs = set_id name 0 started.jobs },
  )
  unfolding stop started
  stopped_again =
      let pos = (cron.add_fresh job.schedule c.scheduler id accepted).0 in
      rw (find-set_id name id c.jobs job there) (rw (nat_pos id pos))

  jobs_back : set_id name 0 started.jobs ≡ c.jobs
  unfolding started
  jobs_back =
      subst (λ n. set_id name n (set_id name id c.jobs) ≡ c.jobs) idle
        (set_id-set_id name id c.jobs job there)

  entries_back :
      (k : ℕ) → cron.scheduled k (cron.remove id started.scheduler) ≡ cron.scheduled k c.scheduler
  unfolding started
  entries_back k =
      let s' = (cron.add_func job.schedule c.scheduler).1 in
      let removed = cron.scheduled_after_remove id k s' in
      let added' = cron.scheduled_after_add job.schedule c.scheduler id k accepted in
      let fresh = (cron.add_fresh job.schedule c.scheduler id accepted).1 in
      elim (Bool-cases (nat_eq id k)) [
        | inl e ↦
            let same : id ≡ k = ground arith in
            removed ∙ rw e (sym (ap (λ n. cron.scheduled n c.scheduler) (sym same) ∙ fresh))
        | inr e ↦ removed ∙ rw e (added' ∙ rw e)
      ]

  -- Starting a script that is known and idle, with a schedule that the scheduler accepts, and then
  -- stopping it, succeeds both times and gives back the jobs and the scheduler's entries as they
  -- were, with no other script touched.
  pub stop-start :
      let c' = (start cron name c).1 in
      let c'' = (stop cron name c').1 in
      ((start cron name c).0 ≡ none)
      × ((stop cron name c').0 ≡ none)
      × (c''.jobs ≡ c.jobs)
      × ((k : ℕ) → cron.scheduled k c''.scheduler ≡ cron.scheduled k c.scheduler)
  stop-start = rw start-started (rw stopped_again (refl, refl, jobs_back, entries_back))

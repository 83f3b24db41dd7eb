-- ===== src/Scripts/Schedule.antt =====
-- The jobs and the scheduler: which scripts run, under which entries.
use go_hass_agent.Prelude.{
  ℕ, ◌<◌, String, ◌≡◌, refl, sym, subst, ◌∙◌, ◌≢◌, true, false, inl, inr, Option, none, some, List,
  [], ◌∷◌, arith, ltb, nat_eq, ◌==◌, Bool-cases, Option-cases,
}
use go_hass_agent.Scripts.Controller.{
  Cron, Job, Controller, find, set_id, added, start_job, stop_job,
}

-- No job of the list has the entry.
abbrev pub Unused : ℕ → List Job → Type 0
Unused id [] = Unit {0}
Unused id (job ∷ jobs) = (job.id ≢ id) × Unused id jobs

nat_ne : (a b : ℕ) → a ≢ b → nat_eq a b ≡ false
nat_ne a b h = ground arith

module _ {S : Type 0} (cron : Cron S) where
  -- Every job that is active has an entry of the scheduler, and no two jobs share one.
  abbrev pub Runs : List Job → S → Type 0
  Runs [] s = Unit {0}
  Runs (job ∷ jobs) s =
      (job.id ≢ 0 → (cron.scheduled job.id s ≡ true) × Unused job.id jobs) × Runs jobs s

  abbrev pub IsValid : Controller S → Type 0
  IsValid c = Runs c.jobs c.scheduler

  -- Entries that are kept keep the jobs running.
  pub Runs-mono :
      (jobs : List Job) (s s' : S)
      → ((id : ℕ) → id ≢ 0 → cron.scheduled id s ≡ true → cron.scheduled id s' ≡ true)
      → Runs jobs s
      → Runs jobs s'
  Runs-mono [] s s' keep r = tt
  Runs-mono (job ∷ jobs) s s' keep r =
      (λ active. (keep job.id active (r.0 active).0, (r.0 active).1), Runs-mono jobs s s' keep r.1)

  -- An entry that no active job has.
  pub Runs-Unused :
      (jobs : List Job) (s : S) (id : ℕ)
      → 0 < id
      → Runs jobs s
      → cron.scheduled id s ≡ false
      → Unused id jobs
  Runs-Unused [] s id pos r h = tt
  Runs-Unused (job ∷ jobs) s id pos r h = (
    λ e. let t = r.0 (λ z. absurd (omega (arith, e, z))) in cc t.0,
    Runs-Unused jobs s id pos r.1 h,
  )

  Unused-set_id :
      (name : String) (id k : ℕ) (jobs : List Job)
      → k ≢ id
      → Unused k jobs
      → Unused k (set_id name id jobs)
  unfolding set_id
  Unused-set_id name id k [] h u = tt
  Unused-set_id name id k (job ∷ jobs) h u = elim (Bool-cases (job.path == name)) [
    | inl e ↦ rw e (λ z. h (sym z), u.1)
    | inr e ↦ rw e (u.0, Unused-set_id name id k jobs h u.1)
  ]

  -- A job may take an entry that no other job has.
  Runs-set_id :
      (name : String) (id : ℕ) (jobs : List Job) (s : S)
      → (id ≢ 0 → (cron.scheduled id s ≡ true) × Unused id jobs)
      → Runs jobs s
      → Runs (set_id name id jobs) s
  unfolding set_id
  Runs-set_id name id [] s h r = tt
  Runs-set_id name id (job ∷ jobs) s h r = elim (Bool-cases (job.path == name)) [
    | inl e ↦ rw e (λ active. ((h active).0, (h active).1.1), r.1)
    | inr e ↦ rw e (
      λ active. (
        (r.0 active).0,
        Unused-set_id name id job.id jobs (λ z. (h (λ o. active (z ∙ o))).1.0 z) (r.0 active).1,
      ),
      Runs-set_id name id jobs s (λ a. ((h a).0, (h a).1.1)) r.1,
    )
  ]

  Unused-find :
      (name : String) (k : ℕ) (jobs : List Job) (job : Job)
      → find name jobs ≡ some job
      → Unused k jobs
      → job.id ≢ k
  unfolding find
  Unused-find name k [] job h u = cc
  Unused-find name k (j ∷ jobs) job h u = elim (Bool-cases (j.path == name)) [
    | inl e ↦ λ z. u.0 (ground arith)
    | inr e ↦ Unused-find name k jobs job (rw e at h) u.1
  ]

  -- Once its job gives an entry up, no job has it.
  Unused-set_id_zero :
      (name : String) (jobs : List Job) (job : Job) (s : S)
      → find name jobs ≡ some job
      → job.id ≢ 0
      → Runs jobs s
      → Unused job.id (set_id name 0 jobs)
  unfolding find set_id
  Unused-set_id_zero name [] job s h a r = tt
  Unused-set_id_zero name (j ∷ jobs) job s h a r = elim (Bool-cases (j.path == name)) [
    | inl e ↦
        let same : j.id ≡ job.id = ground arith in
        rw e (λ z. a (sym z), subst (λ k. Unused k jobs) same (r.0 (λ z. a (sym same ∙ z))).1)
    | inr e ↦
        let there : find name jobs ≡ some job = rw e at h in
        rw e (
          λ z. Unused-find name j.id jobs job there (r.0 (λ o. a (sym z ∙ o))).1 (sym z),
          Unused-set_id_zero name jobs job s there a r.1,
        )
  ]

  Runs-remove :
      (id : ℕ) (jobs : List Job) (s : S)
      → Unused id jobs
      → Runs jobs s
      → Runs jobs (cron.remove id s)
  Runs-remove id [] s u r = tt
  Runs-remove id (job ∷ jobs) s u r = (
    λ a. (
      cron.scheduled_after_remove id job.id s ∙ rw (nat_ne id job.id (λ z. u.0 (sym z))) (r.0 a).0,
      (r.0 a).1,
    ),
    Runs-remove id jobs s u.1 r.1,
  )

  pub keep_after_add :
      (spec : String) (s : S) (k : ℕ)
      → cron.scheduled k s ≡ true
      → cron.scheduled k (cron.add_func spec s).1 ≡ true
  keep_after_add spec s k h = elim (Option-cases (cron.add_func spec s).0) [
    | inl e ↦ cron.refused_add spec s k e ∙ h
    | inr (id, e) ↦ cron.scheduled_after_add spec s id k e ∙ ground arith
  ]

  pub added_here :
      (spec : String) (s : S) (id : ℕ)
      → (cron.add_func spec s).0 ≡ some id
      → cron.scheduled id (cron.add_func spec s).1 ≡ true
  added_here spec s id e = cron.scheduled_after_add spec s id id e ∙ ground arith

  Runs-added :
      (name spec : String) (c : Controller S) (o : Option ℕ)
      → (cron.add_func spec c.scheduler).0 ≡ o
      → IsValid c
      → IsValid (added cron name (o, (cron.add_func spec c.scheduler).1) c).1
  unfolding added
  Runs-added name spec c none e v =
      Runs-mono c.jobs c.scheduler _ (λ k _. keep_after_add spec c.scheduler k) v
  Runs-added name spec c (some id) e v =
      let fresh = cron.add_fresh spec c.scheduler id e in
      Runs-set_id name id c.jobs (cron.add_func spec c.scheduler).1
        (λ _.
          (added_here spec c.scheduler id e, Runs-Unused c.jobs c.scheduler id fresh.0 v fresh.1))
        (Runs-mono c.jobs c.scheduler _ (λ k _. keep_after_add spec c.scheduler k) v)

  pub IsValid-start_job :
      (name : String) (o : Option Job) (c : Controller S)
      → IsValid c
      → IsValid (start_job cron name o c).1
  unfolding start_job
  IsValid-start_job name none c v = v
  IsValid-start_job name (some job) c v = elim (Bool-cases (ltb 0 job.id)) [
    | inl e ↦ rw e v
    | inr e ↦
        rw e (Runs-added name job.schedule c (cron.add_func job.schedule c.scheduler).0 refl v)
  ]

  pub IsValid-stop_job :
      (name : String) (o : Option Job) (c : Controller S)
      → find name c.jobs ≡ o
      → IsValid c
      → IsValid (stop_job cron name o c).1
  unfolding stop_job
  IsValid-stop_job name none c h v = v
  IsValid-stop_job name (some job) c h v = elim (Bool-cases (nat_eq job.id 0)) [
    | inl e ↦ rw e v
    | inr e ↦ rw e (
        Runs-remove job.id (set_id name 0 c.jobs) c.scheduler
          (Unused-set_id_zero name c.jobs job c.scheduler h (ground arith) v)
          (Runs-set_id name 0 c.jobs c.scheduler (λ z. absurd (z refl)) v))
  ]

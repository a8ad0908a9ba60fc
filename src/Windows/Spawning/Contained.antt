-- ===== src/Windows/Spawning/Contained.antt =====
-- `spawn_suspended_in_job` of src/platform/windows/subprocess.rs: the new process waits in a job that
-- kills it when its handle is closed, or nothing is left of it.
use mathlib.Core.Path.{subst}
use crossmist.Common.{
  ℕ, ◌≡◌, ◌≢◌, ◌⊎◌, inl, inr, refl, sym, ap, ◌∙◌, true, false, Bool-cases, ◌&&◌, ◌==◌, eq→==,
  neq→==, Option, List, [], ◌∷◌,
}
use crossmist.Windows.Spawning.{
  done, failed, already_initialized, gave_up, Suspended, created, attrs_dropped, job_dropped,
}
use crossmist.Windows.Spawning.View.{
  View, Run, dead, opens, closes, kill_on_job_close, limits, creates,
}
use crossmist.Windows.Spawning.Calls.{SpawnCalls}

-- Nothing is left: the same handles are open, and each process runs as before or is dead.
abbrev pub NothingLeft : View → View → Type 0
NothingLeft base v =
    (v.owned ≡ base.owned) × ((q : ℕ) → (v.runs q ≡ base.runs q) ⊎ (v.runs q ≡ dead))

-- A process in a job that kills it.
pub record Contained (base : View) (process thread pid job : ℕ) (v : View) : Type 0 where
  pub owned_lem : v.owned ≡ thread ∷ process ∷ job ∷ base.owned
  pub process_apart : process ≢ job
  pub thread_apart : thread ≢ job
  pub kills_lem : v.kills job ≡ true
  pub thread_kills : v.kills thread ≡ false
  pub job_lem : v.job_of pid ≡ job
  pub pid_lem : v.pid_of process ≡ pid
  pub names_lem : v.names ≡ base.names
  pub others : (q : ℕ) → q ≢ pid → v.runs q ≡ base.runs q

-- After a handle is closed, a process runs as before or is dead.
pub closes-runs :
    (h : ℕ) (v : View) (q : ℕ) → ((closes h v).runs q ≡ v.runs q) ⊎ ((closes h v).runs q ≡ dead)
closes-runs h v q = elim (Bool-cases (v.kills h && (v.job_of q == h))) [
  | inl kill ↦ inr (rw kill refl)
  | inr keep ↦ inl (rw keep refl)
]

module _ (calls : SpawnCalls) where
  open calls use {
    World, view, create_job, set_limits, attrs_size, init_attrs, update_attrs, create_process,
    close, thread_pid, create_job_lem, set_limits_lem, attrs_size_lem, init_attrs_lem,
    update_attrs_lem, delete_attrs_lem, create_process_lem, close_lem,
  }

  abbrev pub Suspends : View → Suspended calls → Type 0
  Suspends base (done (process, thread, pid, job), w) =
      Contained base process thread pid job (view w) × (thread_pid thread ≡ pid)
  Suspends base (failed e, w) = NothingLeft base (view w)
  Suspends base (already_initialized, w) = NothingLeft base (view w)
  Suspends base (gave_up, w) = NothingLeft base (view w)

  -- Only the job is there.
  abbrev pub JobAlone : View → ℕ → View → Type 0
  JobAlone base job v = (v.owned ≡ job ∷ base.owned) × (v.runs ≡ base.runs)

  -- The same before the job is dropped.
  abbrev pub Holds : View → ℕ → Suspended calls → Type 0
  Holds base job (done (process, thread, pid, j), w) =
      Contained base process thread pid j (view w) × (thread_pid thread ≡ pid)
  Holds base job (failed e, w) = JobAlone base job (view w)
  Holds base job (already_initialized, w) = JobAlone base job (view w)
  Holds base job (gave_up, w) = JobAlone base job (view w)

  job_closed :
      (base : View) (job : ℕ) (w : World)
      → JobAlone base job (view w)
      → NothingLeft base (view (close job w))
  job_closed base job w (owned, runs) = rw (close_lem job w) (
    rw (owned, eq→== job job refl) refl,
    λ q. elim (closes-runs job (view w) q) [
      | inl same ↦ inl (same ∙ ap (λ (r : ℕ → Run). r q) runs)
      | inr gone ↦ inr gone
    ],
  )

  pub job_dropped-Suspends :
      (base : View) (job : ℕ) (s : Suspended calls)
      → Holds base job s
      → Suspends base (job_dropped calls job s)
  unfolding job_dropped
  job_dropped-Suspends base job (done (process, thread, pid, j), w) h = h
  job_dropped-Suspends base job (failed e, w) h = job_closed base job w h
  job_dropped-Suspends base job (already_initialized, w) h = job_closed base job w h
  job_dropped-Suspends base job (gave_up, w) h = job_closed base job w h

  pub attrs_dropped-Holds :
      (base : View) (job : ℕ) (s : Suspended calls)
      → Holds base job s
      → Holds base job (attrs_dropped calls s)
  unfolding attrs_dropped
  attrs_dropped-Holds base job (done (p, t, pid, j), w) (h, same) =
      (subst (Contained base p t pid j) (sym (delete_attrs_lem w)) h, same)
  attrs_dropped-Holds base job (failed e, w) h =
      subst (JobAlone base job) (sym (delete_attrs_lem w)) h
  attrs_dropped-Holds base job (already_initialized, w) h =
      subst (JobAlone base job) (sym (delete_attrs_lem w)) h
  attrs_dropped-Holds base job (gave_up, w) h =
      subst (JobAlone base job) (sym (delete_attrs_lem w)) h

  module _ (base : View) (job : ℕ) where
    -- The job is made, and kills.
    abbrev pub held : View
    held = limits job kill_on_job_close (opens job base)

    pub held-JobAlone : (w : World) → view w ≡ held → JobAlone base job (view w)
    held-JobAlone w e = subst (JobAlone base job) (sym e) (refl, refl)

    creates-Contained :
        (p t pid : ℕ) → p ≢ job → t ≢ job → Contained base p t pid job (creates p t pid job held)
    creates-Contained p t pid p_j t_j = record {
      owned_lem = refl;
      process_apart = p_j;
      thread_apart = t_j;
      kills_lem =
          rw (neq→== job t (λ e. t_j (sym e)), neq→== job p (λ e. p_j (sym e)), eq→== job job refl)
            refl;
      thread_kills = rw (eq→== t t refl) refl;
      job_lem = rw (eq→== pid pid refl) refl;
      pid_lem = rw (eq→== p p refl) refl;
      names_lem = refl;
      others = λ q differ. rw (neq→== q pid differ) refl;
    }

    pub created-Holds :
        (name : List ℕ) (cmd : Option (List ℕ)) (w : World)
        → view w ≡ held
        → Holds base job (created calls job (create_process name cmd (job ∷ []) w))
    unfolding created
    created-Holds name cmd w e = elim (create_process_lem name cmd job w) [
      | inl (p, t, pid, w', ok_lem, v, fresh, apart, thread) ↦
          let both = rw e at fresh in
          rw ok_lem (
            subst (Contained base p t pid job) (sym (v ∙ ap (creates p t pid job) e))
                (creates-Contained p t pid both.0.0 both.0.1),
            thread,
          )
      | inr (x, w', failed_lem, v) ↦ rw failed_lem (held-JobAlone w' (v ∙ e))
    ]

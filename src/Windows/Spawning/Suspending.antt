-- ===== src/Windows/Spawning/Suspending.antt =====
-- `spawn_suspended_in_job` of src/platform/windows/subprocess.rs, call by call.
use mathlib.Core.Path.{subst}
use crossmist.Common.{ℕ, ◌≡◌, inl, inr, refl, sym, ap, ◌∙◌, Option, List}
use crossmist.Windows.Spawning.{
  Fate, done, failed, already_initialized, gave_up, with_name, after_update, after_init,
  after_limits, with_job, spawn_suspended_in_job, get_own_name,
}
use crossmist.Windows.Spawning.View.{View, opens, kill_on_job_close, limits}
use crossmist.Windows.Spawning.Calls.{SpawnCalls}
use crossmist.Windows.Spawning.Naming.{get_own_name-view}
use crossmist.Windows.Spawning.Contained.{
  NothingLeft, Suspends, Holds, JobAlone, held, held-JobAlone, created-Holds, job_dropped-Suspends,
  attrs_dropped-Holds,
}

module _ (calls : SpawnCalls) where
  open calls use {
    World, view, create_job, set_limits, attrs_size, init_attrs, update_attrs, create_job_lem,
    set_limits_lem, attrs_size_lem, init_attrs_lem, update_attrs_lem,
  }

  module _ (base : View) (job : ℕ) (attempts : ℕ) (cmd : Option (List ℕ)) where
    with_name-Holds :
        (name : Fate (List ℕ) × World)
        → view name.1 ≡ held calls base job
        → Holds calls base job (with_name calls cmd job name)
    unfolding with_name
    with_name-Holds (done name, w) e = created-Holds calls base job name _ w e
    with_name-Holds (failed x, w) e = held-JobAlone calls base job w e
    with_name-Holds (already_initialized, w) e = held-JobAlone calls base job w e
    with_name-Holds (gave_up, w) e = held-JobAlone calls base job w e

    after_update-Holds :
        (w : World)
        → view w ≡ held calls base job
        → Holds calls base job (after_update calls attempts cmd job (update_attrs job w))
    unfolding after_update
    after_update-Holds w e = elim (update_attrs_lem job w) [
      | inl (w', ok_lem, v) ↦ rw ok_lem (
          with_name-Holds (get_own_name calls attempts w')
            (get_own_name-view calls attempts w' ∙ v ∙ e))
      | inr (x, w', failed_lem, v) ↦ rw failed_lem (held-JobAlone calls base job w' (v ∙ e))
    ]

    after_init-Holds :
        (size : ℕ) (w : World)
        → view w ≡ held calls base job
        → Holds calls base job (after_init calls attempts cmd job (init_attrs size w))
    unfolding after_init
    after_init-Holds size w e = elim (init_attrs_lem size w) [
      | inl (w', ok_lem, v) ↦ rw ok_lem (
          attrs_dropped-Holds calls base job
            (after_update calls attempts cmd job (update_attrs job w'))
            (after_update-Holds w' (v ∙ e)))
      | inr (x, w', failed_lem, v) ↦ rw failed_lem (held-JobAlone calls base job w' (v ∙ e))
    ]

    after_limits-Holds :
        (w : World)
        → view w ≡ opens job base
        → Holds calls base job
            (after_limits calls attempts cmd job (set_limits job kill_on_job_close w))
    unfolding after_limits
    after_limits-Holds w e = elim (set_limits_lem job kill_on_job_close w) [
      | inl (w', ok_lem, v) ↦ rw ok_lem (
          after_init-Holds (attrs_size w').0 (attrs_size w').1
            (attrs_size_lem w' ∙ v ∙ ap (limits job kill_on_job_close) e))
      | inr (x, w', failed_lem, v) ↦
          rw failed_lem (subst (JobAlone calls base job) (sym (v ∙ e)) (refl, refl))
    ]

  -- However `spawn_suspended_in_job` ends: the new process is in a job that kills it, or nothing is
  -- left.
  pub spawn_suspended_in_job-Suspends :
      (attempts : ℕ) (cmd : Option (List ℕ)) (w : World)
      → Suspends calls (view w) (spawn_suspended_in_job calls attempts cmd w)
  unfolding spawn_suspended_in_job with_job
  spawn_suspended_in_job-Suspends attempts cmd w = elim (create_job_lem w) [
    | inl (job, w', ok_lem, v) ↦ rw ok_lem (
        job_dropped-Suspends calls (view w) job
          (after_limits calls attempts cmd job (set_limits job kill_on_job_close w'))
          (after_limits-Holds (view w) job attempts cmd w' v))
    | inr (x, w', failed_lem, v) ↦
        rw failed_lem (subst (NothingLeft (view w)) (sym v) (refl, λ q. inl refl))
  ]

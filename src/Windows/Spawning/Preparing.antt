-- ===== src/Windows/Spawning/Preparing.antt =====
-- `_spawn_child` of src/platform/windows/subprocess.rs, what is done with the suspended child.
use mathlib.Core.Path.{subst}
use crossmist.Common.{
  ℕ, ◌+◌, ◌%◌, ◌^◌, ◌<◌, ◌≡◌, inl, inr, refl, sym, ap, ◌∙◌, eq→==, neq→==, arith,
}
use crossmist.Builtins.Sum.{ok_value, err_value}
use crossmist.Windows.Spawning.{Broker}
use crossmist.Windows.Spawning.Child.{
  wrapping_sub, init_data_at, Step, after_resume, after_write, after_read, after_remote_peb,
  after_peb,
}
use crossmist.Windows.Spawning.View.{InitData, View, resumed, silent_breakaway_ok, injects, resumes}
use crossmist.Windows.Spawning.Calls.{SpawnCalls, u32_max}
use crossmist.Windows.Spawning.Contained.{Contained}
use crossmist.Windows.Spawning.Readiness.{
  Informs, Ready, injects-Contained, resumes-Contained, limits-Ready,
}

module _ (calls : SpawnCalls) where
  open calls use {
    World, view, set_limits, duplicate, current_process, query_peb, peb_field, read_memory,
    write_memory, resume_thread, image_base, own_base, init_data_offset, thread_pid, own_base_small,
    set_limits_lem, duplicate_lem, query_own_peb_lem, query_peb_lem, read_memory_lem,
    write_memory_lem, resume_thread_lem,
  }

  module _ (base : View) (p t pid j : ℕ) (same_pid : thread_pid t ≡ pid) (broker : Broker)
      (child_socket : ℕ) where
    -- A child that cannot be prepared is still in the job that kills it.
    abbrev pub Prepares : Step calls → Type 0
    Prepares (ok_value u, w) = Ready base p t pid j broker child_socket (view w)
    Prepares (err_value e, w) = Contained base p t pid j (view w)

    abbrev pub Kept : View → Type 0
    Kept v = Contained base p t pid j v

    limits-Prepares :
        (w : World)
        → Kept (view w)
        → (view w).runs pid ≡ resumed
        → Informs base pid broker child_socket ((view w).injected pid) (view w)
        → Prepares (set_limits j silent_breakaway_ok w)
    limits-Prepares w c runs informs = elim (set_limits_lem j silent_breakaway_ok w) [
      | inl (w', e, v) ↦ rw e (
          subst (Ready base p t pid j broker child_socket) (sym v)
            (limits-Ready c broker child_socket runs informs))
      | inr (x, w', e, v) ↦ rw e (subst Kept (sym v) c)
    ]

    resumes-Informs :
        (v : View)
        → Informs base pid broker child_socket (v.injected pid) v
        → Informs base pid broker child_socket (v.injected pid) (resumes pid v)
    resumes-Informs v informs = record {
      process_named = informs.process_named;
      job_named = informs.job_named;
      socket_named = informs.socket_named;
      pid_named = informs.pid_named;
    }

    after_resume-Prepares :
        (w : World)
        → Kept (view w)
        → Informs base pid broker child_socket ((view w).injected pid) (view w)
        → Prepares (after_resume calls p t j (resume_thread t w))
    unfolding after_resume
    after_resume-Prepares w c informs = elim (resume_thread_lem t w) [
      | inl (n, w', e, fine, v) ↦
          let v' = v ∙ ap (λ q. resumes q (view w)) same_pid in
          rw (e, neq→== n u32_max fine)
            (limits-Prepares w' (subst Kept (sym v') (resumes-Contained c))
              (ap (λ (u : View). u.runs pid) v' ∙ rw (eq→== pid pid refl) refl)
              (subst (λ u. Informs base pid broker child_socket (u.injected pid) u) (sym v')
                (resumes-Informs (view w) informs)))
      | inr (w', e, v) ↦ rw e (subst Kept (sym v) c)
    ]

    module _ (info : InitData) where
      abbrev pub Told : View → Type 0
      Told v = Kept v × Informs base pid broker child_socket info v

      injects-Informs :
          (v : View)
          → v.pid_of p ≡ pid
          → Informs base pid broker child_socket info v
          → Informs base pid broker child_socket
              ((injects (v.pid_of p) info v).injected pid)
              (injects (v.pid_of p) info v)
      injects-Informs v same informs =
          rw (same, eq→== pid pid refl)
            (record {
              process_named = informs.process_named;
              job_named = informs.job_named;
              socket_named = informs.socket_named;
              pid_named = informs.pid_named;
            })

      after_write-Prepares :
          (at : ℕ) (w : World)
          → at ≡ (image_base ((view w).pid_of p) + init_data_offset) % 2 ^ 64
          → Told (view w)
          → Prepares (after_write calls p t j (write_memory p at info w))
      unfolding after_write
      after_write-Prepares at w right (c, informs) = elim (write_memory_lem p at info w right) [
        | inl (w', e, v) ↦ rw e (
            after_resume-Prepares w' (subst Kept (sym v) (injects-Contained c info)) (
              subst (λ u. Informs base pid broker child_socket (u.injected pid) u) (sym v)
                (injects-Informs (view w) c.pid_lem informs)))
        | inr (x, w', e, v) ↦ rw e (subst Kept (sym v) c)
      ]

      -- The address of `INIT_DATA` in the child, whose image may lie elsewhere.
      moved :
          (b b' d : ℕ)
          → b < 2 ^ 64
          → ((b + d) % 2 ^ 64 + wrapping_sub b' b) % 2 ^ 64 ≡ (b' + d) % 2 ^ 64
      moved b b' d h = omega arith

      after_read-Prepares :
          (remote_peb : ℕ) (w : World)
          → Told (view w)
          → Prepares (after_read calls p t j info own_base (read_memory p remote_peb w))
      unfolding after_read
      after_read-Prepares remote_peb w told = elim (read_memory_lem p remote_peb w) [
        | inl (b, w', e, v, right) ↦ rw e (
            after_write-Prepares ((init_data_at calls + wrapping_sub b own_base) % 2 ^ 64) w'
              (moved own_base b init_data_offset own_base_small
                ∙ ap (λ (n : ℕ). (n + init_data_offset) % 2 ^ 64)
                    (right.0 ∙ ap (λ (u : View). image_base (u.pid_of p)) (sym v)))
              (subst Told (sym v) told))
        | inr (x, w', e, v) ↦ rw e (subst Kept (sym v) told.0)
      ]

      pub after_peb-Prepares :
          (w : World)
          → Told (view w)
          → Prepares (after_peb calls p t j info (query_peb current_process w))
      unfolding after_peb after_remote_peb
      after_peb-Prepares w told = elim (query_own_peb_lem w) [
        | inr (x, w', e, v) ↦ rw e (subst Kept (sym v) told.0)
        | inl (peb, w', e, v, own) ↦ elim (query_peb_lem p w') [
          | inr (x, w'', e', v') ↦ rw (e, e') (subst Kept (sym (v' ∙ v)) told.0)
          | inl (remote, w'', e', v', u) ↦
              rw (e, e', own) (after_read-Prepares remote w'' (subst Told (sym (v' ∙ v)) told))
        ]
      ]

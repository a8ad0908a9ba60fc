-- ===== src/Windows/Spawning/Starting.antt =====
-- `_spawn_child` of src/platform/windows/subprocess.rs: a child runs with its handles, or does not run.
use mathlib.Core.Path.{subst}
use crossmist.Common.{
  eq_or_not, ℕ, ◌≡◌, ◌≢◌, ◌⊎◌, inl, inr, refl, sym, ap, ◌∙◌, eq→==, neq→==, none, some, ◌∷◌,
}
use crossmist.Builtins.Sum.{ok_value, err_value}
use crossmist.Windows.Spawning.{
  Fate, done, failed, already_initialized, gave_up, Broker, Suspended, spawn_suspended_in_job,
}
use crossmist.Windows.Spawning.Child.{
  Step, copied_socket, copied_job, copied_process, prepare, scope_end, with_child, spawn_child,
  child_command,
}
use crossmist.Windows.Spawning.View.{InitData, View, resumed, duplicates}
use crossmist.Windows.Spawning.Calls.{SpawnCalls}
use crossmist.Windows.Spawning.Contained.{NothingLeft, Contained, closes-runs, Suspends}
use crossmist.Windows.Spawning.View.{dead, closes}
use crossmist.Windows.Spawning.Suspending.{spawn_suspended_in_job-Suspends}
use crossmist.Windows.Spawning.Readiness.{
  SameName, Informs, Ready, duplicates-new, duplicates-old, duplicates-Contained,
}
use crossmist.Windows.Spawning.Preparing.{Prepares, after_peb-Prepares}

module _ (calls : SpawnCalls) where
  open calls use {
    World, view, duplicate, current_process, query_peb, close, thread_pid, duplicate_lem, close_lem,
  }

  module _ (base : View) (p t pid j : ℕ) (same_pid : thread_pid t ≡ pid) (broker : Broker)
      (child_socket : ℕ) where
    abbrev Good : Step calls → Type 0
    Good = Prepares calls base p t pid j same_pid broker child_socket

    -- A copied handle, with the view after the copy.
    copied :
        (h r : ℕ) (v : View)
        → Contained base p t pid j v
        → SameName base (duplicates h (v.pid_of p) r v) pid r h
    copied h r v c =
        rw (c.pid_lem) (duplicates-new v h pid r ∙ ap (λ (f : ℕ → ℕ). some (f h)) c.names_lem)

    -- An earlier copy.
    still :
        (h r old n : ℕ) (v : View)
        → Contained base p t pid j v
        → v.table pid old ≡ some n
        → v.table (v.pid_of p) r ≡ none
        → (duplicates h (v.pid_of p) r v).table pid old ≡ some n
    still h r old n v c e free =
        rw (c.pid_lem) (duplicates-old v h pid r old n e (rw (c.pid_lem) at free))

    copied_socket-Good :
        (info : InitData) (w : World)
        → Contained base p t pid j (view w)
        → SameName base (view w) pid info.broker_process broker.process
        → SameName base (view w) pid info.broker_job broker.job
        → info.broker_pid ≡ broker.pid
        → Good (copied_socket calls p t j broker child_socket info (duplicate child_socket p w))
    unfolding copied_socket
    copied_socket-Good info w c process_named job_named pid_named =
        elim (duplicate_lem child_socket p w) [
          | inl (r, w', e, v, free) ↦ rw e (
              after_peb-Prepares calls base p t pid j same_pid broker child_socket
                (record info { child_socket = r }) w'
                (
                  subst (Contained base p t pid j) (sym v) (duplicates-Contained c child_socket r),
                  subst (Informs base pid broker child_socket (record info { child_socket = r }))
                      (sym v)
                      (record {
                        process_named =
                            still child_socket r info.broker_process _ (view w) c process_named
                              free;
                        job_named =
                            still child_socket r info.broker_job _ (view w) c job_named free;
                        socket_named = copied child_socket r (view w) c;
                        pid_named = pid_named;
                      }),
                ))
          | inr (x, w', e, v) ↦ rw e (subst (Contained base p t pid j) (sym v) c)
        ]

    copied_job-Good :
        (info : InitData) (w : World)
        → Contained base p t pid j (view w)
        → SameName base (view w) pid info.broker_process broker.process
        → info.broker_pid ≡ broker.pid
        → Good (copied_job calls p t j broker child_socket info (duplicate broker.job p w))
    unfolding copied_job
    copied_job-Good info w c process_named pid_named = elim (duplicate_lem broker.job p w) [
      | inl (r, w', e, v, free) ↦ rw e (
          copied_socket-Good (record info { broker_job = r }) w'
            (subst (Contained base p t pid j) (sym v) (duplicates-Contained c broker.job r))
            (subst (λ u. SameName base u pid info.broker_process broker.process) (sym v)
              (still broker.job r info.broker_process _ (view w) c process_named free))
            (subst (λ u. SameName base u pid r broker.job) (sym v) (copied broker.job r (view w) c))
            pid_named)
      | inr (x, w', e, v) ↦ rw e (subst (Contained base p t pid j) (sym v) c)
    ]

    prepare-Good :
        (w : World)
        → Contained base p t pid j (view w)
        → Good (prepare calls p t j broker child_socket w)
    unfolding prepare copied_process
    prepare-Good w c = elim (duplicate_lem broker.process p w) [
      | inl (r, w', e, v, free) ↦ rw e (
          copied_job-Good
            (record {
              broker_process = r;
              broker_pid = broker.pid;
              broker_job = 0;
              child_socket = 0;
            })
            w' (subst (Contained base p t pid j) (sym v) (duplicates-Contained c broker.process r))
            (subst (λ u. SameName base u pid r broker.process) (sym v)
              (copied broker.process r (view w) c))
            refl)
      | inr (x, w', e, v) ↦ rw e (subst (Contained base p t pid j) (sym v) c)
    ]

  -- The child runs, with the data that its start reads; the process handle is the only new one, and the
  -- other processes run as before.
  pub record Runs (base : View) (broker : Broker) (child_socket process : ℕ) (v : View)
      : Type 0 where
    pub pid : ℕ
    pub owned_lem : v.owned ≡ process ∷ base.owned
    pub runs_lem : v.runs pid ≡ resumed
    pub others : (q : ℕ) → q ≢ pid → v.runs q ≡ base.runs q
    pub informs : Informs base pid broker child_socket (v.injected pid) v

  abbrev pub StartsOrNot : View → Broker → ℕ → Fate ℕ × World → Type 0
  StartsOrNot base broker child_socket (done process, w) =
      Runs base broker child_socket process (view w)
  StartsOrNot base broker child_socket (failed e, w) = NothingLeft base (view w)
  StartsOrNot base broker child_socket (already_initialized, w) = NothingLeft base (view w)
  StartsOrNot base broker child_socket (gave_up, w) = NothingLeft base (view w)

  three_closed :
      (p t j : ℕ) (w : World)
      → view (close p (close t (close j w))) ≡ closes p (closes t (closes j (view w)))
  three_closed p t j w =
      close_lem p (close t (close j w))
      ∙ ap (closes p) (close_lem t (close j w) ∙ ap (closes t) (close_lem j w))

  -- A process that runs as before or is dead does so after a handle is closed.
  either_way :
      (base : View) (h : ℕ) (v : View) (q : ℕ)
      → (v.runs q ≡ base.runs q) ⊎ (v.runs q ≡ dead)
      → ((closes h v).runs q ≡ base.runs q) ⊎ ((closes h v).runs q ≡ dead)
  either_way base h v q k = elim (closes-runs h v q) [
    | inr gone ↦ inr gone
    | inl same ↦ elim k [ inl as_before ↦ inl (same ∙ as_before) | inr gone ↦ inr (same ∙ gone) ]
  ]

  killed :
      (base : View) (p t pid j : ℕ) (v : View)
      → Contained base p t pid j v
      → (q : ℕ) → ((closes j v).runs q ≡ base.runs q) ⊎ ((closes j v).runs q ≡ dead)
  killed base p t pid j v c q = elim (eq_or_not q pid) [
    | inl same ↦ inr (rw (same, c.kills_lem, c.job_lem, eq→== j j refl) refl)
    | inr differ ↦ either_way base j v q (inl (c.others q differ))
  ]

  abandoned :
      (base : View) (p t pid j : ℕ) (v : View)
      → Contained base p t pid j v
      → NothingLeft base (closes p (closes t (closes j v)))
  abandoned base p t pid j v c = (
    rw
        (
          c.owned_lem,
          neq→== t j c.thread_apart,
          neq→== p j c.process_apart,
          eq→== j j refl,
          eq→== t t refl,
          eq→== p p refl,
        )
        refl,
    λ q.
        either_way base p (closes t (closes j v)) q
          (either_way base t (closes j v) q (killed base p t pid j v c q)),
  )

  released :
      (base : View) (p t pid j : ℕ) (broker : Broker) (child_socket : ℕ) (v : View)
      → Ready base p t pid j broker child_socket v
      → Runs base broker child_socket p (closes t (closes j v))
  released base p t pid j broker child_socket v r = record {
    pid = pid;
    owned_lem =
        rw
          (
            r.owned_lem,
            neq→== t j r.thread_apart,
            neq→== p j r.process_apart,
            eq→== j j refl,
            eq→== t t refl,
          )
          refl;
    runs_lem = rw (r.kills_lem, r.thread_kills) r.runs_lem;
    others = λ q differ. rw (r.kills_lem, r.thread_kills) (r.others q differ);
    informs = record {
      process_named = r.informs.process_named;
      job_named = r.informs.job_named;
      socket_named = r.informs.socket_named;
      pid_named = r.informs.pid_named;
    };
  }

  scope_end-StartsOrNot :
      (base : View) (p t pid j : ℕ) (same_pid : thread_pid t ≡ pid) (broker : Broker)
      (child_socket : ℕ) (s : Step calls)
      → Prepares calls base p t pid j same_pid broker child_socket s
      → StartsOrNot base broker child_socket (scope_end calls p t j s)
  unfolding scope_end
  scope_end-StartsOrNot base p t pid j same_pid broker child_socket (ok_value u, w) r =
      subst (Runs base broker child_socket p)
        (sym (close_lem t (close j w) ∙ ap (closes t) (close_lem j w)))
        (released base p t pid j broker child_socket (view w) r)
  scope_end-StartsOrNot base p t pid j same_pid broker child_socket (err_value e, w) c =
      subst (NothingLeft base) (sym (three_closed p t j w)) (abandoned base p t pid j (view w) c)

  with_child-StartsOrNot :
      (base : View) (broker : Broker) (child_socket : ℕ) (s : Suspended calls)
      → Suspends calls base s
      → StartsOrNot base broker child_socket (with_child calls broker child_socket s)
  unfolding with_child
  with_child-StartsOrNot base broker child_socket (done (p, t, pid, j), w) (c, same_pid) =
      scope_end-StartsOrNot base p t pid j same_pid broker child_socket
        (prepare calls p t j broker child_socket w)
        (prepare-Good base p t pid j same_pid broker child_socket w c)
  with_child-StartsOrNot base broker child_socket (failed e, w) h = h
  with_child-StartsOrNot base broker child_socket (already_initialized, w) h = h
  with_child-StartsOrNot base broker child_socket (gave_up, w) h = h

  -- If `_spawn_child` returns a process, then a child runs, the data in its `INIT_DATA` names, by
  -- handles of the child, the broker's process and job and the socket that it was given, with the
  -- broker's ID, its process is the only new handle here, and no other process is touched. If it
  -- returns an error, then no handle is left open here, and each process, a child that was made
  -- included, runs as before or is dead.
  pub spawn_child-StartsOrNot :
      (attempts : ℕ) (broker : Broker) (child_socket : ℕ) (w : World)
      → StartsOrNot (view w) broker child_socket (spawn_child calls attempts broker child_socket w)
  unfolding spawn_child
  spawn_child-StartsOrNot attempts broker child_socket w =
      with_child-StartsOrNot (view w) broker child_socket
        (spawn_suspended_in_job calls attempts (some child_command) w)
        (spawn_suspended_in_job-Suspends calls attempts (some child_command) w)

-- ===== src/Windows/Spawning/Loading.antt =====
-- The broker of src/platform/windows/subprocess.rs in the process that starts it and in a child.
use mathlib.Core.Path.{subst}
use crossmist.Common.{ℕ, ◌≡◌, ◌≢◌, refl, true, eq→==, Option, none, some, ◌∷◌}
use crossmist.Windows.Spawning.{
  Fate, done, failed, already_initialized, gave_up, Broker, Suspended, spawn_suspended_in_job,
  set_broker, with_broker, start_broker,
}
use crossmist.Windows.Spawning.Child.{load_init_handles, spawn_child}
use crossmist.Windows.Spawning.View.{View, resumed, closes}
use crossmist.Windows.Spawning.Calls.{SpawnCalls}
use crossmist.Windows.Spawning.Contained.{NothingLeft, Contained, Suspends}
use crossmist.Windows.Spawning.Suspending.{spawn_suspended_in_job-Suspends}
use crossmist.Windows.Spawning.Readiness.{SameName}
use crossmist.Windows.Spawning.Starting.{Runs, StartsOrNot, spawn_child-StartsOrNot}

module _ (calls : SpawnCalls) where
  open calls use {World, view, close, close_lem}

  loaded :
      (base : View) (broker : Broker) (child_socket p : ℕ) (v : View)
      → Runs calls base broker child_socket p v
      → (pid s : ℕ) × (b : Broker) × (v.runs pid ≡ resumed)
        × (load_init_handles (v.injected pid) none ≡ (done s, some b))
        × SameName base v pid s child_socket
        × SameName base v pid b.process broker.process
        × SameName base v pid b.job broker.job
        × (b.pid ≡ broker.pid)
  unfolding load_init_handles
  loaded base broker child_socket p v r = (
    r.pid,
    (v.injected r.pid).child_socket,
    record {
      process = (v.injected r.pid).broker_process;
      pid = (v.injected r.pid).broker_pid;
      job = (v.injected r.pid).broker_job;
    },
    r.runs_lem,
    refl,
    r.informs.socket_named,
    r.informs.process_named,
    r.informs.job_named,
    r.informs.pid_named,
  )

  -- If `_spawn_child` returns a process, then a child runs in which `load_init_handles` returns a
  -- handle of the socket that `_spawn_child` was given, and sets the broker to handles of the child
  -- for the process and the job of the parent's broker, with its ID.
  pub spawned-load_init_handles :
      (attempts : ℕ) (broker : Broker) (child_socket : ℕ) (w w' : World) (process : ℕ)
      → spawn_child calls attempts broker child_socket w ≡ (done process, w')
      → (pid s : ℕ) × (b : Broker) × ((view w').runs pid ≡ resumed)
        × (load_init_handles ((view w').injected pid) none ≡ (done s, some b))
        × SameName (view w) (view w') pid s child_socket
        × SameName (view w) (view w') pid b.process broker.process
        × SameName (view w) (view w') pid b.job broker.job
        × (b.pid ≡ broker.pid)
  spawned-load_init_handles attempts broker child_socket w w' process h =
      loaded (view w) broker child_socket process (view w') (
        subst (StartsOrNot calls (view w) broker child_socket) h
          (spawn_child-StartsOrNot calls attempts broker child_socket w))

  -- A broker that dies when the last handle of its job is closed; or nothing.
  abbrev pub BrokerOrNot : View → Fate (Unit {0}) × Option Broker × World → Type 0
  BrokerOrNot base (done u, none, w) = ⊥
  BrokerOrNot base (done u, some b, w) =
      ((view w).owned ≡ b.process ∷ b.job ∷ base.owned)
      × ((view w).kills b.job ≡ true)
      × ((view w).job_of b.pid ≡ b.job)
      × ((q : ℕ) → q ≢ b.pid → (view w).runs q ≡ base.runs q)
  BrokerOrNot base (failed e, lock, w) = (lock ≡ none) × NothingLeft base (view w)
  BrokerOrNot base (already_initialized, lock, w) = (lock ≡ none) × NothingLeft base (view w)
  BrokerOrNot base (gave_up, lock, w) = (lock ≡ none) × NothingLeft base (view w)

  thread_closed :
      (base : View) (p t pid j : ℕ) (v : View)
      → Contained base p t pid j v
      → ((closes t v).owned ≡ p ∷ j ∷ base.owned)
        × ((closes t v).kills j ≡ true)
        × ((closes t v).job_of pid ≡ j)
        × ((q : ℕ) → q ≢ pid → (closes t v).runs q ≡ base.runs q)
  thread_closed base p t pid j v c = (
    rw (c.owned_lem, eq→== t t refl) refl,
    c.kills_lem,
    c.job_lem,
    λ q differ. rw c.thread_kills (c.others q differ),
  )

  with_broker-BrokerOrNot :
      (base : View) (s : Suspended calls)
      → Suspends calls base s
      → BrokerOrNot base (with_broker calls none s)
  unfolding with_broker set_broker
  with_broker-BrokerOrNot base (done (p, t, pid, j), w) (c, same) =
      rw (close_lem t w) (thread_closed base p t pid j (view w) c)
  with_broker-BrokerOrNot base (failed e, w) h = (refl, h)
  with_broker-BrokerOrNot base (already_initialized, w) h = (refl, h)
  with_broker-BrokerOrNot base (gave_up, w) h = (refl, h)

  -- `start_broker`, the first time: the broker that is set has its process in a job that kills it
  -- when the last handle of the job is closed, the handles of both are the only new ones, and no
  -- other process is touched; or no broker is set, no handle is left open, and each process runs as
  -- before or is dead.
  pub start_broker-BrokerOrNot :
      (attempts : ℕ) (w : World) → BrokerOrNot (view w) (start_broker calls attempts none w)
  unfolding start_broker
  start_broker-BrokerOrNot attempts w =
      with_broker-BrokerOrNot (view w) (spawn_suspended_in_job calls attempts none w)
        (spawn_suspended_in_job-Suspends calls attempts none w)

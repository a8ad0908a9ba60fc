-- ===== src/Windows/Spawning/Readiness.antt =====
-- What `_spawn_child` of src/platform/windows/subprocess.rs makes of a suspended child.
use crossmist.Common.{ℕ, ◌≡◌, ◌≢◌, refl, ap, false, eq→==, neq→==, none, some, ◌∷◌}
use crossmist.Windows.Spawning.{Broker}
use crossmist.Windows.Spawning.View.{
  InitData, View, resumed, silent_breakaway_ok, limits, duplicates, injects, resumes,
}
use crossmist.Windows.Spawning.Contained.{Contained}

-- A child's handle names what one of ours names.
abbrev pub SameName : View → View → ℕ → ℕ → ℕ → Type 0
SameName base v pid remote handle = v.table pid remote ≡ some (base.names handle)

-- The data that is written for a child, by the handles that it shall have.
pub record Informs (base : View) (pid : ℕ) (broker : Broker) (child_socket : ℕ) (info : InitData)
    (v : View) : Type 0 where
  pub process_named : SameName base v pid info.broker_process broker.process
  pub job_named : SameName base v pid info.broker_job broker.job
  pub socket_named : SameName base v pid info.child_socket child_socket
  pub pid_named : info.broker_pid ≡ broker.pid

-- A child that runs on its own.
pub record Ready (base : View) (process thread pid job : ℕ) (broker : Broker) (child_socket : ℕ)
    (v : View) : Type 0 where
  pub owned_lem : v.owned ≡ thread ∷ process ∷ job ∷ base.owned
  pub process_apart : process ≢ job
  pub thread_apart : thread ≢ job
  pub kills_lem : v.kills job ≡ false
  pub thread_kills : v.kills thread ≡ false
  pub runs_lem : v.runs pid ≡ resumed
  pub others : (q : ℕ) → q ≢ pid → v.runs q ≡ base.runs q
  pub informs : Informs base pid broker child_socket (v.injected pid) v

pub duplicates-new :
    (v : View) (handle pid remote : ℕ)
    → (duplicates handle pid remote v).table pid remote ≡ some (v.names handle)
duplicates-new v handle pid remote = rw (eq→== pid pid refl, eq→== remote remote refl) refl

pub duplicates-old :
    (v : View) (handle pid remote old n : ℕ)
    → v.table pid old ≡ some n
    → v.table pid remote ≡ none
    → (duplicates handle pid remote v).table pid old ≡ some n
duplicates-old v handle pid remote old n h free =
    let apart = neq→== old remote (λ e. let same = ap (v.table pid) e in cc) in
    rw (eq→== pid pid refl, apart) h

module _ {base : View} {p t pid j : ℕ} {v : View} (c : Contained base p t pid j v) where
  pub duplicates-Contained :
      (handle remote : ℕ) → Contained base p t pid j (duplicates handle (v.pid_of p) remote v)
  duplicates-Contained handle remote = record {
    owned_lem = c.owned_lem;
    process_apart = c.process_apart;
    thread_apart = c.thread_apart;
    kills_lem = c.kills_lem;
    thread_kills = c.thread_kills;
    job_lem = c.job_lem;
    pid_lem = c.pid_lem;
    names_lem = c.names_lem;
    others = c.others;
  }

  pub injects-Contained : (info : InitData) → Contained base p t pid j (injects (v.pid_of p) info v)
  injects-Contained info = record {
    owned_lem = c.owned_lem;
    process_apart = c.process_apart;
    thread_apart = c.thread_apart;
    kills_lem = c.kills_lem;
    thread_kills = c.thread_kills;
    job_lem = c.job_lem;
    pid_lem = c.pid_lem;
    names_lem = c.names_lem;
    others = c.others;
  }

  pub resumes-Contained : Contained base p t pid j (resumes pid v)
  resumes-Contained = record {
    owned_lem = c.owned_lem;
    process_apart = c.process_apart;
    thread_apart = c.thread_apart;
    kills_lem = c.kills_lem;
    thread_kills = c.thread_kills;
    job_lem = c.job_lem;
    pid_lem = c.pid_lem;
    names_lem = c.names_lem;
    others = λ q differ. rw (neq→== q pid differ) (c.others q differ);
  }

  pub limits-Ready :
      (broker : Broker) (child_socket : ℕ)
      → v.runs pid ≡ resumed
      → Informs base pid broker child_socket (v.injected pid) v
      → Ready base p t pid j broker child_socket (limits j silent_breakaway_ok v)
  limits-Ready broker child_socket runs informs = record {
    owned_lem = c.owned_lem;
    process_apart = c.process_apart;
    thread_apart = c.thread_apart;
    kills_lem = rw (eq→== j j refl) refl;
    thread_kills = rw (neq→== t j c.thread_apart) c.thread_kills;
    runs_lem = runs;
    others = c.others;
    informs = record {
      process_named = informs.process_named;
      job_named = informs.job_named;
      socket_named = informs.socket_named;
      pid_named = informs.pid_named;
    };
  }

-- ===== src/Windows/Spawning/View.antt =====
-- What Windows knows of handles, jobs and processes, as far as src/platform/windows/subprocess.rs
-- depends on it.
use crossmist.Common.{ℕ, Bool, true, false, ◌&&◌, ◌==◌, Option, some, List, [], ◌∷◌, if◌then◌else◌}

-- `struct InitData`
pub record InitData : Type 0 where
  pub broker_process : ℕ
  pub broker_pid : ℕ
  pub broker_job : ℕ
  pub child_socket : ℕ

-- The state of a process.
pub data Run : Type 0 where
  absent suspended resumed dead : Run

-- `owned` are the handles of this process, and `names` tells what they name. `kills` tells whether
-- a job kills its processes when its handle is closed, `job_of` which job a process belongs to.
-- `table` has the handles of another process, and `injected` the data in its `INIT_DATA`.
pub record View : Type 0 where
  pub owned : List ℕ
  pub names : ℕ → ℕ
  pub pid_of : ℕ → ℕ
  pub kills : ℕ → Bool
  pub job_of : ℕ → ℕ
  pub runs : ℕ → Run
  pub table : ℕ → ℕ → Option ℕ
  pub injected : ℕ → InitData

abbrev pub put {ℓ} : {A : Type ℓ} → ℕ → A → (ℕ → A) → ℕ → A
put a v f b = if b == a then v else f b

abbrev pub without : ℕ → List ℕ → List ℕ
without h [] = []
without h (t ∷ ts) = if t == h then ts else t ∷ without h ts

abbrev pub opens : ℕ → View → View
opens h v = record v { owned = h ∷ v.owned; kills = put h false v.kills }

-- A job whose handle is closed may kill its processes.
abbrev pub closes : ℕ → View → View
closes h v = record v {
  owned = without h v.owned;
  runs = λ q. if v.kills h && (v.job_of q == h) then dead else v.runs q;
}

-- `JOB_OBJECT_LIMIT_KILL_ON_JOB_CLOSE` and `JOB_OBJECT_LIMIT_SILENT_BREAKAWAY_OK`
pub data Limit : Type 0 where
  kill_on_job_close silent_breakaway_ok : Limit

abbrev pub is_kill : Limit → Bool
is_kill kill_on_job_close = true
is_kill silent_breakaway_ok = false

abbrev pub limits : ℕ → Limit → View → View
limits job limit v = record v { kills = put job (is_kill limit) v.kills }

-- A suspended process in a job, with the handles of the process and its thread.
abbrev pub creates : ℕ → ℕ → ℕ → ℕ → View → View
creates process thread pid job v = record v {
  owned = thread ∷ process ∷ v.owned;
  kills = put thread false (put process false v.kills);
  pid_of = put process pid v.pid_of;
  job_of = put pid job v.job_of;
  runs = put pid suspended v.runs;
}

-- A copy of a handle in another process.
abbrev pub duplicates : ℕ → ℕ → ℕ → View → View
duplicates handle pid remote v = record v {
  table = put pid (put remote (some (v.names handle)) (v.table pid)) v.table;
}

abbrev pub injects : ℕ → InitData → View → View
injects pid info v = record v { injected = put pid info v.injected }

abbrev pub resumes : ℕ → View → View
resumes pid v = record v { runs = put pid resumed v.runs }

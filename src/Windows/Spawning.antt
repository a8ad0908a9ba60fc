-- ===== src/Windows/Spawning.antt =====
-- src/platform/windows/subprocess.rs: the broker process, and children that are started suspended, have
-- their handles copied into them and the numbers of these written into their memory.
--
-- The system calls are the fields of the record `SpawnCalls`. A value that owns a handle closes it when
-- its scope ends; these calls of `close` are written out.
pub mod View
pub mod Calls
pub mod Child
pub mod Naming
pub mod Contained
pub mod Suspending
pub mod Readiness
pub mod Preparing
pub mod Starting
pub mod Loading
use crossmist.Common.{
  ℕ, zero, suc, ◌+◌, ◌-◌, ◌*◌, ◌%◌, ◌^◌, ◌==◌, Option, none, some, List, [], ◌∷◌, ◌++◌, take,
  if◌then◌else◌,
}
use crossmist.Builtins.Sum.{Result, ok_value, err_value}
use crossmist.Unix.Socket.{Error}
use crossmist.Windows.Spawning.View.{Limit, kill_on_job_close}
use crossmist.Windows.Spawning.Calls.{SpawnCalls}

-- What a call comes to; `gave_up` has no counterpart in the code: the attempts at the name of the
-- program are used up.
pub data Fate {ℓ} (A : Type ℓ) : Type ℓ where
  done : A → Fate A
  failed : Error → Fate A
  already_initialized gave_up : Fate A

-- `struct Broker`
pub record Broker : Type 0 where
  pub process : ℕ
  pub pid : ℕ
  pub job : ℕ

-- `cmd_line` as a text that ends in a zero
abbrev pub wide : Option (List ℕ) → Option (List ℕ)
wide none = none
wide (some text) = some (text ++ 0 ∷ [])

module _ (calls : SpawnCalls) where
  open calls use {
    World, create_job, set_limits, attrs_size, init_attrs, update_attrs, delete_attrs,
    module_file_name, last_error, create_process, close,
  }

  -- The loop of `get_own_name`, with the size of the buffer.
  unfoldable pub name_loop : ℕ → ℕ → World → Fate (List ℕ) × World
  name_loop zero size w = (gave_up, w)
  name_loop (suc attempts) size w =
      let (len, buffer, w') = module_file_name size w in
      let more = name_loop attempts (size * 2) w' in
      if len == 0
      then (failed (last_error w'), w')
      else (if len == size then more else (done (take (len + 1) buffer), w'))

  unfoldable pub get_own_name : ℕ → World → Fate (List ℕ) × World
  unfolding name_loop
  get_own_name attempts w = name_loop attempts 256 w

  -- `set_job_flags`
  abbrev pub set_job_flags : ℕ → Limit → World → Result (Unit {0}) Error × World
  set_job_flags = set_limits

  -- The process, its thread, the process ID and the job.
  abbrev pub Suspended : Type 0
  Suspended = Fate (ℕ × ℕ × ℕ × ℕ) × World

  unfoldable pub created : ℕ → Result (ℕ × ℕ × ℕ) Error × World → Suspended
  created job (ok_value (process, thread, pid), w) = (done (process, thread, pid, job), w)
  created job (err_value e, w) = (failed e, w)

  unfoldable pub with_name : Option (List ℕ) → ℕ → Fate (List ℕ) × World → Suspended
  unfolding created
  with_name cmd_line job (done name, w) =
      created job (create_process name (wide cmd_line) (job ∷ []) w)
  with_name cmd_line job (failed e, w) = (failed e, w)
  with_name cmd_line job (already_initialized, w) = (already_initialized, w)
  with_name cmd_line job (gave_up, w) = (gave_up, w)

  unfoldable pub after_update :
      ℕ → Option (List ℕ) → ℕ → Result (Unit {0}) Error × World → Suspended
  unfolding with_name
  after_update attempts cmd_line job (ok_value u, w) =
      with_name cmd_line job (get_own_name attempts w)
  after_update attempts cmd_line job (err_value e, w) = (failed e, w)

  -- The destructor of `AttrsGuard`, and the job is closed unless it is returned.
  unfoldable pub attrs_dropped : Suspended → Suspended
  attrs_dropped (result, w) = (result, delete_attrs w)

  unfoldable pub job_dropped : ℕ → Suspended → Suspended
  job_dropped job (done child, w) = (done child, w)
  job_dropped job (failed e, w) = (failed e, close job w)
  job_dropped job (already_initialized, w) = (already_initialized, close job w)
  job_dropped job (gave_up, w) = (gave_up, close job w)

  unfoldable pub after_init : ℕ → Option (List ℕ) → ℕ → Result (Unit {0}) Error × World → Suspended
  unfolding after_update attrs_dropped
  after_init attempts cmd_line job (ok_value u, w) =
      attrs_dropped (after_update attempts cmd_line job (update_attrs job w))
  after_init attempts cmd_line job (err_value e, w) = (failed e, w)

  unfoldable pub after_limits :
      ℕ → Option (List ℕ) → ℕ → Result (Unit {0}) Error × World → Suspended
  unfolding after_init
  after_limits attempts cmd_line job (ok_value u, w) =
      let (size, w') = attrs_size w in after_init attempts cmd_line job (init_attrs size w')
  after_limits attempts cmd_line job (err_value e, w) = (failed e, w)

  unfoldable pub with_job : ℕ → Option (List ℕ) → Result ℕ Error × World → Suspended
  unfolding after_limits job_dropped
  with_job attempts cmd_line (ok_value job, w) =
      job_dropped job (after_limits attempts cmd_line job (set_job_flags job kill_on_job_close w))
  with_job attempts cmd_line (err_value e, w) = (failed e, w)

  unfoldable pub spawn_suspended_in_job : ℕ → Option (List ℕ) → World → Suspended
  unfolding with_job
  spawn_suspended_in_job attempts cmd_line w = with_job attempts cmd_line (create_job w)

  -- `HANDLE_BROKER.set(…)`
  unfoldable pub set_broker :
      Broker → Option Broker → World → Fate (Unit {0}) × Option Broker × World
  set_broker b none w = (done tt, some b, w)
  set_broker b (some old) w = (already_initialized, some old, close b.job (close b.process w))

  unfoldable pub with_broker : Option Broker → Suspended → Fate (Unit {0}) × Option Broker × World
  unfolding set_broker
  with_broker lock (done (process, thread, pid, job), w) =
      set_broker (record { process = process; pid = pid; job = job }) lock (close thread w)
  with_broker lock (failed e, w) = (failed e, lock, w)
  with_broker lock (already_initialized, w) = (already_initialized, lock, w)
  with_broker lock (gave_up, w) = (gave_up, lock, w)

  unfoldable pub start_broker : ℕ → Option Broker → World → Fate (Unit {0}) × Option Broker × World
  unfolding with_broker
  start_broker attempts lock w = with_broker lock (spawn_suspended_in_job attempts none w)

-- ===== src/Process.antt =====
-- src/asynchronous.rs, the parent's side of a subprocess on Unix: `Child::join` and `KillHandle::kill`.
pub mod Killing
pub mod Joining
pub mod Spawning
pub mod Launching
pub mod Remote
use crossmist.Common.{ℕ, zero, suc, Bool, true, false, Option, none, some, List}
use crossmist.Serde.{Object}
use crossmist.Builtins.Sum.{Result, ok_value, err_value}
use crossmist.Unix.Socket.{Error, not_returned, exit_failure, already_joined, RecvSocket}
use crossmist.Channel.{Io, io_ok, io_err, io_panic, io_undefined, gave_up, recv}

-- What `waitpid` reports: the exit status, if the process was not ended by a signal.
abbrev pub Status : Type 0
Status = Option ℕ

-- The system calls on a process.
pub record Kernel : Type 1 where
  pub Table : Type 0
  pub waitpid : ℕ → Table → Result Status Error × Table
  pub kill_process : ℕ → Table → Result (Unit {0}) Error × Table

-- `value.ok_or_else(…)`
unfoldable pub returned : {T : Type 0} → Option T → Io T
returned (some v) = io_ok v
returned none = io_err not_returned

-- From `status.exit_status() == Some(0)` on.
unfoldable pub by_status : {T : Type 0} → Option T → Result Status Error → Io T
unfolding returned
by_status value (err_value e) = io_err e
by_status value (ok_value (some zero)) = returned value
by_status value (ok_value (some (suc code))) = io_err exit_failure
by_status value (ok_value none) = io_err exit_failure

-- `if typeid::of::<T>() == typeid::of::<()>()`: `as_unit` is the value `()` if `T` is that type.
unfoldable pub or_unit : {T : Type 0} → Option T → Option T → Option T
or_unit none value = value
or_unit (some u) value = some u

module _ (kernel : Kernel) where
  open kernel use {Table, waitpid, kill_process}

  -- After `recv().await?`: the flag, the result and the process table.
  unfoldable pub after_output :
      {T : Type 0} → Option T → ℕ → Io (Option T) → Bool → Table → Io T × Bool × Table
  unfolding by_status or_unit
  after_output as_unit pid (io_ok value) may_kill table =
      let (status, table') = waitpid pid table in
      (by_status (or_unit as_unit value) status, false, table')
  after_output as_unit pid (io_err e) may_kill table = (io_err e, may_kill, table)
  after_output as_unit pid io_panic may_kill table = (io_panic, may_kill, table)
  after_output as_unit pid io_undefined may_kill table = (io_undefined, may_kill, table)
  after_output as_unit pid gave_up may_kill table = (gave_up, may_kill, table)

  -- `Child::join`, with nothing else at work.
  unfoldable pub join :
      {T : Type 0}
      → Object T
      → (socket : RecvSocket) → Option T
      → ℕ
      → ℕ
      → Bool
      → socket.Net
      → Bool
      → Table
      → Io T × Bool × Table × socket.Net
  unfolding after_output
  join o socket as_unit pid attempts is_blocking net may_kill table =
      let (output, net') = recv o socket attempts is_blocking net in
      let (result, flag, table') = after_output as_unit pid output may_kill table in
      (result, flag, table', net')

  unfoldable pub signalled : Result (Unit {0}) Error → Io (Unit {0})
  signalled (ok_value u) = io_ok u
  signalled (err_value e) = io_err e

  -- `KillHandle::kill`, with nothing else at work.
  unfoldable pub kill : ℕ → Bool → Table → Io (Unit {0}) × Table
  unfolding signalled
  kill pid false table = (io_err already_joined, table)
  kill pid true table = let (answer, table') = kill_process pid table in (signalled answer, table')

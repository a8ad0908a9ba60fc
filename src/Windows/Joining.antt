-- ===== src/Windows/Joining.antt =====
-- src/asynchronous.rs, the parent's side of a subprocess on Windows: `Child::join` and
-- `KillHandle::kill`.
pub mod Joined
use crossmist.Common.{ℕ, zero, suc, Bool, true, false, Option}
use crossmist.Serde.{Object}
use crossmist.Builtins.Sum.{Result, ok_value, err_value}
use crossmist.Unix.Socket.{Error, exit_failure, already_joined}
use crossmist.Channel.{Runtime, Io, io_ok, io_err, io_panic, io_undefined, gave_up}
use crossmist.Process.{returned, or_unit}
use crossmist.Windows.{HandleBroker}
use crossmist.Windows.Stream.{ReadStream, recv}

-- The system calls on a process: `WaitForSingleObject` without an end, `GetExitCodeProcess` and
-- `TerminateProcess` with the code 1.
pub record ProcessCalls : Type 1 where
  pub Processes : Type 0
  pub wait : ℕ → Processes → Result (Unit {0}) Error × Processes
  pub exit_code : ℕ → Processes → Result ℕ Error × Processes
  pub terminate : ℕ → Processes → Result (Unit {0}) Error × Processes

-- From `if code == 0` on.
unfoldable pub by_code : {T : Type 0} → Option T → Result ℕ Error → Io T
unfolding returned
by_code value (err_value e) = io_err e
by_code value (ok_value zero) = returned value
by_code value (ok_value (suc code)) = io_err exit_failure

module _ (calls : ProcessCalls) where
  open calls use {Processes, wait, exit_code, terminate}

  unfoldable pub after_wait :
      {T : Type 0} → Option T → ℕ → Result (Unit {0}) Error × Processes → Io T × Processes
  unfolding by_code
  after_wait value process (ok_value u, p) =
      let (code, p') = exit_code process p in (by_code value code, p')
  after_wait value process (err_value e, p) = (io_err e, p)

  -- After `recv().await?`: the result, the flag and the processes.
  unfoldable pub after_output :
      {T : Type 0} → Option T → ℕ → Io (Option T) → Bool → Processes → Io T × Bool × Processes
  unfolding after_wait or_unit
  after_output as_unit process (io_ok value) may_kill p =
      let (result, p') = after_wait (or_unit as_unit value) process (wait process p) in
      (result, false, p')
  after_output as_unit process (io_err e) may_kill p = (io_err e, may_kill, p)
  after_output as_unit process io_panic may_kill p = (io_panic, may_kill, p)
  after_output as_unit process io_undefined may_kill p = (io_undefined, may_kill, p)
  after_output as_unit process gave_up may_kill p = (gave_up, may_kill, p)

  -- `Child::join`
  unfoldable pub join :
      {T : Type 0}
      → Object T
      → (stream : ReadStream) → (broker : HandleBroker) → Runtime
      → Option T
      → ℕ
      → broker.Table
      → stream.Net
      → Bool
      → Processes
      → Io T × Bool × Processes
  unfolding after_output
  join o stream broker runtime as_unit process t net may_kill p =
      after_output as_unit process (recv o stream broker runtime t net).0 may_kill p

  unfoldable pub terminated : Result (Unit {0}) Error → Io (Unit {0})
  terminated (ok_value u) = io_ok u
  terminated (err_value e) = io_err e

  -- `KillHandle::kill`
  unfoldable pub kill : ℕ → Bool → Processes → Io (Unit {0}) × Processes
  unfolding terminated
  kill process false p = (io_err already_joined, p)
  kill process true p = let (answer, p') = terminate process p in (terminated answer, p')

-- ===== src/Windows/Joining/Joined.antt =====
-- `Child::join` of src/asynchronous.rs on Windows on the output of a child, and `KillHandle::kill`
-- after it.
use crossmist.Common.{
  ℕ, zero, suc, ◌≡◌, ◌⊎◌, inl, inr, refl, Bool, Option, none, some, List, ◌++◌, length, drop,
}
use crossmist.Serde.{Object}
use crossmist.Serde.Format.{Format}
use crossmist.Serde.Law.{Law}
use crossmist.Builtins.Sum.{Result, ok_value, err_value}
use crossmist.Builtins.Scalars.{IsUnsigned, usize_size}
use crossmist.Unix.Socket.{Error, already_joined, connection_reset}
use crossmist.Channel.{Runtime, Io, io_ok, io_err}
use crossmist.Process.{Status, by_status, or_unit}
use crossmist.Process.Joining.{Verdict, by_status-Verdict}
use crossmist.Windows.{HandleBroker}
use crossmist.Windows.Transfer.{OnWindows}
use crossmist.Windows.Stream.{WriteStream, ReadStream, send, recv}
use crossmist.Windows.Stream.RoundTrip.{recv_sent}
use crossmist.Windows.Joining.{ProcessCalls, by_code, after_wait, after_output, join, kill}

-- An exit code as a status: on Windows there are no signals.
abbrev status_of : Result ℕ Error → Result Status Error
status_of (ok_value code) = ok_value (some code)
status_of (err_value e) = err_value e

by_code-by_status :
    {T : Type 0} (value : Option T) (code : Result ℕ Error)
    → by_code value code ≡ by_status value (status_of code)
unfolding by_code by_status
by_code-by_status value (ok_value zero) = refl
by_code-by_status value (ok_value (suc code)) = refl
by_code-by_status value (err_value e) = refl

module _ (calls : ProcessCalls) (process : ℕ) where
  open calls use {Processes, wait, exit_code}

  -- How the process has ended: its exit code, or an error of one of the two calls.
  abbrev ended_as : Result (Unit {0}) Error × Processes → Result Status Error × Processes
  ended_as (ok_value u, p) = (status_of (exit_code process p).0, (exit_code process p).1)
  ended_as (err_value e, p) = (err_value e, p)

  after_wait-Verdict :
      {T : Type 0} (value : Option T) (waited : Result (Unit {0}) Error × Processes)
      → Verdict value (ended_as waited).0 (after_wait calls value process waited).0
        × ((after_wait calls value process waited).1 ≡ (ended_as waited).1)
  unfolding after_wait by_status
  after_wait-Verdict value (ok_value u, p) = (
    rw (by_code-by_status value (exit_code process p).0)
        (by_status-Verdict value (status_of (exit_code process p).0)),
    refl,
  )
  after_wait-Verdict value (err_value e, p) = (by_status-Verdict value (err_value e), refl)

  -- The process was waited for, and its handle does not kill any more.
  abbrev pub Waited : {T : Type 0} → Option T → Processes → Io T × Bool × Processes → Type 0
  Waited value p (result, flag, p') =
      Verdict value (ended_as (wait process p)).0 result
      × (p' ≡ (ended_as (wait process p)).1)
      × (kill calls process flag p' ≡ (io_err already_joined, p'))

  -- Nothing was done to it.
  abbrev pub Untouched : {T : Type 0} → Bool → Processes → Io T × Bool × Processes → Type 0
  Untouched may_kill p (result, flag, p') =
      (e : Error) × (result ≡ io_err e) × (flag ≡ may_kill) × (p' ≡ p)

  output_value :
      {T : Type 0} (value : Option T) (out : Io (Option T)) (may_kill : Bool) (p : Processes)
      → out ≡ io_ok value
      → Waited value p (after_output calls none process out may_kill p)
  unfolding after_output or_unit kill
  output_value value out may_kill p e =
      let (verdict, same) = after_wait-Verdict value (wait process p) in rw e (verdict, same, refl)

  output_error :
      {T : Type 0} (out : Io (Option T)) (may_kill : Bool) (p : Processes) (e : Error)
      → out ≡ io_err e
      → Untouched may_kill p (after_output calls none process out may_kill p)
  unfolding after_output
  output_error out may_kill p e h = rw h (e, refl, refl, refl)

  module _ (broker : HandleBroker) {T : Type 0} {o o' : Object T} {f : Format T} (law : Law o o' f)
      (out : WriteStream) (back : ReadStream) (runtime runtime' : Runtime) where
    open broker use {Table}

    -- `send` in the child has returned without an error, for an output of a type other than `()`
    -- that the broker can carry, and comes next on the stream of the parent. Then `join` fails
    -- before it has done anything to the process; or it waits, and returns the output if the exit
    -- code is 0, an error if it is another one, and the error of the system where a call fails, and
    -- `kill` fails from then on without a call of the system; or the system has reported a reset
    -- connection, and after the same wait `join` comes to the same with no output.
    pub join_sent :
        (v : T) (valid : f.Valid v)
        → OnWindows broker law v valid
        → (t t₁ : Table) (net net₁ : out.Net) (net' : back.Net) (later : List ℕ)
        → send out broker runtime o v t net ≡ (io_ok tt, t₁, net₁)
        → IsUnsigned usize_size (length (out.sent net₁))
        → back.incoming net' ≡ drop (length (out.sent net)) (out.sent net₁) ++ later
        → (may_kill : Bool) (p : Processes)
        → let result = join calls o' back broker runtime' none process t₁ net' may_kill p in
          Untouched may_kill p result
          ⊎ Waited (some (f.carry v)) p result
          ⊎ (Waited none p result
              × ((back.read_exact usize_size net').0 ≡ err_value connection_reset))
    unfolding join
    join_sent v valid on_windows t t₁ net net₁ net' later h small inc may_kill p =
        let got = (recv o' back broker runtime' t₁ net').0 in
        elim (recv_sent broker law out back runtime runtime' v valid on_windows t t₁ net net₁ net'
          later h small inc) [
            | inl (e, rest) ↦ inr (inl (output_value (some (f.carry v)) got may_kill p e))
            | inr (inl (x, e)) ↦ inl (output_error got may_kill p x e)
            | inr (inr (e, reset)) ↦ inr (inr (output_value none got may_kill p e, reset))
          ]

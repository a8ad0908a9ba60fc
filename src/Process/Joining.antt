-- ===== src/Process/Joining.antt =====
-- `Child::join` on all branches, and `KillHandle::kill` after it.
use mathlib.Core.Path.{subst}
use crossmist.Common.{
  ℕ, zero, suc, ◌<◌, ◌≡◌, ◌⊎◌, inl, inr, refl, Bool, false, Option, none, some, List, [], ◌++◌,
  arith,
}
use crossmist.Serde.{Object}
use crossmist.Serde.Format.{Format}
use crossmist.Serde.Law.{Law}
use crossmist.Builtins.Sum.{Result, ok_value, err_value}
use crossmist.Unix.Socket.{Error, not_returned, exit_failure, Packet, RecvSocket, RecvFails}
use crossmist.Unix.Wire.{Splits}
use crossmist.Channel.{Io, io_ok, io_err, recv}
use crossmist.Channel.Receiving.{OnUnix}
use crossmist.Channel.Patience.{RecvPatience}
use crossmist.Channel.Outcomes.{recv_object, recv_at_end}
use crossmist.Process.{Status, Kernel, returned, by_status, or_unit, after_output, join}

-- What a joined process comes to, by how it ended.
pub data Verdict {T : Type 0} (value : Option T) : Result Status Error → Io T → Type 0 where
  clean : (v : T) → value ≡ some v → Verdict value (ok_value (some 0)) (io_ok v)
  silent : value ≡ none → Verdict value (ok_value (some 0)) (io_err not_returned)
  failing : (code : ℕ) → 0 < code → Verdict value (ok_value (some code)) (io_err exit_failure)
  by_signal : Verdict value (ok_value none) (io_err exit_failure)
  unknown : (e : Error) → Verdict value (err_value e) (io_err e)

pub by_status-Verdict :
    {T : Type 0} (value : Option T) (status : Result Status Error)
    → Verdict value status (by_status value status)
unfolding by_status returned
by_status-Verdict (some v) (ok_value (some zero)) = clean v refl
by_status-Verdict none (ok_value (some zero)) = silent refl
by_status-Verdict value (ok_value (some (suc code))) = failing (suc code) (omega arith)
by_status-Verdict value (ok_value none) = by_signal
by_status-Verdict value (err_value e) = unknown e

or_unit-none : {T : Type 0} (as_unit : Option T) → or_unit as_unit none ≡ as_unit
unfolding or_unit
or_unit-none none = refl
or_unit-none (some u) = refl

module _ (kernel : Kernel) {T : Type 0} (pid : ℕ) where
  open kernel use {Table, waitpid, kill_process}

  -- How `join` ends, with the flag and the process table: when `recv` has failed nothing was waited for,
  -- and otherwise the process was, with the flag cleared.
  abbrev pub Joins : (Error → Type 0) → Option T → Bool → Table → Io T × Bool × Table → Type 0
  Joins Failed value may_kill table (result, flag, table') =
      ((e : Error) × (result ≡ io_err e) × Failed e × (flag ≡ may_kill) × (table' ≡ table))
      ⊎ (Verdict value (waitpid pid table).0 result
          × (flag ≡ false)
          × (table' ≡ (waitpid pid table).1))

  output_error :
      (Failed : Error → Type 0) (as_unit value : Option T) (out : Io (Option T)) (may_kill : Bool)
      (table : Table) (e : Error)
      → out ≡ io_err e
      → Failed e
      → Joins Failed value may_kill table (after_output kernel as_unit pid out may_kill table)
  unfolding after_output
  output_error Failed as_unit value out may_kill table e h fails =
      rw h (inl (e, refl, fails, refl, refl))

  output_value :
      (Failed : Error → Type 0) (as_unit value : Option T) (out : Io (Option T)) (may_kill : Bool)
      (table : Table)
      → out ≡ io_ok value
      → Joins Failed
          (or_unit as_unit value)
          may_kill
          table
          (after_output kernel as_unit pid out may_kill table)
  unfolding after_output
  output_value Failed as_unit value out may_kill table h =
      rw h (inr (by_status-Verdict (or_unit as_unit value) (waitpid pid table).0, refl, refl))

  -- The `recv` of `join` has failed, and the error is the kernel's.
  abbrev pub Fails : (o : Object T) (socket : RecvSocket) → ℕ → Bool → socket.Net → Error → Type 0
  Fails o socket attempts is_blocking net e =
      ((recv o socket attempts is_blocking net).0 ≡ io_err e)
      × RecvFails socket net e (recv o socket attempts is_blocking net).1

  -- What `join` returns, and the flag and process table behind it.
  abbrev pub outcome : {N : Type 0} → Io T × Bool × Table × N → Io T × Bool × Table
  outcome (result, flag, table, net) = (result, flag, table)

  module _ {o o' : Object T} {f : Format T} (law : Law o o' f) (socket : RecvSocket)
      (patient : RecvPatience socket) where
    -- The child has sent its output, a valid value of a type other than `()` that uses nothing but
    -- bytes and descriptors, and there are more attempts than the kernel refuses calls. Then `join`
    -- waits for the process and returns the output if the process exits with status 0, and an error
    -- otherwise; or it fails before it has waited, with an error with which the kernel has answered
    -- a call of `recvmsg`.
    pub join_output :
        (attempts : ℕ) (is_blocking : Bool) (v : T)
        → f.Valid v
        → OnUnix f v
        → (net : socket.Net) (ps later : List Packet) (may_kill : Bool) (table : Table)
        → patient.patience net < attempts
        → Splits (f.encode v).bytes (f.encode v).fds ps
        → socket.incoming net ≡ ps ++ later
        → Joins
            (Fails o' socket attempts is_blocking net)
            (some (f.carry v))
            may_kill
            table
            (outcome (join kernel o' socket none pid attempts is_blocking net may_kill table))
    unfolding join or_unit
    join_output attempts is_blocking v valid on_unix net ps later may_kill table h splits inc =
        let out = (recv o' socket attempts is_blocking net).0 in
        elim (recv_object law socket patient attempts is_blocking v valid on_unix net ps later h
          splits inc) [
            | inl (e, rest) ↦
                output_value (Fails o' socket attempts is_blocking net) none (some (f.carry v)) out
                  may_kill table e
            | inr (x, e, fails) ↦
                output_error (Fails o' socket attempts is_blocking net) none (some (f.carry v)) out
                  may_kill table x e (e, fails)
          ]

  -- The child has ended without output, and there are more attempts than the kernel refuses calls.
  -- Then `join` fails before it has waited, with an error with which the kernel has answered a call
  -- of `recvmsg`; or it waits for the process, and if this exits with status 0, it returns `()`
  -- where this is the type of the output and an error elsewhere, and it returns an error if the
  -- process ends in any other way.
  pub join_silent :
      (o : Object T) (socket : RecvSocket) (patient : RecvPatience socket) (as_unit : Option T)
      (attempts : ℕ) (is_blocking : Bool) (net : socket.Net) (may_kill : Bool) (table : Table)
      → patient.patience net < attempts
      → socket.incoming net ≡ []
      → Joins
          (Fails o socket attempts is_blocking net)
          as_unit
          may_kill
          table
          (outcome (join kernel o socket as_unit pid attempts is_blocking net may_kill table))
  unfolding join
  join_silent o socket patient as_unit attempts is_blocking net may_kill table h end =
      let out = (recv o socket attempts is_blocking net).0 in
      elim (recv_at_end o socket patient attempts is_blocking net h end) [
        | inl e ↦
            subst
              (λ value.
                Joins (Fails o socket attempts is_blocking net) value may_kill table
                  (after_output kernel as_unit pid out may_kill table))
              (or_unit-none as_unit)
              (output_value (Fails o socket attempts is_blocking net) as_unit none out may_kill
                table e)
        | inr (x, e, fails) ↦
            output_error (Fails o socket attempts is_blocking net) as_unit as_unit out may_kill
              table x e (e, fails)
      ]

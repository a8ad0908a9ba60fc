-- ===== src/Process/Remote.antt =====
-- src/asynchronous.rs as a whole on Unix: a function runs in another process. `spawn` in the parent,
-- `handle_entry` in the child and `Child::join` in the parent, on the two ends of one channel.
use mathlib.Core.Path.{subst}
use crossmist.Common.{
  ℕ, ◌<◌, ◌≡◌, inl, inr, sym, ap, ◌∙◌, Bool, true, false, Option, none, some, List, [], ◌∷◌, ◌++◌,
}
use crossmist.Serde.{Object}
use crossmist.Serde.Format.{Format}
use crossmist.Serde.Law.{Law}
use crossmist.Unix.Socket.{Packet, SendSocket, RecvSocket}
use crossmist.Unix.Wire.{Splits}
use crossmist.Channel.{Runtime, Io, io_ok, io_err, io_panic, io_undefined, gave_up, send}
use crossmist.Channel.Receiving.{OnUnix}
use crossmist.Channel.Sending.{Puts, send-Puts}
use crossmist.Channel.Patience.{RecvPatience}
use crossmist.Start.{Descriptors, Enters, init, child_arguments, child_starts}
use crossmist.Process.{Kernel, join}
use crossmist.Process.Joining.{Joins, Fails, outcome, join_output}
use crossmist.Process.Launching.{spawn}
use crossmist.Process.Launching.Calls.{LaunchCalls}
use crossmist.Process.Launching.Launched.{Launches, arg_fds, spawn-Launches}
use crossmist.Process.Spawning.{Exit, exited, after_call, EntryPoint, entrypoint, handle_entry}
use crossmist.Process.Spawning.Running.{IsAt, message, handle_entry-Ran}

abbrev Ended : (out : SendSocket) → out.Net → Exit × out.Net → Type 0
Ended out net' result = result ≡ (exited, net')

-- A child that has exited has sent its output.
output_sent :
    (out : SendSocket) (P : List Packet → Type 0) (net net' : out.Net) (t : Io (Unit {0}) × out.Net)
    → Puts out P net t
    → Ended out net' (after_call t.0, t.1)
    → out.sent net ≡ []
    → P (out.sent net')
unfolding after_call
output_sent out P net net' (io_ok u, n) (ps, e, p) same nothing =
    subst P
      (sym (ap (λ (r : Exit × out.Net). out.sent r.1) (sym same) ∙ e ∙ ap (λ l. l ++ ps) nothing)) p
output_sent out P net net' (io_err x, n) puts same nothing =
    let k = ap (λ (r : Exit × out.Net). r.0) same in cc
output_sent out P net net' (io_panic, n) puts same nothing = absurd puts
output_sent out P net net' (io_undefined, n) puts same nothing = absurd puts
output_sent out P net net' (gave_up, n) puts same nothing =
    let k = ap (λ (r : Exit × out.Net). r.0) same in cc

module _ (descriptors : Descriptors) (calls : LaunchCalls) (out : SendSocket) (kernel : Kernel)
    {Args Ret : Type 0} {oa oa' : Object Args} {fa : Format Args} (args_law : Law oa oa' fa)
    {o o' : Object Ret} {f : Format Ret} (law : Law o o' f) (func : Args → Ret)
    (base base' entry entry' : ℕ) (is_at : IsAt base base' entry entry') (attempts : ℕ)
    (entry_at : ℕ → Option (EntryPoint out))
    (found : entry_at entry' ≡ some (entrypoint out oa' o func false attempts)) where
  open calls use {World, started, sent}

  -- The child was started, and its `init` takes it to `handle_entry` with its end of the channel,
  -- unless the system refuses a call of `fcntl`.
  abbrev pub Begun : World → World → ℕ → Type 0
  Begun w w' pid =
      (child : ℕ) × (started w' ≡ (pid, child_arguments child) ∷ started w)
      × ((files : descriptors.Files)
          → child < 2147483648
          → Enters descriptors child files (init descriptors false (child_arguments child) files))

  message_of :
      (runtime : Runtime) (args : Args) (w w' : World) (pid local : ℕ) (own : List ℕ)
      → calls.owned w ≡ arg_fds calls args_law base base' entry attempts runtime args ++ own
      → spawn calls oa base entry attempts runtime args true w ≡ (io_ok (pid, local), w')
      → Begun w w' pid
        × Splits
            ((message args_law o func false out attempts base base').encode
              (entry, (args, tt))).bytes
            ((message args_law o func false out attempts base base').encode (entry, (args, tt))).fds
            (sent local w')
  message_of runtime args w w' pid local own held_lem e =
      let (child, owned_lem, started_lem, splits) =
        subst (Launches calls args_law base base' entry attempts runtime args own w) e (
          spawn-Launches calls args_law base base' entry attempts runtime args true own w
            held_lem) in
      (
        (
          child,
          started_lem,
          λ files h. (child_starts descriptors child (child_arguments child) files h).0,
        ),
        splits,
      )

  module _ (back : RecvSocket) (patient : RecvPatience back) where
    -- The child has the message of the parent before it and has exited.
    output_of :
        (args : Args) (sent_lem : List Packet) (net net' : out.Net) (netc : back.Net)
        (later : List Packet)
        → fa.Valid args
        → OnUnix (message args_law o func false out attempts base base') (entry, (args, tt))
        → patient.patience netc < attempts
        → Splits
            ((message args_law o func false out attempts base base').encode
              (entry, (args, tt))).bytes
            ((message args_law o func false out attempts base base').encode (entry, (args, tt))).fds
            sent_lem
        → back.incoming netc ≡ sent_lem ++ later
        → out.sent net ≡ []
        → handle_entry out base' entry_at back attempts netc net ≡ (exited, net')
        → Splits
            (f.encode (func (fa.carry args))).bytes
            (f.encode (func (fa.carry args))).fds
            (out.sent net')
    output_of args ps net net' netc later valid on_unix h splits inc nothing e =
        elim (handle_entry-Ran args_law o func false out attempts base base' entry entry' is_at
          entry_at found args net back patient netc ps later valid on_unix h splits inc) [
            | inl (x, why, rest) ↦ let k = ap (λ (r : Exit × out.Net). r.0) (sym x ∙ e) in cc
            | inr ran ↦
                output_sent out _ net net' (send out o attempts true (func (fa.carry args)) net)
                  (send-Puts out law attempts true (func (fa.carry args)) net) (sym ran ∙ e) nothing
          ]

    -- A call of a function in another process. `spawn` has returned a child, which finds on its end
    -- of the channel what was sent, and has sent nothing itself before; the entry point of the
    -- function lies at the same offset from the base addresses of both processes; `handle_entry` in
    -- the child comes to the exit code 0; and the parent finds on its end what the child has sent.
    -- The arguments own the descriptors that they leave in a serializer; they, and the output on
    -- the arguments as they arrive, are valid and use nothing but bytes and descriptors, the output
    -- has a type other than `()`, and there are more attempts than the kernels refuse calls. Then
    -- the child was started with arguments with which `init` enters `handle_entry` on its end of the
    -- channel, if that has a number of 31 bits, or panics because the system refuses to make it
    -- close on `exec`; and `join` waits and returns the output of the function on these arguments if
    -- the process has exited with status 0, and an error otherwise, or it fails before it has
    -- waited, with an error with which the kernel has answered a call of `recvmsg`.
    pub remote_call :
        (runtime : Runtime) (args : Args) (w w' : World) (pid local : ℕ)
        → fa.Valid args
        → OnUnix (message args_law o func false out attempts base base') (entry, (args, tt))
        → f.Valid (func (fa.carry args))
        → OnUnix f (func (fa.carry args))
        → (own : List ℕ)
        → calls.owned w ≡ arg_fds calls args_law base base' entry attempts runtime args ++ own
        → spawn calls oa base entry attempts runtime args true w ≡ (io_ok (pid, local), w')
        → (net net' : out.Net) (netc : back.Net) (later : List Packet)
        → back.incoming netc ≡ sent local w' ++ later
        → patient.patience netc < attempts
        → out.sent net ≡ []
        → handle_entry out base' entry_at back attempts netc net ≡ (exited, net')
        → (socket : RecvSocket) (patient' : RecvPatience socket) (is_blocking may_kill : Bool)
          (netp : socket.Net) (behind : List Packet) (table : kernel.Table)
        → socket.incoming netp ≡ out.sent net' ++ behind
        → patient'.patience netp < attempts
        → Begun w w' pid
          × Joins kernel pid
              (Fails kernel pid o' socket attempts is_blocking netp)
              (some (f.carry (func (fa.carry args))))
              may_kill
              table
              (outcome kernel pid
                (join kernel o' socket none pid attempts is_blocking netp may_kill table))
    remote_call runtime args w w' pid local valid on_unix valid' on_unix' own held_lem spawned net
          net' netc later inc h nothing e socket patient' is_blocking may_kill netp behind table
          inc' h' =
        let (begun, splits) = message_of runtime args w w' pid local own held_lem spawned in
        (
          begun,
          join_output kernel pid law socket patient' attempts is_blocking (func (fa.carry args))
              valid' on_unix' netp (out.sent net') behind may_kill table h'
              (output_of args (sent local w') net net' netc later valid on_unix h splits inc nothing
                e)
              inc',
        )

-- ===== src/Windows/Remote.antt =====
-- src/asynchronous.rs as a whole on Windows: a function runs in another process. `spawn` in the parent,
-- `crossmist_main` in the child and `Child::join` in the parent.
use mathlib.Core.Path.{subst}
use crossmist.Common.{
  ℕ, ◌≡◌, ◌⊎◌, inl, inr, sym, ap, ◌∙◌, Bool, true, false, Option, none, some, List, ◌++◌, length,
  length-append, drop, drop-append, arith, [],
}
use crossmist.Common.Bytes.{le_bytes}
use crossmist.Serde.{Object}
use crossmist.Serde.Format.{Format}
use crossmist.Serde.Law.{Law}
use crossmist.Builtins.Sum.{Result, ok_value, err_value}
use crossmist.Builtins.Scalars.{IsUnsigned, usize_size}
use crossmist.Builtins.Tuple.{tuple_object}
use crossmist.Unix.Socket.{Error, connection_reset}
use crossmist.Channel.{Runtime, blocking, Io, io_ok, io_err, io_panic, io_undefined, gave_up}
use crossmist.Process.Spawning.{Exit, exited, after_call}
use crossmist.Process.Spawning.Running.{IsAt}
use crossmist.Windows.{HandleBroker}
use crossmist.Windows.Transfer.{OnWindows}
use crossmist.Windows.Pairing.Calls.{SocketCalls}
use crossmist.Windows.Spawning.{Broker}
use crossmist.Windows.Spawning.View.{InitData}
use crossmist.Windows.Spawning.Calls.{SpawnCalls}
use crossmist.Windows.Spawning.Child.{load_init_handles}
use crossmist.Windows.Stream.{WriteStream, ReadStream, send}
use crossmist.Windows.Stream.Delivery.{frame}
use crossmist.Windows.Launching.{Parent, spawn}
use crossmist.Windows.Launching.Launched.{Launches, Told, spawn-Tells}
use crossmist.Windows.Entry.{EntryPoint, entrypoint, crossmist_main}
use crossmist.Windows.Entry.Running.{Ran, message-Law, message-Valid, crossmist_main-Ran}
use crossmist.Windows.Joining.{ProcessCalls, join}
use crossmist.Windows.Joining.Joined.{Untouched, Waited, join_sent}

-- A call that lets the child exit has sent its value.
call_sent :
    {A B : Type 0} (t t' : A) (net net' : B) (sent : Io (Unit {0}))
    → ◌≡◌ {A = Exit × A × B} (after_call sent, t, net) (exited, t', net')
    → ◌≡◌ {A = Io (Unit {0}) × A × B} (sent, t, net) (io_ok tt, t', net')
unfolding after_call
call_sent {A} {B} t t' net net' (io_ok u) e = ap (λ (r : Exit × A × B). (io_ok tt, r.1, r.2)) e
call_sent {A} {B} t t' net net' (io_err x) e = let k = ap (λ (r : Exit × A × B). r.0) e in cc
call_sent {A} {B} t t' net net' io_panic e = let k = ap (λ (r : Exit × A × B). r.0) e in cc
call_sent {A} {B} t t' net net' io_undefined e = let k = ap (λ (r : Exit × A × B). r.0) e in cc
call_sent {A} {B} t t' net net' gave_up e = let k = ap (λ (r : Exit × A × B). r.0) e in cc

frame_small :
    (before serialized : List ℕ)
    → IsUnsigned usize_size (length (before ++ frame serialized))
    → IsUnsigned usize_size (length serialized)
frame_small before serialized h = omega (
  arith,
  length-append {0} before (frame serialized),
  length-append {0} (le_bytes usize_size (length serialized)) serialized,
)

module _ (sockets : SocketCalls) (calls : SpawnCalls) (procs : ProcessCalls) (broker : HandleBroker)
    (out outc : WriteStream) (back backc : ReadStream) {Args Ret : Type 0} {oa oa' : Object Args}
    {fa : Format Args} (args_law : Law oa oa' fa) {o o' : Object Ret} {f : Format Ret}
    (law : Law o o' f) (func : Args → Ret) (base base' entry entry' : ℕ)
    (is_at : IsAt base base' entry entry') (entry_at : ℕ → Option (EntryPoint broker outc))
    (found : entry_at entry' ≡ some (entrypoint broker outc oa' o func false)) where
  open broker use {Table}

  -- The child sends the output last, before it exits.
  abbrev Sends : Ret → Table → outc.Net → Table → outc.Net → Type 0
  Sends v t net t' net' = send outc broker blocking o v t net ≡ (io_ok tt, t', net')

  output_sent :
      (args : Args) (t t' : Table) (net net' : outc.Net) (result : Exit × Table × outc.Net)
      → Ran args_law o func false broker outc args t net result
      → result ≡ (exited, t', net')
      → Sends (func args) t net t' net'
  output_sent args t t' net net' result ran e =
      let (sent, t₁, net₁) = send outc broker blocking o (func args) t net in
      call_sent t₁ t' net₁ net' sent (sym ran ∙ e)

  module _ (runtime : Runtime) (attempts : ℕ) (try_new : ℕ → Result (Unit {0}) Error)
      (handle_broker : Broker) (args : Args) (valid : fa.Valid args)
      (on_windows : OnWindows broker
        (message-Law args_law o func false broker outc base base' entry entry' is_at entry_at found)
        (entry, (args, tt))
        (message-Valid args_law o func false broker outc base base' entry entry' is_at entry_at
          found args valid))
      (valid' : f.Valid (func (fa.carry args)))
      (on_windows' : OnWindows broker law (func (fa.carry args)) valid') where
    abbrev Whole : Type 0
    Whole = Parent sockets calls broker out back

    told :
        (p p' : Whole) (process local : ℕ)
        → spawn sockets calls broker out back oa base entry attempts runtime try_new handle_broker
            args true p
          ≡ (io_ok (process, local), p')
        → Told sockets calls broker out back oa base entry attempts runtime try_new handle_broker
            args p p'
    told p p' process local e =
        let (child, q, paired, ends, own, begun, t) =
          subst
            (Launches sockets calls broker out back oa base entry attempts runtime try_new
              handle_broker args p)
            e
            (spawn-Tells sockets calls broker out back oa base entry attempts runtime try_new
              handle_broker args true p) in
        t

    -- What the child has sent when it has exited, from the signal on.
    output_of :
        (p p' : Whole) (netc : backc.Net) (later : List ℕ) (init_data : InitData) (t t' : Table)
        (meanwhile : Table → Table) (net net' : outc.Net)
        → Told sockets calls broker out back oa base entry attempts runtime try_new handle_broker
            args p p'
        → IsUnsigned usize_size (length (out.sent p'.to_child))
        → backc.incoming netc ≡ drop (length (out.sent p.to_child)) (out.sent p'.to_child) ++ later
        → meanwhile (send outc broker blocking (tuple_object [] tt) tt t net).1 ≡ p'.table
        → crossmist_main broker outc base' entry_at backc meanwhile
            (ok_value tt)
            (load_init_handles init_data none)
            netc
            t
            net
          ≡ (exited, t', net')
        → (t₃ : Table) × Sends
            (func (fa.carry args))
            t₃
            (send outc broker blocking (tuple_object [] tt) tt t net).2
            t'
            net'
    output_of p p' netc later init_data t t' meanwhile net net' (got, t₀, serialized, r, ser, s)
          small inc same e =
        elim (crossmist_main-Ran args_law o func false broker outc base base' entry entry' is_at
          entry_at found backc args valid on_windows init_data serialized later t t₀ p'.table
          meanwhile net netc ser
          (frame_small (out.sent p.to_child) serialized
            (subst (λ b. IsUnsigned usize_size (length b)) s small))
          (inc
            ∙ ap (λ b. drop (length (out.sent p.to_child)) b ++ later) s
            ∙ ap (λ b. b ++ later) (drop-append (out.sent p.to_child) (frame serialized)))
          same) [
            | inl k ↦ let clash = sym k ∙ ap (λ (x : Exit × Table × outc.Net). x.0) e in cc
            | inr (t₂, t₃, net₁, signal, ran) ↦ (
              t₃,
              subst (λ n. Sends (func (fa.carry args)) t₃ n t' net')
                  (sym (ap (λ (x : Io (Unit {0}) × Table × outc.Net). x.2) signal))
                  (output_sent (fa.carry args) t₃ t' net₁ net' _ ran e),
            )
          ]

    -- A call of a function in another process. `spawn` has returned a child, which finds on its end
    -- of the channel what `spawn` has put there; the entry point lies at the same offset from the
    -- base addresses of both processes; `crossmist_main` in the child comes to the exit code 0, and
    -- finds the broker's handles, behind its signal, as `spawn` has left them; and the parent finds
    -- on its end what the child has sent behind the signal. The arguments, and the output on the
    -- arguments as they arrive, are valid and can be carried by the broker, the output has a type
    -- other than `()`, and `usize` counts what is sent. Then `join` fails before it has done
    -- anything to the process; or it waits, and returns the output of the function on these
    -- arguments if the exit code is 0, an error if it is another one, and the error of the system
    -- where a call fails, and `kill` fails from then on; or the system has reported a reset
    -- connection, and after the same wait `join` comes to the same with no output.
    pub windows_call :
        (p p' : Whole) (process local : ℕ)
        → spawn sockets calls broker out back oa base entry attempts runtime try_new handle_broker
            args true p
          ≡ (io_ok (process, local), p')
        → IsUnsigned usize_size (length (out.sent p'.to_child))
        → (netc : backc.Net) (later : List ℕ)
        → backc.incoming netc ≡ drop (length (out.sent p.to_child)) (out.sent p'.to_child) ++ later
        → (init_data : InitData) (t t' : Table) (meanwhile : Table → Table) (net net' : outc.Net)
        → meanwhile (send outc broker blocking (tuple_object [] tt) tt t net).1 ≡ p'.table
        → crossmist_main broker outc base' entry_at backc meanwhile
            (ok_value tt)
            (load_init_handles init_data none)
            netc
            t
            net
          ≡ (exited, t', net')
        → IsUnsigned usize_size (length (outc.sent net'))
        → (netp : back.Net) (behind : List ℕ)
        → back.incoming netp
          ≡ drop
              (length (outc.sent (send outc broker blocking (tuple_object [] tt) tt t net).2))
              (outc.sent net')
            ++ behind
        → (may_kill : Bool) (q : procs.Processes)
        → let result = join procs o' back broker runtime none process t' netp may_kill q in
          Untouched procs process may_kill q result
          ⊎ Waited procs process (some (f.carry (func (fa.carry args)))) q result
          ⊎ (Waited procs process none q result
              × ((back.read_exact usize_size netp).0 ≡ err_value connection_reset))
    windows_call p p' process local spawned small netc later inc init_data t t' meanwhile net net'
          same e small' netp behind inc' may_kill q =
        let (t₃, sends) =
          output_of p p' netc later init_data t t' meanwhile net net'
            (told p p' process local spawned) small inc same e in
        join_sent procs process broker law outc back blocking runtime (func (fa.carry args)) valid'
          on_windows' t₃ t' (send outc broker blocking (tuple_object [] tt) tt t net).2 net' netp
          behind sends small' inc' may_kill q

-- ===== src/Windows/Entry.antt =====
-- src/platform/windows/entry.rs, `crossmist_main`, with `handle_entry` of src/asynchronous.rs on
-- Windows and the entry point that `spawn` makes of a function there.
pub mod Running
use crossmist.Common.{ℕ, Bool, true, false, Option, none, some, [], if◌then◌else◌}
use crossmist.Serde.{Deserializer, Outcome, ok, panicked, undefined, Object, deserialize}
use crossmist.Builtins.Sum.{Result, ok_value, err_value}
use crossmist.Builtins.Tuple.{tuple_object}
use crossmist.Relocation.{ptr_object}
use crossmist.Unix.Socket.{Error}
use crossmist.Channel.{blocking, Io, io_ok, io_err, io_panic, io_undefined, gave_up}
use crossmist.Process.Spawning.{
  fake_object, Exit, exited, panics, undefined_behaviour, hangs, after_call,
}
use crossmist.Windows.{HandleBroker}
use crossmist.Windows.Spawning.{Fate, done, failed, already_initialized, gave_up, Broker}
use crossmist.Windows.Stream.{WriteStream, ReadStream, send, recv}

module _ (broker : HandleBroker) (out : WriteStream) where
  open broker use {Table}

  -- How the child ends, with the broker's handles and the stream.
  abbrev pub Ending : Type 0
  Ending = Exit × Table × out.Net

  abbrev pub EntryPoint : Type 0
  EntryPoint = Deserializer → Table → out.Net → Ending

  module _ {Args Ret : Type 0} (o : Object Args) (o' : Object Ret) (func : Args → Ret)
      (is_unit : Bool) where
    unfoldable pub call_with : Outcome (Args × Deserializer) → Table → out.Net → Ending
    unfolding after_call
    call_with (ok (args, d)) t net =
        let output = func args in
        let (result, t', net') = send out broker blocking o' output t net in
        if is_unit then (exited, t, net) else (after_call result, t', net')
    call_with (panicked p) t net = (panics, t, net)
    call_with undefined t net = (undefined_behaviour, t, net)

    -- The closure `entrypoint` in `spawn`. `is_unit` tells whether `Ret` is `()`.
    unfoldable pub entrypoint : EntryPoint
    unfolding call_with
    entrypoint d t net = call_with (deserialize o d) t net

  -- `(entry.get_fn())(…)`
  unfoldable pub enter : Option EntryPoint → Deserializer → Table → out.Net → Ending
  enter (some entry) d t net = entry d t net
  enter none d t net = (undefined_behaviour, t, net)

  module _ (base : ℕ) (entry_at : ℕ → Option EntryPoint) where
    unfoldable pub read_entry : Outcome (ℕ × Deserializer) → Table → out.Net → Ending
    unfolding enter
    read_entry (ok (entry, d)) t net = enter (entry_at entry) d t net
    read_entry (panicked p) t net = (panics, t, net)
    read_entry undefined t net = (undefined_behaviour, t, net)

    unfoldable pub after_recv : Io (Option Deserializer) → Table → out.Net → Ending
    unfolding read_entry
    after_recv (io_ok (some d)) t net = read_entry (deserialize (ptr_object base) d) t net
    after_recv (io_ok none) t net = (panics, t, net)
    after_recv (io_err e) t net = (panics, t, net)
    after_recv io_panic t net = (panics, t, net)
    after_recv io_undefined t net = (undefined_behaviour, t, net)
    after_recv gave_up t net = (hangs, t, net)

    module _ (back : ReadStream) where
      -- `handle_entry`
      unfoldable pub handle_entry : back.Net → Table → out.Net → Ending
      unfolding after_recv
      handle_entry net' t net =
          let (result, t', rest) = recv fake_object back broker blocking t net' in
          after_recv result t' net

      -- `signal.send(()).expect(…)` and what follows. Other processes do `meanwhile` with the broker's
      -- handles before the message is there.
      module _ (meanwhile : Table → Table) where
        unfoldable pub after_signal : Io (Unit {0}) × Table × out.Net → back.Net → Ending
        unfolding handle_entry
        after_signal (io_ok u, t, net) net' = handle_entry net' (meanwhile t) net
        after_signal (io_err e, t, net) net' = (panics, t, net)
        after_signal (io_panic, t, net) net' = (panics, t, net)
        after_signal (io_undefined, t, net) net' = (undefined_behaviour, t, net)
        after_signal (gave_up, t, net) net' = (hangs, t, net)

        -- `load_init_handles` has given the socket whose ends `out` and `back` are.
        unfoldable pub with_socket : Fate ℕ × Option Broker → back.Net → Table → out.Net → Ending
        unfolding after_signal
        with_socket (done socket, lock) net' t net =
            after_signal (send out broker blocking (tuple_object [] tt) tt t net) net'
        with_socket (failed e, lock) net' t net = (panics, t, net)
        with_socket (already_initialized, lock) net' t net = (panics, t, net)
        with_socket (gave_up, lock) net' t net = (hangs, t, net)

        -- `crossmist_main`, with what `WSAStartup` and `load_init_handles` return
        unfoldable pub crossmist_main :
            Result (Unit {0}) Error → Fate ℕ × Option Broker → back.Net → Table → out.Net → Ending
        unfolding with_socket
        crossmist_main (ok_value u) loaded net' t net = with_socket loaded net' t net
        crossmist_main (err_value e) loaded net' t net = (panics, t, net)

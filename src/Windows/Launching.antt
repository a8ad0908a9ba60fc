-- ===== src/Windows/Launching.antt =====
-- src/asynchronous.rs, `spawn` on Windows: the child signals that it has its handles, and then gets its
-- message. The own handles and sockets of the arguments, which the sender closes once they are copied
-- into the broker, are not part of the state here.
pub mod Launched
use crossmist.Common.{ℕ, Bool, Option, none, some, [], ◌∷◌, if◌then◌else◌}
use crossmist.Serde.{Object}
use crossmist.Builtins.Sum.{Result, ok_value, err_value}
use crossmist.Builtins.Tuple.{Tuple, tuple_object}
use crossmist.Relocation.{ptr_object}
use crossmist.Unix.Socket.{Error}
use crossmist.Channel.{Runtime, Io, io_ok, io_err, io_panic, io_undefined, gave_up}
use crossmist.Start.{perform_sanity_checks}
use crossmist.Windows.{HandleBroker}
use crossmist.Windows.Pairing.{Process, socketpair}
use crossmist.Windows.Pairing.Calls.{SocketCalls}
use crossmist.Windows.Spawning.{Fate, done, failed, already_initialized, gave_up, Broker}
use crossmist.Windows.Spawning.Calls.{SpawnCalls}
use crossmist.Windows.Spawning.Child.{spawn_child}
use crossmist.Windows.Stream.{WriteStream, ReadStream, send, recv}

module _ (sockets : SocketCalls) (calls : SpawnCalls) (broker : HandleBroker) (out : WriteStream)
    (back : ReadStream) where
  -- What the parent works on: WinSock, the processes, the broker's handles, and the two directions of
  -- its end of the channel.
  pub record Parent : Type 0 where
    pub winsock : Process sockets
    pub world : calls.World
    pub table : broker.Table
    pub to_child : out.Net
    pub from_child : back.Net

  -- The process, and the socket of the receiver in `Child`.
  abbrev pub Launch : Type 0
  Launch = Io (ℕ × ℕ) × Parent

  module _ {Args : Type 0} (o : Object Args) (base entrypoint attempts : ℕ) (runtime : Runtime)
      (try_new : ℕ → Result (Unit {0}) Error) (handle_broker : Broker) (args : Args) where
    abbrev pub message_object : Object (Tuple (ℕ ∷ Args ∷ []))
    message_object = tuple_object (ℕ ∷ Args ∷ []) (ptr_object base, (o, tt))

    module _ (local : ℕ) where
      -- The process handle is dropped after an error.
      unfoldable pub handle_dropped : ℕ → Parent → Parent
      handle_dropped process p = record p { world = calls.close process p.world }

      -- `local.send((entrypoint, args)).await?`
      unfoldable pub after_message : ℕ → Io (Unit {0}) × broker.Table × out.Net → Parent → Launch
      unfolding handle_dropped
      after_message process (io_ok u, t, net) p =
          (io_ok (process, local), record p { table = t; to_child = net })
      after_message process (io_err e, t, net) p =
          (io_err e, handle_dropped process (record p { table = t; to_child = net }))
      after_message process (io_panic, t, net) p =
          (io_panic, handle_dropped process (record p { table = t; to_child = net }))
      after_message process (io_undefined, t, net) p =
          (io_undefined, handle_dropped process (record p { table = t; to_child = net }))
      after_message process (gave_up, t, net) p =
          (gave_up, handle_dropped process (record p { table = t; to_child = net }))

      -- `signal.recv().await?`, whose value is not used
      unfoldable pub after_wait :
          ℕ → Io (Option (Unit {0})) × broker.Table × back.Net → Parent → Launch
      unfolding after_message handle_dropped
      after_wait process (io_ok got, t, net) p =
          after_message process
            (send out broker runtime message_object (entrypoint, (args, tt)) t p.to_child)
            (record p { from_child = net })
      after_wait process (io_err e, t, net) p =
          (io_err e, handle_dropped process (record p { table = t; from_child = net }))
      after_wait process (io_panic, t, net) p =
          (io_panic, handle_dropped process (record p { table = t; from_child = net }))
      after_wait process (io_undefined, t, net) p =
          (io_undefined, handle_dropped process (record p { table = t; from_child = net }))
      after_wait process (gave_up, t, net) p =
          (gave_up, handle_dropped process (record p { table = t; from_child = net }))

      unfoldable pub after_child : Fate ℕ × calls.World → Parent → Launch
      unfolding after_wait
      after_child (done process, w) p =
          after_wait process (recv (tuple_object [] tt) back broker runtime p.table p.from_child)
            (record p { world = w })
      after_child (failed e, w) p = (io_err e, record p { world = w })
      after_child (already_initialized, w) p = (io_panic, record p { world = w })
      after_child (gave_up, w) p = (gave_up, record p { world = w })

      unfoldable pub after_try_new : ℕ → Result (Unit {0}) Error → Parent → Launch
      unfolding after_child
      after_try_new child (ok_value u) p =
          after_child (spawn_child calls attempts handle_broker child p.world) p
      after_try_new child (err_value e) p = (io_err e, p)

      -- What is owned at the end of the scope is dropped.
      unfoldable pub dropped : ℕ → Parent → Parent
      dropped s p = record p {
        winsock = record (p.winsock) { world = sockets.close s p.winsock.world };
      }

      unfoldable pub scope_end : ℕ → Launch → Launch
      unfolding dropped
      scope_end child (io_ok launched, p) = (io_ok launched, dropped child p)
      scope_end child (io_err e, p) = (io_err e, dropped child (dropped local p))
      scope_end child (io_panic, p) = (io_panic, dropped child (dropped local p))
      scope_end child (io_undefined, p) = (io_undefined, dropped child (dropped local p))
      scope_end child (gave_up, p) = (gave_up, dropped child (dropped local p))

    unfoldable pub after_duplex : Option (Result (ℕ × ℕ) Error) × Process sockets → Parent → Launch
    unfolding after_try_new scope_end
    after_duplex (some (ok_value (local, child)), q) p =
        scope_end local child (after_try_new local child (try_new local) (record p { winsock = q }))
    after_duplex (some (err_value e), q) p = (io_err e, record p { winsock = q })
    after_duplex (none, q) p = (gave_up, record p { winsock = q })

    -- `spawn`, with the flag that `init` sets
    unfoldable pub spawn : Bool → Parent → Launch
    unfolding after_duplex
    spawn initialized p =
        if perform_sanity_checks initialized
        then after_duplex (socketpair sockets attempts p.winsock) p
        else (io_panic, p)

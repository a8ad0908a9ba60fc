-- ===== src/Windows/Launching/Launched.antt =====
-- What `spawn` of src/asynchronous.rs has done on Windows when it returns a child.
use native.Mathlib.Decide.{ℕ_discrete}
use crossmist.Common.{
  ℕ, ◌≡◌, refl, sym, ap, ◌∙◌, Bool, true, false, Option, none, some, List, [], ◌∷◌, ◌++◌,
}
use crossmist.Serde.{Object}
use crossmist.Builtins.Sum.{Result, ok_value, err_value}
use crossmist.Builtins.Tuple.{tuple_object}
use crossmist.Unix.Socket.{Error}
use crossmist.Channel.{Runtime, Io, io_ok, io_err, io_panic, io_undefined, gave_up}
use crossmist.Start.{perform_sanity_checks}
use crossmist.Windows.{HandleBroker, serialize_with_handles}
use crossmist.Windows.Pairing.{Process, socketpair}
use crossmist.Windows.Pairing.Calls.{SocketCalls}
use crossmist.Windows.Pairing.Socketpair.{Pairs, socketpair-Pairs}
use crossmist.Windows.Spawning.{Fate, done, failed, already_initialized, gave_up, Broker}
use crossmist.Windows.Spawning.View.{resumed}
use crossmist.Windows.Spawning.Calls.{SpawnCalls}
use crossmist.Windows.Spawning.Readiness.{SameName}
use crossmist.Windows.Spawning.Child.{load_init_handles, spawn_child}
use crossmist.Windows.Spawning.Loading.{spawned-load_init_handles}
use crossmist.Windows.Stream.{WriteStream, ReadStream, send, recv}
use crossmist.Windows.Stream.Delivery.{frame, write_message_sent}
use crossmist.Windows.Launching.{
  Parent, Launch, message_object, after_message, after_wait, after_child, after_try_new, scope_end,
  after_duplex, spawn,
}

module _ (sockets : SocketCalls) (calls : SpawnCalls) (broker : HandleBroker) (out : WriteStream)
    (back : ReadStream) {Args : Type 0} (o : Object Args) (base entrypoint attempts : ℕ)
    (runtime : Runtime) (try_new : ℕ → Result (Unit {0}) Error) (handle_broker : Broker)
    (args : Args) where
  abbrev Whole : Type 0
  Whole = Parent sockets calls broker out back

  -- A child runs and finds its end of the channel, and the broker.
  abbrev pub Begun : ℕ → Whole → Whole → Type 0
  Begun child p p' =
      (pid s : ℕ) × (b : Broker) × ((calls.view p'.world).runs pid ≡ resumed)
      × (load_init_handles ((calls.view p'.world).injected pid) none ≡ (done s, some b))
      × SameName (calls.view p.world) (calls.view p'.world) pid s child
      × SameName (calls.view p.world) (calls.view p'.world) pid b.process handle_broker.process
      × SameName (calls.view p.world) (calls.view p'.world) pid b.job handle_broker.job
      × (b.pid ≡ handle_broker.pid)

  -- The signal was waited for, and then the message was put on the stream, whole.
  abbrev pub Told : Whole → Whole → Type 0
  Told p p' =
      (got : Option (Unit {0})) × (t : broker.Table) × (serialized : List ℕ) × (recv
          (tuple_object [] tt) back broker runtime p.table p.from_child
        ≡ (io_ok got, t, p'.from_child))
      × (serialize_with_handles broker
            (message_object sockets calls broker out back o base entrypoint attempts runtime try_new
              handle_broker args)
            (entrypoint, (args, tt)) t
          ≡ (ok_value serialized, p'.table))
      × (out.sent p'.to_child ≡ out.sent p.to_child ++ frame serialized)

  -- After the sockets are there, and before the end of the scope.
  abbrev Goes : ℕ → ℕ → Whole → Io (ℕ × ℕ) × Whole → Type 0
  Goes local child p (io_ok (process, s), p') =
      (p'.winsock ≡ p.winsock) × (s ≡ local) × Begun child p p' × Told p p'
  Goes local child p (io_err e, p') = p'.winsock ≡ p.winsock
  Goes local child p (io_panic, p') = p'.winsock ≡ p.winsock
  Goes local child p (io_undefined, p') = p'.winsock ≡ p.winsock
  Goes local child p (gave_up, p') = p'.winsock ≡ p.winsock

  module _ (local child : ℕ) where
    after_message-Goes :
        (process : ℕ) (p p₁ : Whole) (got : Option (Unit {0})) (t : broker.Table)
        (message : Io (Unit {0}) × broker.Table × out.Net)
        → send out broker runtime
            (message_object sockets calls broker out back o base entrypoint attempts runtime try_new
              handle_broker args)
            (entrypoint, (args, tt))
            t
            p.to_child
          ≡ message
        → recv (tuple_object [] tt) back broker runtime p.table p.from_child
          ≡ (io_ok got, t, p₁.from_child)
        → p₁.winsock ≡ p.winsock
        → Begun child p p₁
        → Goes local child p (
            after_message sockets calls broker out back o base entrypoint attempts runtime try_new
              handle_broker args local process message p₁)
    unfolding after_message send
    after_message-Goes process p p₁ got t (io_ok u, t', net) e r same begun =
        let (serialized, ser, s) =
          write_message_sent out broker runtime
            (serialize_with_handles broker
              (message_object sockets calls broker out back o base entrypoint attempts runtime
                try_new handle_broker args)
              (entrypoint, (args, tt)) t)
            t' p.to_child net e in
        (same, refl, begun, (got, t, serialized, r, ser, s))
    after_message-Goes process p p₁ got t (io_err x, t', net) e r same begun = same
    after_message-Goes process p p₁ got t (io_panic, t', net) e r same begun = same
    after_message-Goes process p p₁ got t (io_undefined, t', net) e r same begun = same
    after_message-Goes process p p₁ got t (gave_up, t', net) e r same begun = same

    after_wait-Goes :
        (process : ℕ) (p p₁ : Whole) (signal : Io (Option (Unit {0})) × broker.Table × back.Net)
        → recv (tuple_object [] tt) back broker runtime p.table p.from_child ≡ signal
        → p₁.winsock ≡ p.winsock
        → p₁.to_child ≡ p.to_child
        → Begun child p p₁
        → Goes local child p (
            after_wait sockets calls broker out back o base entrypoint attempts runtime try_new
              handle_broker args local process signal p₁)
    unfolding after_wait
    after_wait-Goes process p p₁ (io_ok got, t, net) r same same_net begun =
        after_message-Goes process p (record p₁ { from_child = net }) got t
          (send out broker runtime
            (message_object sockets calls broker out back o base entrypoint attempts runtime try_new
              handle_broker args)
            (entrypoint, (args, tt)) t p₁.to_child)
          (ap
            (send out broker runtime
              (message_object sockets calls broker out back o base entrypoint attempts runtime
                try_new handle_broker args)
              (entrypoint, (args, tt)) t)
            (sym same_net))
          r same begun
    after_wait-Goes process p p₁ (io_err x, t, net) r same same_net begun = same
    after_wait-Goes process p p₁ (io_panic, t, net) r same same_net begun = same
    after_wait-Goes process p p₁ (io_undefined, t, net) r same same_net begun = same
    after_wait-Goes process p p₁ (gave_up, t, net) r same same_net begun = same

    after_child-Goes :
        (p : Whole) (started : Fate ℕ × calls.World)
        → spawn_child calls attempts handle_broker child p.world ≡ started
        → Goes local child p (
            after_child sockets calls broker out back o base entrypoint attempts runtime try_new
              handle_broker args local started p)
    unfolding after_child
    after_child-Goes p (done process, w) e =
        after_wait-Goes process p (record p { world = w })
          (recv (tuple_object [] tt) back broker runtime p.table p.from_child) refl refl refl
          (spawned-load_init_handles calls attempts handle_broker child p.world w process e)
    after_child-Goes p (failed x, w) e = refl
    after_child-Goes p (already_initialized, w) e = refl
    after_child-Goes p (gave_up, w) e = refl

    after_try_new-Goes :
        (p : Whole) (stream : Result (Unit {0}) Error)
        → Goes local child p (
            after_try_new sockets calls broker out back o base entrypoint attempts runtime try_new
              handle_broker args local child stream p)
    unfolding after_try_new
    after_try_new-Goes p (ok_value u) =
        after_child-Goes p (spawn_child calls attempts handle_broker child p.world) refl
    after_try_new-Goes p (err_value e) = refl

  -- The first of two sockets is closed, and then the other.
  both_closed :
      (local child : ℕ) (own : List ℕ) (w : sockets.World)
      → sockets.owned w ≡ child ∷ local ∷ own
      → sockets.owned (sockets.close child (sockets.close local w)) ≡ own
  both_closed local child own w e = elim (ℕ_discrete child local) [
    | yes same ↦
        let e' =
          (sockets.close_lem local [] (local ∷ own) w (e ∙ ap (λ c. c ∷ local ∷ own) same) tt).0 in
        (sockets.close_lem child [] own (sockets.close local w) (e' ∙ ap (λ c. c ∷ own) (sym same))
          tt).0
    | no differ ↦
        let e' = (sockets.close_lem local (child ∷ []) own w e (differ, tt)).0 in
        (sockets.close_lem child [] own (sockets.close local w) e' tt).0
  ]

  abbrev pub Launches : Whole → Io (ℕ × ℕ) × Whole → Type 0
  Launches p (io_ok (process, local), p') =
      (child : ℕ) × (q : Process sockets) × (socketpair sockets attempts p.winsock
        ≡ (some (ok_value (local, child)), q))
      × sockets.Ends q.world local child
      × (sockets.owned p'.winsock.world ≡ local ∷ sockets.owned p.winsock.world)
      × Begun child p p'
      × Told p p'
  Launches p (io_err e, p') = sockets.owned p'.winsock.world ≡ sockets.owned p.winsock.world
  Launches p (io_panic, p') = sockets.owned p'.winsock.world ≡ sockets.owned p.winsock.world
  Launches p (io_undefined, p') = sockets.owned p'.winsock.world ≡ sockets.owned p.winsock.world
  Launches p (gave_up, p') = sockets.owned p'.winsock.world ≡ sockets.owned p.winsock.world

  module _ (local child : ℕ) (p : Whole) (q : Process sockets)
      (paired : socketpair sockets attempts p.winsock ≡ (some (ok_value (local, child)), q))
      (owned_lem : sockets.owned q.world ≡ child ∷ local ∷ sockets.owned p.winsock.world)
      (ends : sockets.Ends q.world local child) where
    all_closed :
        (p' : Whole)
        → p'.winsock ≡ q
        → sockets.owned (sockets.close child (sockets.close local p'.winsock.world))
          ≡ sockets.owned p.winsock.world
    all_closed p' same =
        both_closed local child (sockets.owned p.winsock.world) p'.winsock.world
          (ap (λ (r : Process sockets). sockets.owned r.world) same ∙ owned_lem)

    scope_end-Launches :
        (t : Launch sockets calls broker out back)
        → Goes local child (record p { winsock = q }) t
        → Launches p (
            scope_end sockets calls broker out back o base entrypoint attempts runtime try_new
              handle_broker args local child t)
    unfolding scope_end
    scope_end-Launches (io_ok (process, s), p') (same, at_local, begun, told) =
        let own =
          (sockets.close_lem child [] (local ∷ sockets.owned p.winsock.world) p'.winsock.world
            (ap (λ (r : Process sockets). sockets.owned r.world) same ∙ owned_lem) tt).0 in
        rw at_local (child, q, paired, ends, own, begun, told)
    scope_end-Launches (io_err e, p') same = all_closed p' same
    scope_end-Launches (io_panic, p') same = all_closed p' same
    scope_end-Launches (io_undefined, p') same = all_closed p' same
    scope_end-Launches (gave_up, p') same = all_closed p' same

  after_duplex-Launches :
      (p : Whole) (pair : Option (Result (ℕ × ℕ) Error) × Process sockets)
      → socketpair sockets attempts p.winsock ≡ pair
      → Pairs sockets p.winsock pair
      → Launches p (
          after_duplex sockets calls broker out back o base entrypoint attempts runtime try_new
            handle_broker args pair p)
  unfolding after_duplex
  after_duplex-Launches p (some (ok_value (local, child)), q) e (own, ends) =
      scope_end-Launches local child p q e own ends
        (after_try_new sockets calls broker out back o base entrypoint attempts runtime try_new
          handle_broker args local child (try_new local) (record p { winsock = q }))
        (after_try_new-Goes local child (record p { winsock = q }) (try_new local))
  after_duplex-Launches p (some (err_value x), q) e own = own
  after_duplex-Launches p (none, q) e own = own

  -- If `spawn` returns a child, then the pair of sockets is connected and the parent has kept its end
  -- alone; a child runs in which `load_init_handles` finds handles of the other end and of the
  -- broker; the parent has waited until its end gave it a signal, or reported that it was closed;
  -- and then it has put the whole message, with handles copied to the broker, on the stream. If it
  -- returns an error, panics, or its attempts are used up, the parent has no new socket.
  pub spawn-Tells :
      (initialized : Bool) (p : Whole)
      → Launches p (
          spawn sockets calls broker out back o base entrypoint attempts runtime try_new
            handle_broker args initialized p)
  unfolding spawn perform_sanity_checks
  spawn-Tells false p = refl
  spawn-Tells true p =
      after_duplex-Launches p (socketpair sockets attempts p.winsock) refl
        (socketpair-Pairs sockets attempts p.winsock)

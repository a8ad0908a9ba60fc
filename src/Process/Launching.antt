-- ===== src/Process/Launching.antt =====
-- src/asynchronous.rs, `spawn` on Unix, with `_spawn_child` of src/platform/unix/subprocess.rs: the
-- parent's side of the start of a subprocess.
--
-- A descriptor is closed when the value that owns it is dropped; these calls of `close` are written
-- out; those that the arguments own are closed in the order in which they are serialized.
pub mod Calls
pub mod Started
pub mod Launched
use crossmist.Common.{ℕ, Bool, true, false, List, [], ◌∷◌, if◌then◌else◌}
use crossmist.Serde.{Object, new, serialize}
use crossmist.Builtins.Sum.{Result, ok_value, err_value}
use crossmist.Builtins.Tuple.{Tuple, tuple_object}
use crossmist.Relocation.{ptr_object}
use crossmist.Unix.Socket.{Error}
use crossmist.Channel.{
  Runtime, blocking, tokio, smol, Io, io_ok, io_err, io_panic, io_undefined, gave_up, send,
}
use crossmist.Start.{child_arguments, perform_sanity_checks}
use crossmist.Process.Launching.Calls.{LaunchCalls, socket_of}

-- `AsyncStream::IS_BLOCKING`
abbrev pub is_blocking : Runtime → Bool
is_blocking blocking = true
is_blocking tokio = false
is_blocking smol = false

module _ (calls : LaunchCalls) where
  open calls use {
    World, socketpair, set_nonblocking, register, actions_init, actions_dup, actions_destroy,
    posix_spawn, close,
  }

  -- The destructor of `FileActions`
  unfoldable pub after_destroy : Result ℕ Error → Result (Unit {0}) Error × World → Io ℕ × World
  after_destroy (ok_value pid) (ok_value u, w) = (io_ok pid, w)
  after_destroy (err_value e) (ok_value u, w) = (io_err e, w)
  after_destroy result (err_value e, w) = (io_panic, w)

  unfoldable pub actions_dropped : Result ℕ Error × World → Io ℕ × World
  unfolding after_destroy
  actions_dropped (result, w) = after_destroy result (actions_destroy w)

  unfoldable pub after_dup : ℕ → Result (Unit {0}) Error × World → Result ℕ Error × World
  after_dup child_fd (ok_value u, w) = posix_spawn (child_arguments child_fd) w
  after_dup child_fd (err_value e, w) = (err_value e, w)

  unfoldable pub with_actions : ℕ → Result (Unit {0}) Error × World → Io ℕ × World
  unfolding actions_dropped after_dup
  with_actions child_fd (ok_value u, w) =
      actions_dropped (after_dup child_fd (actions_dup child_fd w))
  with_actions child_fd (err_value e, w) = (io_err e, w)

  -- `_spawn_child`
  unfoldable pub spawn_child : ℕ → World → Io ℕ × World
  unfolding with_actions
  spawn_child child_fd w = with_actions child_fd (actions_init w)

  unfoldable pub after_nonblocking :
      ℕ → Result (Unit {0}) Error × World → Result (Unit {0}) Error × World
  after_nonblocking fd (ok_value u, w) = register fd w
  after_nonblocking fd (err_value e, w) = (err_value e, w)

  -- `AsyncStream::try_new` of `Blocking`, `Tokio` and `Smol`
  unfoldable pub try_new : Runtime → ℕ → World → Result (Unit {0}) Error × World
  unfolding after_nonblocking
  try_new blocking fd w = (ok_value tt, w)
  try_new tokio fd w = after_nonblocking fd (set_nonblocking fd w)
  try_new smol fd w = after_nonblocking fd (set_nonblocking fd w)

  -- The child, and the end of the channel that it is joined by.
  abbrev pub Launch : Type 0
  Launch = Io (ℕ × ℕ) × World

  -- The destructor of a `Vec<OwnedFd>`, the descriptors of a `SingleObjectSender`
  unfoldable pub close_each : List ℕ → World → World
  close_each [] w = w
  close_each (fd ∷ fds) w = close_each fds (close fd w)

  -- The end of the scope after an error.
  abbrev pub both_closed : ℕ → ℕ → World → World
  both_closed local child w = close child (close local w)

  module _ {Args : Type 0} (o : Object Args) (base entrypoint attempts : ℕ) (runtime : Runtime)
      (args : Args) where
    -- `(entrypoint, args)`, where a `StaticFn` is its pointer
    abbrev pub message_object : Object (Tuple (ℕ ∷ Args ∷ []))
    message_object = tuple_object (ℕ ∷ Args ∷ []) (ptr_object base, (o, tt))

    -- The descriptors that the arguments own: those that they leave in a serializer.
    abbrev pub held : List ℕ
    held = (serialize o args new).fds

    -- The end of the arguments: in `SingleObjectSender` behind `send`, and in `args` before it.
    abbrev pub args_dropped : World → World
    args_dropped w = close_each held w

    module _ (local child : ℕ) where
      unfoldable pub after_send : ℕ → Io (Unit {0}) × World → Launch
      after_send pid (io_ok u, w) = (io_ok (pid, local), close child (args_dropped w))
      after_send pid (io_err e, w) = (io_err e, both_closed local child (args_dropped w))
      after_send pid (io_panic, w) = (io_panic, both_closed local child (args_dropped w))
      after_send pid (io_undefined, w) = (io_undefined, both_closed local child (args_dropped w))
      after_send pid (gave_up, w) = (gave_up, both_closed local child (args_dropped w))

      unfoldable pub after_spawn : Io ℕ × World → Launch
      unfolding after_send
      after_spawn (io_ok pid, w) = after_send pid (
          send (socket_of calls local) message_object attempts (is_blocking runtime)
            (entrypoint, (args, tt)) w)
      after_spawn (io_err e, w) = (io_err e, args_dropped (both_closed local child w))
      after_spawn (io_panic, w) = (io_panic, args_dropped (both_closed local child w))
      after_spawn (io_undefined, w) = (io_undefined, args_dropped (both_closed local child w))
      after_spawn (gave_up, w) = (gave_up, args_dropped (both_closed local child w))

      unfoldable pub after_try_new : Result (Unit {0}) Error × World → Launch
      unfolding after_spawn
      after_try_new (ok_value u, w) = after_spawn (spawn_child child w)
      after_try_new (err_value e, w) = (io_err e, args_dropped (both_closed local child w))

    unfoldable pub after_duplex : Result (ℕ × ℕ) Error × World → Launch
    unfolding after_try_new
    after_duplex (ok_value (local, child), w) = after_try_new local child (try_new runtime local w)
    after_duplex (err_value e, w) = (io_err e, args_dropped w)

    -- `spawn`, with the flag that `init` sets
    unfoldable pub spawn : Bool → World → Launch
    unfolding after_duplex
    spawn initialized w =
        if perform_sanity_checks initialized
        then after_duplex (socketpair w)
        else (io_panic, args_dropped w)

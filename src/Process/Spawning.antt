-- ===== src/Process/Spawning.antt =====
-- src/asynchronous.rs, the child's side: `handle_entry` and the entry point that `spawn` makes of a
-- function; on the parent's side `spawn` sends the pair of the entry point and the arguments.
pub mod Running
use mathlib.Core.Path.{subst}
use crossmist.Common.{
  ℕ, ◌+◌, ◌%◌, ◌<◌, ◌≡◌, ◌⊎◌, inl, inr, refl, sym, ap, ◌∙◌, Bool, true, false, Option, none, some,
  List, [], ◌∷◌, ◌++◌, if◌then◌else◌, arith,
}
use crossmist.Serde.{
  Serializer, Deserializer, Outcome, ok, panicked, undefined, Object, Reader, new, from, serialize,
  deserialize,
}
use crossmist.Serde.Format.{Format, ◌⊕◌, ⊕-new, at}
use crossmist.Serde.Law.{Law}
use crossmist.Builtins.Tuple.{Tuple, tuple_object, tuple_format}
use crossmist.Relocation.{
  address_space, ptr_object, ptr_format, ptr-Law, relocated, relocated-offset, to_offset-IsUnsigned,
}
use crossmist.Unix.Socket.{Error, Packet, SendSocket, RecvSocket}
use crossmist.Unix.Wire.{Splits}
use crossmist.Unix.Receiver.{RecvResult, received, received_object, gathered}
use crossmist.Unix.Receiver.Rounds.{object_of}
use crossmist.Channel.{Io, io_ok, io_err, io_panic, io_undefined, gave_up, send, recv}
use crossmist.Channel.Receiving.{Gets, recv-Gets-read, OnUnix}
use crossmist.Channel.Patience.{RecvPatience}
use crossmist.Channel.Patience.Receiving.{recv-ends}
use crossmist.Channel.Outcomes.{Gets-cases}

-- `struct FakeDeserializer`: the deserializer itself is the object, and an empty one takes its
-- place. Its `serialize_self` is `unreachable!()`: nothing sends it.
abbrev pub fake_object : Object Deserializer
fake_object = record {
  serialize_self = λ d s. s;
  serialize_slice = λ ds s. s;
  deserialize_self = λ d. ok (d, from new);
}

-- What the child process ends in: the exit code 0 of `exit(0)`, or a panic.
pub data Exit : Type 0 where
  exited panics undefined_behaviour hangs : Exit

-- `….expect(…)` on the output, and `exit(0)`.
unfoldable pub after_call : Io (Unit {0}) → Exit
after_call (io_ok u) = exited
after_call (io_err e) = panics
after_call io_panic = panics
after_call io_undefined = undefined_behaviour
after_call gave_up = hangs

module _ (out : SendSocket) where
  -- The channel's end and the deserializer are handed over.
  abbrev pub EntryPoint : Type 0
  EntryPoint = Deserializer → out.Net → Exit × out.Net

  module _ {Args Ret : Type 0} (o : Object Args) (o' : Object Ret) (func : Args → Ret)
      (is_unit : Bool) (attempts : ℕ) where
    unfoldable pub call_with : Outcome (Args × Deserializer) → out.Net → Exit × out.Net
    unfolding after_call
    call_with (ok (args, d)) net =
        let output = func args in
        let (result, net') = send out o' attempts true output net in
        if is_unit then (exited, net) else (after_call result, net')
    call_with (panicked p) net = (panics, net)
    call_with undefined net = (undefined_behaviour, net)

    -- The closure `entrypoint` in `spawn`. `is_unit` tells whether `Ret` is `()`.
    unfoldable pub entrypoint : EntryPoint
    unfolding call_with
    entrypoint d net = call_with (deserialize o d) net

  -- `(entry.get_fn())(…)`: a function pointer at which no entry point lies is undefined behaviour.
  unfoldable pub enter : Option EntryPoint → Deserializer → out.Net → Exit × out.Net
  enter (some entry) d net = entry d net
  enter none d net = (undefined_behaviour, net)

  module _ (base : ℕ) (entry_at : ℕ → Option EntryPoint) where
    unfoldable pub read_entry : Outcome (ℕ × Deserializer) → out.Net → Exit × out.Net
    unfolding enter
    read_entry (ok (entry, d)) net = enter (entry_at entry) d net
    read_entry (panicked p) net = (panics, net)
    read_entry undefined net = (undefined_behaviour, net)

    unfoldable pub after_recv : Io (Option Deserializer) → out.Net → Exit × out.Net
    unfolding read_entry
    after_recv (io_ok (some d)) net = read_entry (deserialize (ptr_object base) d) net
    after_recv (io_ok none) net = (panics, net)
    after_recv (io_err e) net = (panics, net)
    after_recv io_panic net = (panics, net)
    after_recv io_undefined net = (undefined_behaviour, net)
    after_recv gave_up net = (hangs, net)

    -- `handle_entry`
    unfoldable pub handle_entry : (back : RecvSocket) → ℕ → back.Net → out.Net → Exit × out.Net
    unfolding after_recv
    handle_entry back attempts net' net =
        after_recv (recv fake_object back attempts true net').0 net

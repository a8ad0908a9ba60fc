-- ===== src/Windows/Entry/Running.antt =====
-- A child of src/platform/windows/entry.rs on the message that `spawn` of src/asynchronous.rs sends.
use crossmist.Common.{
  ℕ, ◌≡◌, ◌⊎◌, inl, inr, refl, sym, ap, ◌∙◌, Bool, Option, none, some, List, [], ◌∷◌, ◌++◌, length,
  if◌then◌else◌, arith,
}
use crossmist.Serde.{Deserializer, ok, Object, new, from, deserialize}
use crossmist.Serde.Format.{Format, ◌⊕◌}
use crossmist.Serde.Law.{Law}
use crossmist.Builtins.Sum.{Result, ok_value, err_value}
use crossmist.Builtins.Scalars.{IsUnsigned, usize_size}
use crossmist.Builtins.Tuple.{Tuple, tuple_object, tuple_format, tuple-Law}
use crossmist.Relocation.{
  ptr_object, ptr_format, ptr-Law, relocated, relocated-offset, to_offset-IsUnsigned,
}
use crossmist.Unix.Socket.{Error}
use crossmist.Common.Bytes.{le_bytes}
use crossmist.Channel.{Runtime, blocking, Io, io_ok, io_err, io_panic, io_undefined, gave_up}
use crossmist.Process.Spawning.{fake_object, Exit, exited, panics, after_call}
use crossmist.Process.Spawning.Running.{IsAt}
use crossmist.Windows.{HandleBroker, serialize_with_handles, deserialize_with_handles}
use crossmist.Windows.Transfer.{OnWindows, through_broker_read}
use crossmist.Windows.Spawning.View.{InitData}
use crossmist.Windows.Spawning.Child.{load_init_handles}
use crossmist.Windows.Stream.{
  WriteStream, ReadStream, stream_write, io_of, write_body, write_message, send, read_object, recv,
}
use crossmist.Windows.Stream.Delivery.{frame, frame-Reads}
use crossmist.Windows.Entry.{
  EntryPoint, call_with, entrypoint, read_entry, after_recv, handle_entry, after_signal,
  crossmist_main,
}

-- A call that returns or panics.
abbrev NotLost : Io (Unit {0}) → Type 0
NotLost (io_ok u) = Unit
NotLost (io_err e) = Unit
NotLost io_panic = Unit
NotLost io_undefined = ⊥
NotLost gave_up = ⊥

module _ (out : WriteStream) (broker : HandleBroker) (runtime : Runtime) where
  body-NotLost :
      (serialized : List ℕ) (t : broker.Table) (written : Result (Unit {0}) Error × out.Net)
      → NotLost (write_body out broker runtime serialized t written).0
  unfolding write_body io_of
  body-NotLost serialized t (ok_value u, net) =
      elim (stream_write out runtime serialized net).0 as (λ r. NotLost (io_of out r)) [
        | ok_value w ↦ tt
        | err_value e ↦ tt
      ]
  body-NotLost serialized t (err_value e, net) = tt

  message-NotLost :
      (value : Result (List ℕ) Error × broker.Table) (net : out.Net)
      → NotLost (write_message out broker runtime value net).0
  unfolding write_message
  message-NotLost (ok_value serialized, t) net =
      body-NotLost serialized t
        (stream_write out runtime (le_bytes usize_size (length serialized)) net)
  message-NotLost (err_value e, t) net = tt

  send-NotLost :
      {T : Type 0} (o : Object T) (v : T) (t : broker.Table) (net : out.Net)
      → NotLost (send out broker runtime o v t net).0
  unfolding send
  send-NotLost o v t net = message-NotLost (serialize_with_handles broker o v t) net

module _ {Args Ret : Type 0} {oa oa' : Object Args} {fa : Format Args} (law : Law oa oa' fa)
    (o : Object Ret) (func : Args → Ret) (is_unit : Bool) (broker : HandleBroker)
    (out : WriteStream) where
  open broker use {Table}

  -- What the child does with its output.
  abbrev pub Ran : Args → Table → out.Net → Exit × Table × out.Net → Type 0
  Ran args t net result = result ≡ (
      if is_unit then (exited, t, net) else (
        after_call (send out broker blocking o (func args) t net).0,
        (send out broker blocking o (func args) t net).1,
        (send out broker blocking o (func args) t net).2,
      ))

  module _ (base base' entry entry' : ℕ) (is_at : IsAt base base' entry entry')
      (entry_at : ℕ → Option (EntryPoint broker out))
      (found : entry_at entry' ≡ some (entrypoint broker out oa' o func is_unit)) where
    -- What the parent sends: `(entrypoint, args)`.
    abbrev pub message : Format (Tuple (ℕ ∷ Args ∷ []))
    message = tuple_format (ℕ ∷ Args ∷ []) (ptr_format base base', (fa, tt))

    abbrev pub message_object : Object (Tuple (ℕ ∷ Args ∷ []))
    message_object = tuple_object (ℕ ∷ Args ∷ []) (ptr_object base, (oa, tt))

    pub message-Law :
        Law message_object (tuple_object (ℕ ∷ Args ∷ []) (ptr_object base', (oa', tt))) message
    message-Law =
        tuple-Law (ℕ ∷ Args ∷ []) (ptr_object base, (oa, tt)) (ptr_object base', (oa', tt))
          (ptr_format base base', (fa, tt)) (ptr-Law base base', (law, tt))

    entry-Valid : (ptr_format base base').Valid entry
    entry-Valid = (to_offset-IsUnsigned base entry, omega (arith, is_at.entry_lem))

    pub message-Valid : (args : Args) → fa.Valid args → message.Valid (entry, (args, tt))
    message-Valid args valid = (entry-Valid, (valid, tt))

    arrives : relocated base base' entry ≡ entry'
    arrives =
        ap (relocated base base') is_at.entry_lem
        ∙ relocated-offset base base' is_at.offset is_at.base_lem
        ∙ sym is_at.entry_lem'

    read_entry-Ran :
        (args : Args) (t : Table) (net : out.Net)
        → fa.Valid args
        → Ran (fa.carry args) t net (
            read_entry broker out base' entry_at
              (deserialize (ptr_object base') (from (message.encode (entry, (args, tt)))))
              t
              net)
    unfolding read_entry entrypoint
    read_entry-Ran args t net valid =
        let ptr = (ptr_format base base').encode entry in
        let e = ((ptr-Law base base').reads entry entry-Valid).off [] (fa.encode args ⊕ new) in
        rw (e, read_entry)
          (rw (arrives, found) (rw ((law.reads args valid).off ptr.bytes new, call_with) refl))

    module _ (back : ReadStream) (args : Args) (valid : fa.Valid args)
        (on_windows : OnWindows broker message-Law
          (entry, (args, tt))
          (message-Valid args valid)) where
      -- The child panics, or runs the function on the arguments.
      abbrev pub PanicsOrRan : out.Net → Exit × Table × out.Net → Type 0
      PanicsOrRan net result =
          (result.0 ≡ panics) ⊎ ((t : Table) × Ran (fa.carry args) t net result)

      delivered : Deserializer
      delivered = from (message.encode (entry, (args, tt)))

      object_read :
          (serialized : List ℕ) (t₀ t₁ : Table)
          → serialize_with_handles broker message_object (entry, (args, tt)) t₀
            ≡ (ok_value serialized, t₁)
          → ((t₂ : Table) × (deserialize_with_handles broker fake_object serialized t₁
                ≡ ok (ok_value delivered, t₂)))
            ⊎ ((e : Error) × (t₂ : Table) × (deserialize_with_handles broker fake_object serialized
                    t₁
                  ≡ ok (err_value e, t₂)))
      unfolding delivered
      object_read serialized t₀ t₁ h =
          elim (through_broker_read broker message-Law (entry, (args, tt))
            (message-Valid args valid) on_windows fake_object delivered (from new) refl t₀) [
              | inr (e, t', failed_lem) ↦ let clash = sym h ∙ failed_lem in cc
              | inl (bytes, t', sent_lem, rest) ↦
                  let same : ◌≡◌ {A = Result (List ℕ) Error × Table} (ok_value serialized, t₁)
                      (ok_value bytes, t') =
                    sym h ∙ sent_lem in
                  let bytes_lem : serialized ≡ bytes = cc in
                  let table_lem : t₁ ≡ t' = cc in rw (bytes_lem, table_lem) rest
            ]

      recv_panics :
          (t : Table) (net : out.Net) (got : Io (Option Deserializer) × Table × back.Net)
          → (got.0 ≡ io_ok none) ⊎ ((e : Error) × (got.0 ≡ io_err e))
          → PanicsOrRan net (after_recv broker out base' entry_at got.0 got.1 net)
      unfolding after_recv
      recv_panics t net (result, t', net') (inl e) = inl (rw e refl)
      recv_panics t net (result, t', net') (inr (x, e)) = inl (rw e refl)

      handle_entry-Ran :
          (serialized later : List ℕ) (t₀ t₁ : Table) (net : out.Net) (net' : back.Net)
          → serialize_with_handles broker message_object (entry, (args, tt)) t₀
            ≡ (ok_value serialized, t₁)
          → IsUnsigned usize_size (length serialized)
          → back.incoming net' ≡ frame serialized ++ later
          → PanicsOrRan net (handle_entry broker out base' entry_at back net' t₁ net)
      unfolding handle_entry after_recv read_object delivered
      handle_entry-Ran serialized later t₀ t₁ net net' h small inc =
          let got = recv fake_object back broker blocking t₁ net' in
          elim (frame-Reads fake_object back broker blocking serialized later t₁ net' small inc) [
            | inl (net'', e, rest) ↦ elim (object_read serialized t₀ t₁ h) [
              | inl (t₂, e') ↦ inr (t₂, rw (e, e') (read_entry-Ran args t₂ net valid))
              | inr (x, t₂, e') ↦ inl (rw (e, e') refl)
            ]
            | inr (inl failed_lem) ↦ recv_panics t₁ net got (inr failed_lem)
            | inr (inr (nothing, reset)) ↦ recv_panics t₁ net got (inl nothing)
          ]

      -- The child panics; or the signal went through, and then the function ran.
      abbrev pub SignalsThenRan : Table → out.Net → Exit × Table × out.Net → Type 0
      SignalsThenRan t net result =
          (result.0 ≡ panics)
          ⊎ ((t₂ : Table) × (t₃ : Table) × (net₁ : out.Net) × (send out broker blocking
                  (tuple_object [] tt) tt t net
                ≡ (io_ok tt, t₂, net₁))
              × Ran (fa.carry args) t₃ net₁ result)

      signalled-Ran :
          (serialized later : List ℕ) (t t₀ t₁ : Table) (meanwhile : Table → Table) (net : out.Net)
          (net' : back.Net) (signal : Io (Unit {0}) × Table × out.Net)
          → send out broker blocking (tuple_object [] tt) tt t net ≡ signal
          → NotLost signal.0
          → serialize_with_handles broker message_object (entry, (args, tt)) t₀
            ≡ (ok_value serialized, t₁)
          → IsUnsigned usize_size (length serialized)
          → back.incoming net' ≡ frame serialized ++ later
          → meanwhile signal.1 ≡ t₁
          → SignalsThenRan t net (after_signal broker out base' entry_at back meanwhile signal net')
      unfolding after_signal
      signalled-Ran serialized later t t₀ t₁ meanwhile net net' (io_ok u, t', net₁) e ends h small
            inc same =
          rw same (elim (handle_entry-Ran serialized later t₀ t₁ net₁ net' h small inc) [
            | inl p ↦ inl p
            | inr (t₃, ran) ↦ inr (t', t₃, net₁, e, ran)
          ])
      signalled-Ran serialized later t t₀ t₁ meanwhile net net' (io_err x, t', net₁) e ends h small
            inc same =
          inl refl
      signalled-Ran serialized later t t₀ t₁ meanwhile net net' (io_panic, t', net₁) e ends h small
            inc same =
          inl refl
      signalled-Ran serialized later t t₀ t₁ meanwhile net net' (io_undefined, t', net₁) e ends h
            small inc same =
          absurd ends
      signalled-Ran serialized later t t₀ t₁ meanwhile net net' (gave_up, t', net₁) e ends h small
            inc same =
          absurd ends

      -- The entry point lies at the same offset from the base addresses of the parent and the
      -- child, the parent has written the entry point and valid arguments, without Unix descriptors
      -- and with no more handles and sockets than can be counted, into a message which is short
      -- enough for its length field and comes next on the child's stream; the broker's handles, as
      -- other processes leave them after the signal, are those that the parent's call leaves; and
      -- WinSock starts. Then `crossmist_main` in a child whose broker is not set yet panics, or it
      -- first sends the signal `()` with success, and then calls the function on these arguments as
      -- they arrive and sends what it returns, or nothing where the type of the output is `()`.
      pub crossmist_main-Ran :
          (init_data : InitData) (serialized later : List ℕ) (t t₀ t₁ : Table)
          (meanwhile : Table → Table) (net : out.Net) (net' : back.Net)
          → serialize_with_handles broker message_object (entry, (args, tt)) t₀
            ≡ (ok_value serialized, t₁)
          → IsUnsigned usize_size (length serialized)
          → back.incoming net' ≡ frame serialized ++ later
          → meanwhile (send out broker blocking (tuple_object [] tt) tt t net).1 ≡ t₁
          → SignalsThenRan t net (
              crossmist_main broker out base' entry_at back meanwhile
                (ok_value tt)
                (load_init_handles init_data none)
                net'
                t
                net)
      unfolding crossmist_main load_init_handles
      crossmist_main-Ran init_data serialized later t t₀ t₁ meanwhile net net' h small inc same =
          signalled-Ran serialized later t t₀ t₁ meanwhile net net'
            (send out broker blocking (tuple_object [] tt) tt t net) refl
            (send-NotLost out broker blocking (tuple_object [] tt) tt t net) h small inc same

-- ===== src/Windows/Stream/RoundTrip.antt =====
-- A value on a channel of src/asynchronous.rs on Windows: what `send` has put on the stream, `recv`
-- reads.
use crossmist.Common.{
  ℕ, ◌≡◌, ◌⊎◌, inl, inr, refl, sym, ap, ◌∙◌, none, some, List, ◌++◌, length, length-append, drop,
  drop-append, arith,
}
use crossmist.Common.Bytes.{le_bytes}
use crossmist.Serde.{Object}
use crossmist.Serde.Format.{Format}
use crossmist.Serde.Law.{Law}
use crossmist.Builtins.Sum.{Result, ok_value, err_value}
use crossmist.Builtins.Scalars.{IsUnsigned, usize_size}
use crossmist.Unix.Socket.{Error, connection_reset}
use crossmist.Channel.{Runtime, io_ok, io_err}
use crossmist.Windows.{HandleBroker, serialize_with_handles, deserialize_with_handles}
use crossmist.Windows.Transfer.{OnWindows, through_broker}
use crossmist.Windows.Stream.{WriteStream, ReadStream, send, read_object, recv}
use crossmist.Windows.Stream.Delivery.{frame, write_message_sent, frame-Reads}

module _ (broker : HandleBroker) {T : Type 0} {o o' : Object T} {f : Format T} (law : Law o o' f)
    (out : WriteStream) (back : ReadStream) (runtime runtime' : Runtime) where
  open broker use {Table}

  -- The bytes of a message are small enough if all that was sent is.
  message_small :
      (before serialized : List ℕ)
      → IsUnsigned usize_size (length (before ++ frame serialized))
      → IsUnsigned usize_size (length serialized)
  message_small before serialized h = omega (
    arith,
    length-append {0} before (frame serialized),
    length-append {0} (le_bytes usize_size (length serialized)) serialized,
  )

  -- What the bytes come to as an object.
  object_arrives :
      (v : T) (valid : f.Valid v)
      → OnWindows broker law v valid
      → (serialized : List ℕ) (t t₁ : Table)
      → serialize_with_handles broker o v t ≡ (ok_value serialized, t₁)
      → (net : back.Net)
      → ((t₂ : Table) × (read_object o' back broker runtime'
              (deserialize_with_handles broker o' serialized t₁)
              t₁
              net
            ≡ (io_ok (some (f.carry v)), t₂, net)))
        ⊎ ((e : Error) × (t₂ : Table) × (read_object o' back broker runtime'
                (deserialize_with_handles broker o' serialized t₁)
                t₁
                net
              ≡ (io_err e, t₂, net)))
  unfolding read_object
  object_arrives v valid on_windows serialized t t₁ h net =
      elim (through_broker broker law v valid on_windows t) [
        | inr (e, t', failed) ↦ let clash = sym h ∙ failed in cc
        | inl (bytes, t', sent_lem, arrives) ↦
            let same : ◌≡◌ {A = Result (List ℕ) Error × Table} (ok_value serialized, t₁)
                (ok_value bytes, t') =
              sym h ∙ sent_lem in
            let bytes_lem : serialized ≡ bytes = cc in
            let table_lem : t₁ ≡ t' = cc in
            elim arrives [
              | inl (t₂, e) ↦ inl (t₂, rw (bytes_lem, table_lem) (rw e refl))
              | inr (x, t₂, e) ↦ inr (x, t₂, rw (bytes_lem, table_lem) (rw e refl))
            ]
      ]

  -- If `send` returns without an error, for a valid value that `through_broker` can carry, and
  -- `recv` is called in the other process with the broker's handles as `send` leaves them and with
  -- what `send` has put on the stream next, then `recv` returns the value as it arrives there and
  -- leaves the bytes that follow, or returns an error, or returns that the channel is closed, and
  -- then the system has reported a reset connection to it.
  pub recv_sent :
      (v : T) (valid : f.Valid v)
      → OnWindows broker law v valid
      → (t t₁ : Table) (net net₁ : out.Net) (net' : back.Net) (later : List ℕ)
      → send out broker runtime o v t net ≡ (io_ok tt, t₁, net₁)
      → IsUnsigned usize_size (length (out.sent net₁))
      → back.incoming net' ≡ drop (length (out.sent net)) (out.sent net₁) ++ later
      → (((recv o' back broker runtime' t₁ net').0 ≡ io_ok (some (f.carry v)))
          × (back.incoming (recv o' back broker runtime' t₁ net').2 ≡ later))
        ⊎ ((e : Error) × ((recv o' back broker runtime' t₁ net').0 ≡ io_err e))
        ⊎ (((recv o' back broker runtime' t₁ net').0 ≡ io_ok none)
            × ((back.read_exact usize_size net').0 ≡ err_value connection_reset))
  unfolding send
  recv_sent v valid on_windows t t₁ net net₁ net' later h small inc =
      let (serialized, ser, s) =
        write_message_sent out broker runtime (serialize_with_handles broker o v t) t₁ net net₁ h in
      let inc' : back.incoming net' ≡ frame serialized ++ later =
        inc
        ∙ ap (λ b. drop (length (out.sent net)) b ++ later) s
        ∙ ap (λ b. b ++ later) (drop-append (out.sent net) (frame serialized)) in
      elim (frame-Reads o' back broker runtime' serialized later t₁ net'
        (message_small (out.sent net) serialized (rw (← s) small)) inc') [
          | inr other ↦ inr other
          | inl (net'', e, rest) ↦
              elim (object_arrives v valid on_windows serialized t t₁ ser net'') [
                | inl (t₂, e') ↦ inl (rw (e, e') refl, rw (e, e') rest)
                | inr (x, t₂, e') ↦ inr (inl (x, rw (e, e') refl))
              ]
        ]

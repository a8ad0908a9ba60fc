-- ===== src/Windows/Stream/Delivery.antt =====
-- A message on a stream of bytes, from `send` to `recv` of src/asynchronous.rs on Windows.
use crossmist.Common.{
  ℕ, ◌≤◌, ◌≡◌, ◌≢◌, ◌⊎◌, inl, inr, refl, sym, ap, ◌∙◌, none, List, ◌++◌, append_assoc, length,
  length-append, take, drop, take-append, drop-append, arith,
}
use crossmist.Common.Bytes.{le_bytes, length-le_bytes, of_le_bytes-le_bytes}
use crossmist.Serde.{Object}
use crossmist.Builtins.Sum.{Result, ok_value, err_value}
use crossmist.Builtins.Scalars.{IsUnsigned, usize_size}
use crossmist.Unix.Socket.{Error, unexpected_eof, connection_reset}
use crossmist.Channel.{Runtime, blocking, tokio, smol, Io, io_ok, io_err}
use crossmist.Windows.{HandleBroker, deserialize_with_handles}
use crossmist.Windows.Stream.{
  WriteStream, ReadStream, then_flush, stream_write, stream_read-read_exact, io_of, write_body,
  write_message, length_error, read_object, read_body, read_length, recv,
}

-- The bytes of a message.
abbrev pub frame : List ℕ → List ℕ
frame serialized = le_bytes usize_size (length serialized) ++ serialized

module _ (stream : WriteStream) where
  open stream use {Net, sent, write_all, flush, write_all_lem, flush_lem}

  abbrev Wrote : Net → List ℕ → Result (Unit {0}) Error × Net → Type 0
  Wrote net buf t =
      ((net' : Net) × (t ≡ (ok_value tt, net')) × (sent net' ≡ sent net ++ buf))
      ⊎ ((e : Error) × (net' : Net) × (t ≡ (err_value e, net')))

  flushed-Wrote :
      (net : Net) (buf : List ℕ) (t : Result (Unit {0}) Error × Net)
      → Wrote net buf t
      → Wrote net buf (then_flush stream t)
  unfolding then_flush
  flushed-Wrote net buf t (inl (net', e, s)) = elim (flush_lem net') [
    | inl (net'', e', s') ↦ inl (net'', rw e e', s' ∙ s)
    | inr (x, net'', e') ↦ inr (x, net'', rw e e')
  ]
  flushed-Wrote net buf t (inr (x, net', e)) = inr (x, net', rw e refl)

  stream_write-Wrote :
      (runtime : Runtime) (buf : List ℕ) (net : Net)
      → Wrote net buf (stream_write stream runtime buf net)
  unfolding stream_write
  stream_write-Wrote blocking buf net = write_all_lem buf net
  stream_write-Wrote tokio buf net = write_all_lem buf net
  stream_write-Wrote smol buf net =
      flushed-Wrote net buf (write_all buf net) (write_all_lem buf net)

  module _ (broker : HandleBroker) (runtime : Runtime) where
    body_sent :
        (serialized : List ℕ) (t t₁ : broker.Table) (net net' net₁ : Net)
        → write_body stream broker runtime serialized t (ok_value tt, net') ≡ (io_ok tt, t₁, net₁)
        → sent net' ≡ sent net ++ le_bytes usize_size (length serialized)
        → (t ≡ t₁) × (sent net₁ ≡ sent net ++ frame serialized)
    unfolding write_body io_of
    body_sent serialized t t₁ net net' net₁ h s =
        elim (stream_write-Wrote runtime serialized net') [
          | inl (net'', e, s') ↦
              let same = rw e at h in
              (
                ap (λ (p : Io (Unit {0}) × broker.Table × Net). p.1) same,
                ap sent (sym (ap (λ (p : Io (Unit {0}) × broker.Table × Net). p.2) same))
                    ∙ s'
                    ∙ ap (λ b. b ++ serialized) s
                    ∙ append_assoc (sent net) (le_bytes usize_size (length serialized)) serialized,
              )
          | inr (x, net'', e) ↦ let same = rw e at h in cc
        ]

    message_sent :
        (serialized : List ℕ) (t t₁ : broker.Table) (net net₁ : Net)
        → write_message stream broker runtime (ok_value serialized, t) net ≡ (io_ok tt, t₁, net₁)
        → (t ≡ t₁) × (sent net₁ ≡ sent net ++ frame serialized)
    unfolding write_message write_body
    message_sent serialized t t₁ net net₁ h =
        elim (stream_write-Wrote runtime (le_bytes usize_size (length serialized)) net) [
          | inl (net', e, s) ↦ body_sent serialized t t₁ net net' net₁ (rw e at h) s
          | inr (x, net', e) ↦ let same = rw e at h in cc
        ]

    pub write_message_sent :
        (value : Result (List ℕ) Error × broker.Table) (t₁ : broker.Table) (net net₁ : Net)
        → write_message stream broker runtime value net ≡ (io_ok tt, t₁, net₁)
        → (serialized : List ℕ) × (value ≡ (ok_value serialized, t₁))
          × (sent net₁ ≡ sent net ++ frame serialized)
    unfolding write_message
    write_message_sent (ok_value serialized, t) t₁ net net₁ h =
        let (same, s) = message_sent serialized t t₁ net net₁ h in
        (serialized, ap (λ t'. (ok_value serialized, t')) same, s)
    write_message_sent (err_value e, t) t₁ net net₁ h = cc

pub take_front : (n : ℕ) (xs ys : List ℕ) → length xs ≡ n → take n (xs ++ ys) ≡ xs
take_front n xs ys e = rw (← e) (take-append xs ys)

drop_front : (n : ℕ) (xs ys : List ℕ) → length xs ≡ n → drop n (xs ++ ys) ≡ ys
drop_front n xs ys e = rw (← e) (drop-append xs ys)

-- Reading a whole message that comes next on the stream.
module _ {T : Type 0} (o : Object T) (stream : ReadStream) (broker : HandleBroker)
    (runtime : Runtime) where
  open stream use {Net, incoming, read_exact, read_exact_lem}

  -- What the receiver comes to: the bytes of the message are read as an object, or there is an error.
  abbrev Reads : List ℕ → List ℕ → broker.Table → Net → Type 0
  Reads serialized later t net =
      ((net' : Net) × (recv o stream broker runtime t net
          ≡ read_object o stream broker runtime (deserialize_with_handles broker o serialized t) t
              net')
        × (incoming net' ≡ later))
      ⊎ ((e : Error) × ((recv o stream broker runtime t net).0 ≡ io_err e))
      ⊎ (((recv o stream broker runtime t net).0 ≡ io_ok none)
          × ((read_exact usize_size net).0 ≡ err_value connection_reset))

  length_error-cases :
      (e : Error)
      → e ≢ unexpected_eof
      → (length_error {T = T} e ≡ io_err e) ⊎ (e ≡ connection_reset)
  unfolding length_error
  length_error-cases unexpected_eof h = absurd (h refl)
  length_error-cases connection_reset h = inr refl
  length_error-cases _ h = inl refl

  frame-length : (serialized later : List ℕ) → usize_size ≤ length (frame serialized ++ later)
  frame-length serialized later = omega (
    arith,
    length-append {0} (frame serialized) later,
    length-append {0} (le_bytes usize_size (length serialized)) serialized,
    length-le_bytes usize_size (length serialized),
  )

  -- The body, once the length is read.
  body_read :
      (serialized later : List ℕ) (t : broker.Table) (net : Net)
      → incoming net ≡ serialized ++ later
      → ((net' : Net) × (read_body o stream broker runtime t (read_exact (length serialized) net)
            ≡ read_object o stream broker runtime
                (deserialize_with_handles broker o serialized t)
                t
                net')
          × (incoming net' ≡ later))
        ⊎ ((e : Error) × ((read_body o stream broker runtime t
                (read_exact (length serialized) net)).0
              ≡ io_err e))
  unfolding read_body
  body_read serialized later t net inc =
      elim (read_exact_lem (length serialized) net
        (rw inc (omega (arith, length-append {0} serialized later)))) [
          | inl (net', e, rest) ↦ inl (
            net',
            rw e (rw inc (rw (take-append serialized later) refl)),
            rest ∙ ap (drop (length serialized)) inc ∙ drop-append serialized later,
          )
          | inr (x, net', e, other) ↦ inr (x, rw e refl)
        ]

  pub frame-Reads :
      (serialized later : List ℕ) (t : broker.Table) (net : Net)
      → IsUnsigned usize_size (length serialized)
      → incoming net ≡ frame serialized ++ later
      → Reads serialized later t net
  unfolding recv read_length
  frame-Reads serialized later t net small inc =
      let same = stream_read-read_exact stream runtime usize_size net in
      let header : List ℕ = le_bytes usize_size (length serialized) in
      let inc' = inc ∙ append_assoc header serialized later in
      let sized = length-le_bytes usize_size (length serialized) in
      elim (read_exact_lem usize_size net (rw inc (frame-length serialized later))) [
        | inl (net', e, rest) ↦
            let len =
              ap (take usize_size) inc'
              ∙ take_front usize_size header (serialized ++ later) sized in
            let rest' =
              rest
              ∙ ap (drop usize_size) inc'
              ∙ drop_front usize_size header (serialized ++ later) sized in
            rw
              (
                same,
                e,
                len,
                of_le_bytes-le_bytes usize_size (length serialized) small,
                stream_read-read_exact stream runtime (length serialized) net',
              )
              (elim (body_read serialized later t net' rest') [
                | inl found ↦ inl found
                | inr failed ↦ inr (inl failed)
              ])
        | inr (x, net', e, other) ↦ elim (length_error-cases x other) [
          | inl failed ↦ inr (inl (x, rw (same, e) failed))
          | inr reset ↦ inr (inr (rw (same, e, reset) refl, rw (e, reset) refl))
        ]
      ]

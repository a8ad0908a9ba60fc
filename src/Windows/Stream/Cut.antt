-- ===== src/Windows/Stream/Cut.antt =====
-- A stream that ends within a message, for `recv` of src/asynchronous.rs on Windows.
use crossmist.Common.{
  ℕ, ◌≤◌, ◌<◌, ◌≡◌, ◌≢◌, ◌⊎◌, inl, inr, refl, sym, ap, ◌∙◌, none, List, [], ◌∷◌, ◌++◌, zero, suc,
  length-drop, length, length-append, take, lt_or_ge, arith,
}
use crossmist.Common.Bytes.{le_bytes, length-le_bytes, of_le_bytes-le_bytes}
use crossmist.Serde.{Object}
use crossmist.Builtins.Sum.{err_value}
use crossmist.Builtins.Scalars.{IsUnsigned, usize_size}
use crossmist.Unix.Socket.{Error, unexpected_eof, connection_reset}
use crossmist.Channel.{Runtime, io_ok, io_err}
use crossmist.Windows.{HandleBroker}
use crossmist.Windows.Stream.{
  ReadStream, stream_read-read_exact, length_error, read_body, read_length, recv,
}
use crossmist.Windows.Stream.Delivery.{frame, take_front}

take_within : (n : ℕ) (xs ys : List ℕ) → n ≤ length xs → take n (xs ++ ys) ≡ take n xs
take_within zero xs ys h = refl
take_within (suc n) [] ys h = elim h [ ]
take_within (suc n) (x ∷ xs) ys h = ap (λ l. x ∷ l) (take_within n xs ys (omega arith))

nonempty_length : (xs : List ℕ) → xs ≢ [] → 0 < length xs
nonempty_length [] h = absurd (h refl)
nonempty_length (x ∷ xs) h = omega arith

module _ {T : Type 0} (o : Object T) (stream : ReadStream) (broker : HandleBroker)
    (runtime : Runtime) where
  open stream use {Net, incoming, read_exact, read_exact_lem, read_short_lem}

  length_error-cases :
      (e : Error)
      → ((length_error {T = T} e ≡ io_ok none) × ((e ≡ unexpected_eof) ⊎ (e ≡ connection_reset)))
        ⊎ (length_error {T = T} e ≡ io_err e)
  unfolding length_error
  length_error-cases unexpected_eof = inl (refl, inl refl)
  length_error-cases connection_reset = inl (refl, inr refl)
  length_error-cases _ = inr refl

  abbrev NoValue : broker.Table → Net → Type 0
  NoValue t net =
      (((recv o stream broker runtime t net).0 ≡ io_ok none)
        × (((read_exact usize_size net).0 ≡ err_value unexpected_eof)
            ⊎ ((read_exact usize_size net).0 ≡ err_value connection_reset)))
      ⊎ ((e : Error) × ((recv o stream broker runtime t net).0 ≡ io_err e))

  failed_length :
      (t : broker.Table) (net net' : Net) (e : Error)
      → read_exact usize_size net ≡ (err_value e, net')
      → NoValue t net
  unfolding recv read_length
  failed_length t net net' e h =
      let same = stream_read-read_exact stream runtime usize_size net in
      elim (length_error-cases e) [
        | inl (nothing, inl eof) ↦ inl (rw (same, h, nothing) refl, inl (rw (h, eof) refl))
        | inl (nothing, inr reset) ↦ inl (rw (same, h, nothing) refl, inr (rw (h, reset) refl))
        | inr failed ↦ inr (e, rw (same, h, failed) refl)
      ]

  -- The length of a message is there, and its body is not.
  cut_body :
      (serialized missing : List ℕ) (t : broker.Table) (net : Net)
      → IsUnsigned usize_size (length serialized)
      → incoming net ++ missing ≡ frame serialized
      → missing ≢ []
      → usize_size ≤ length (incoming net)
      → NoValue t net
  unfolding recv read_length read_body
  cut_body serialized missing t net small cut some_missing long =
      elim (read_exact_lem usize_size net long) [
        | inl (net', e, rest) ↦
            let header : List ℕ = le_bytes usize_size (length serialized) in
            let sized = length-le_bytes usize_size (length serialized) in
            let len : take usize_size (incoming net) ≡ header =
              sym (take_within usize_size (incoming net) missing long)
              ∙ ap (take usize_size) cut
              ∙ take_front usize_size header serialized sized in
            let some_length = nonempty_length missing some_missing in
            let short : length (incoming net') < length serialized = omega (
              arith,
              ap length rest,
              length-drop usize_size (incoming net),
              ap length cut,
              length-append {0} (incoming net) missing,
              length-append {0} header serialized,
            ) in
            let (x, net'', failed) = read_short_lem (length serialized) net' short in
            inr (
              x,
              rw
                  (
                    stream_read-read_exact stream runtime usize_size net,
                    e,
                    len,
                    of_le_bytes-le_bytes usize_size (length serialized) small,
                    stream_read-read_exact stream runtime (length serialized) net',
                    failed,
                  )
                  refl,
            )
        | inr (x, net', e, other) ↦ failed_length t net net' x e
      ]

  -- If the stream ends within a message, then `recv` returns no value: it returns an error, or that the
  -- channel is closed, and then the system has reported the end of the stream or a reset connection
  -- while `recv` read the length.
  pub message_cut :
      (serialized missing : List ℕ) (t : broker.Table) (net : Net)
      → IsUnsigned usize_size (length serialized)
      → incoming net ++ missing ≡ frame serialized
      → missing ≢ []
      → NoValue t net
  message_cut serialized missing t net small cut some_missing =
      elim (lt_or_ge (length (incoming net)) usize_size) [
        | inl short ↦
            let (e, net', failed) = read_short_lem usize_size net short in
            failed_length t net net' e failed
        | inr long ↦ cut_body serialized missing t net small cut some_missing long
      ]

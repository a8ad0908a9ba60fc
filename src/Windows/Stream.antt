-- ===== src/Windows/Stream.antt =====
-- src/asynchronous.rs, `send`, `recv` and `request` on Windows, where a channel is a stream of
-- bytes: a message is its length and its bytes. The streams are those of src/blocking.rs,
-- src/tokio.rs and src/smol.rs; the calls of the runtimes that these make are the records
-- `WriteStream` and `ReadStream`.
pub mod Delivery
pub mod Cut
pub mod RoundTrip
use crossmist.Common.{
  ℕ, ◌≤◌, ◌<◌, ◌≡◌, ◌≢◌, ◌⊎◌, refl, Option, none, some, List, [], ◌++◌, length, take, drop,
}
use crossmist.Common.Bytes.{le_bytes, of_le_bytes}
use crossmist.Serde.{Outcome, ok, panicked, undefined, Object}
use crossmist.Builtins.Sum.{Result, ok_value, err_value}
use crossmist.Builtins.Scalars.{usize_size}
use crossmist.Unix.Socket.{Error, would_block, unexpected_eof, connection_reset}
use crossmist.Channel.{
  Runtime, blocking, tokio, smol, Io, io_ok, io_err, io_panic, io_undefined, gave_up, response,
}
use crossmist.Windows.{HandleBroker, serialize_with_handles, deserialize_with_handles}

-- The sending end of a stream. `sent` is all that was put on it so far.
pub record WriteStream : Type 1 where
  pub Net : Type 0
  pub sent : Net → List ℕ
  pub write_all : List ℕ → Net → Result (Unit {0}) Error × Net
  pub flush : Net → Result (Unit {0}) Error × Net
  pub write_all_lem :
      (buf : List ℕ) (net : Net)
      → ((net' : Net) × (write_all buf net ≡ (ok_value tt, net')) × (sent net' ≡ sent net ++ buf))
        ⊎ ((e : Error) × (net' : Net) × (write_all buf net ≡ (err_value e, net')))
  pub flush_lem :
      (net : Net)
      → ((net' : Net) × (flush net ≡ (ok_value tt, net')) × (sent net' ≡ sent net))
        ⊎ ((e : Error) × (net' : Net) × (flush net ≡ (err_value e, net')))

-- The receiving end. `incoming` is what the peer has sent or will send and was not read yet.
pub record ReadStream : Type 1 where
  pub Net : Type 0
  pub incoming : Net → List ℕ
  pub read_exact : ℕ → Net → Result (List ℕ) Error × Net
  pub read_exact_lem :
      (count : ℕ) (net : Net)
      → count ≤ length (incoming net)
      → ((net' : Net) × (read_exact count net ≡ (ok_value (take count (incoming net)), net'))
          × (incoming net' ≡ drop count (incoming net)))
        ⊎ ((e : Error) × (net' : Net) × (read_exact count net ≡ (err_value e, net'))
            × (e ≢ unexpected_eof))
  -- The end of the stream comes too early.
  pub read_short_lem :
      (count : ℕ) (net : Net)
      → length (incoming net) < count
      → (e : Error) × (net' : Net) × (read_exact count net ≡ (err_value e, net'))

module _ (stream : WriteStream) where
  unfoldable pub then_flush :
      Result (Unit {0}) Error × stream.Net → Result (Unit {0}) Error × stream.Net
  then_flush (ok_value u, net) = stream.flush net
  then_flush (err_value e, net) = (err_value e, net)

  -- `write` of `Blocking`, of `Tokio` and of `Smol`
  unfoldable pub plain_write : List ℕ → stream.Net → Result (Unit {0}) Error × stream.Net
  plain_write buf net = stream.write_all buf net

  unfoldable pub tokio_write : List ℕ → stream.Net → Result (Unit {0}) Error × stream.Net
  tokio_write buf net = stream.write_all buf net

  unfoldable pub smol_write : List ℕ → stream.Net → Result (Unit {0}) Error × stream.Net
  unfolding then_flush
  smol_write buf net = then_flush (stream.write_all buf net)

  -- `AsyncStream::write`
  unfoldable pub stream_write : Runtime → List ℕ → stream.Net → Result (Unit {0}) Error × stream.Net
  unfolding plain_write tokio_write smol_write
  stream_write blocking buf net = plain_write buf net
  stream_write tokio buf net = tokio_write buf net
  stream_write smol buf net = smol_write buf net

  unfoldable pub io_of : Result (Unit {0}) Error → Io (Unit {0})
  io_of (ok_value u) = io_ok u
  io_of (err_value e) = io_err e

  module _ (broker : HandleBroker) (runtime : Runtime) where
    abbrev pub Sent : Type 0
    Sent = Io (Unit {0}) × broker.Table × stream.Net

    unfoldable pub write_body : List ℕ → broker.Table → Result (Unit {0}) Error × stream.Net → Sent
    unfolding io_of
    write_body serialized t (ok_value u, net) =
        let (result, net') = stream_write runtime serialized net in (io_of result, t, net')
    write_body serialized t (err_value e, net) = (io_err e, t, net)

    unfoldable pub write_message : Result (List ℕ) Error × broker.Table → stream.Net → Sent
    unfolding write_body
    write_message (ok_value serialized, t) net =
        write_body serialized t (stream_write runtime (le_bytes usize_size (length serialized)) net)
    write_message (err_value e, t) net = (io_err e, t, net)

    -- `Sender::send`
    unfoldable pub send : {T : Type 0} → Object T → T → broker.Table → stream.Net → Sent
    unfolding write_message
    send o value t net = write_message (serialize_with_handles broker o value t) net

    -- `Duplex::send`
    unfoldable pub duplex_send : {T : Type 0} → Object T → T → broker.Table → stream.Net → Sent
    unfolding write_message
    duplex_send o value t net = write_message (serialize_with_handles broker o value t) net

-- A read of the length that ends the channel.
unfoldable pub length_error : {T : Type 0} → Error → Io (Option T)
length_error unexpected_eof = io_ok none
length_error connection_reset = io_ok none
length_error e = io_err e

module _ (stream : ReadStream) where
  -- `….await?; Ok(())`
  unfoldable pub then_ok : Result (List ℕ) Error × stream.Net → Result (List ℕ) Error × stream.Net
  then_ok (ok_value buf, net) = (ok_value buf, net)
  then_ok (err_value e, net) = (err_value e, net)

  -- `read` of `Blocking`, of `Tokio` and of `Smol`
  unfoldable pub plain_read : ℕ → stream.Net → Result (List ℕ) Error × stream.Net
  plain_read count net = stream.read_exact count net

  unfoldable pub tokio_read : ℕ → stream.Net → Result (List ℕ) Error × stream.Net
  unfolding then_ok
  tokio_read count net = then_ok (stream.read_exact count net)

  unfoldable pub smol_read : ℕ → stream.Net → Result (List ℕ) Error × stream.Net
  unfolding then_ok
  smol_read count net = then_ok (stream.read_exact count net)

  -- `AsyncStream::read`
  unfoldable pub stream_read : Runtime → ℕ → stream.Net → Result (List ℕ) Error × stream.Net
  unfolding plain_read tokio_read smol_read
  stream_read blocking count net = plain_read count net
  stream_read tokio count net = tokio_read count net
  stream_read smol count net = smol_read count net

  then_ok-same : (t : Result (List ℕ) Error × stream.Net) → then_ok t ≡ t
  unfolding then_ok
  then_ok-same (ok_value buf, net) = refl
  then_ok-same (err_value e, net) = refl

  pub stream_read-read_exact :
      (runtime : Runtime) (count : ℕ) (net : stream.Net)
      → stream_read runtime count net ≡ stream.read_exact count net
  unfolding stream_read
  stream_read-read_exact blocking count net = refl
  stream_read-read_exact tokio count net = then_ok-same (stream.read_exact count net)
  stream_read-read_exact smol count net = then_ok-same (stream.read_exact count net)

module _ {T : Type 0} (o : Object T) (stream : ReadStream) (broker : HandleBroker)
    (runtime : Runtime) where
  abbrev pub Received : Type 0
  Received = Io (Option T) × broker.Table × stream.Net

  unfoldable pub read_object :
      Outcome (Result T Error × broker.Table) → broker.Table → stream.Net → Received
  read_object (ok (ok_value v, t)) t₀ net = (io_ok (some v), t, net)
  read_object (ok (err_value e, t)) t₀ net = (io_err e, t, net)
  read_object (panicked p) t₀ net = (io_panic, t₀, net)
  read_object undefined t₀ net = (io_undefined, t₀, net)

  unfoldable pub read_body : broker.Table → Result (List ℕ) Error × stream.Net → Received
  unfolding read_object
  read_body t (ok_value serialized, net) =
      read_object (deserialize_with_handles broker o serialized t) t net
  read_body t (err_value e, net) = (io_err e, t, net)

  unfoldable pub read_length : broker.Table → Result (List ℕ) Error × stream.Net → Received
  unfolding read_body length_error
  read_length t (ok_value len, net) = read_body t (stream_read stream runtime (of_le_bytes len) net)
  read_length t (err_value e, net) = (length_error e, t, net)

  -- `Receiver::recv`
  unfoldable pub recv : broker.Table → stream.Net → Received
  unfolding read_length
  recv t net = read_length t (stream_read stream runtime usize_size net)

  -- `Duplex::recv`
  unfoldable pub duplex_recv : broker.Table → stream.Net → Received
  unfolding read_length
  duplex_recv t net = read_length t (stream_read stream runtime usize_size net)

-- ===== src/Tests/Streams.antt =====
-- Channels of src/asynchronous.rs on Windows, over a stream that keeps its bytes in a list.
use crossmist.Common.{
  ℕ, ◌≤◌, ◌<◌, ◌≡◌, ◌≢◌, ◌⊎◌, inl, refl, none, some, List, [], ◌∷◌, ◌++◌, length, take, drop, leb,
  le→leb, lt→leb, if◌then◌else◌, arith,
}
use crossmist.Builtins.Sum.{Result, ok_value, err_value}
use crossmist.Builtins.Scalars.{usize_size}
use crossmist.Common.Bytes.{le_bytes}
use crossmist.Serde.{write, serialize_each}
use crossmist.Builtins.Sequence.{sequence_serialize}
use crossmist.Windows.{try_each, serialize_with_handles}
use crossmist.Windows.Stream.Delivery.{frame}
use crossmist.Builtins.Resource.{push_handle, handle_object, handle-Law}
use crossmist.Unix.Socket.{Error, unexpected_eof, connection_reset}
use crossmist.Channel.{smol, io_ok, io_err}
use crossmist.Windows.Stream.{WriteStream, ReadStream, stream_write, send, recv}
use crossmist.Windows.Stream.RoundTrip.{recv_sent}
use crossmist.Windows.Stream.Cut.{message_cut}
use crossmist.Tests.Handles.{list_broker, seven-OnWindows}

abbrev pub byte_writer : WriteStream
byte_writer = record {
  Net = List ℕ;
  sent = λ net. net;
  write_all = λ buf net. (ok_value tt, net ++ buf);
  flush = λ net. (ok_value tt, net);
  write_all_lem = λ buf net. inl (net ++ buf, refl, refl);
  flush_lem = λ net. inl (net, refl, refl);
}

abbrev pub read_bytes : ℕ → List ℕ → Result (List ℕ) Error × List ℕ
read_bytes count net =
    if leb count (length net)
    then (ok_value (take count net), drop count net)
    else (err_value unexpected_eof, [])

pub read_bytes_lem :
    (count : ℕ) (net : List ℕ)
    → count ≤ length net
    → ((net' : List ℕ) × (read_bytes count net ≡ (ok_value (take count net), net'))
        × (net' ≡ drop count net))
      ⊎ ((e : Error) × (net' : List ℕ) × (read_bytes count net ≡ (err_value e, net'))
          × (e ≢ unexpected_eof))
read_bytes_lem count net h = inl (drop count net, rw (le→leb count (length net) h) refl, refl)

pub read_bytes_short :
    (count : ℕ) (net : List ℕ)
    → length net < count
    → (e : Error) × (net' : List ℕ) × (read_bytes count net ≡ (err_value e, net'))
read_bytes_short count net h = (unexpected_eof, [], rw (lt→leb count (length net) h) refl)

abbrev pub byte_reader : ReadStream
byte_reader = record {
  Net = List ℕ;
  incoming = λ net. net;
  read_exact = read_bytes;
  read_exact_lem = read_bytes_lem;
  read_short_lem = read_bytes_short;
}

-- The length of a message, one handle of the broker and no sockets, as numbers of eight bytes.
abbrev pub eight_bytes : ℕ → List ℕ
eight_bytes n = n ∷ 0 ∷ 0 ∷ 0 ∷ 0 ∷ 0 ∷ 0 ∷ 0 ∷ []

abbrev pub seven_message : List ℕ
seven_message = eight_bytes 1 ++ (eight_bytes 1 ++ eight_bytes 0)

abbrev pub seven_frame : List ℕ
seven_frame = eight_bytes 24 ++ seven_message

pub seven_sent :
    send byte_writer list_broker smol handle_object 7 (5 ∷ []) (1 ∷ [])
    ≡ (io_ok tt, 5 ∷ 7 ∷ [], 1 ∷ seven_frame)
unfolding send serialize_with_handles push_handle try_each stream_write le_bytes write
    sequence_serialize serialize_each
seven_sent = refl

recv_sent_example :
    (((recv handle_object byte_reader list_broker smol (5 ∷ 7 ∷ []) (seven_frame ++ 2 ∷ [])).0
        ≡ io_ok (some 7))
      × ((recv handle_object byte_reader list_broker smol (5 ∷ 7 ∷ []) (seven_frame ++ 2 ∷ [])).2
          ≡ 2 ∷ []))
    ⊎ ((e : Error) × ((recv handle_object byte_reader list_broker smol
            (5 ∷ 7 ∷ [])
            (seven_frame ++ 2 ∷ [])).0
          ≡ io_err e))
    ⊎ (((recv handle_object byte_reader list_broker smol (5 ∷ 7 ∷ []) (seven_frame ++ 2 ∷ [])).0
          ≡ io_ok none)
        × ((read_bytes usize_size (seven_frame ++ 2 ∷ [])).0 ≡ err_value connection_reset))
recv_sent_example =
    recv_sent list_broker handle-Law byte_writer byte_reader smol smol 7 tt seven-OnWindows (5 ∷ [])
      (5 ∷ 7 ∷ []) (1 ∷ []) (1 ∷ seven_frame) (seven_frame ++ 2 ∷ []) (2 ∷ []) seven_sent
      (omega arith) refl

abbrev most_of_seven : List ℕ
most_of_seven = eight_bytes 24 ++ (eight_bytes 1 ++ eight_bytes 1)

seven_cut : most_of_seven ++ eight_bytes 0 ≡ frame seven_message
unfolding le_bytes
seven_cut = refl

message_cut_example :
    (((recv handle_object byte_reader list_broker smol (5 ∷ 7 ∷ []) most_of_seven).0 ≡ io_ok none)
      × (((read_bytes usize_size most_of_seven).0 ≡ err_value unexpected_eof)
          ⊎ ((read_bytes usize_size most_of_seven).0 ≡ err_value connection_reset)))
    ⊎ ((e : Error) × ((recv handle_object byte_reader list_broker smol (5 ∷ 7 ∷ []) most_of_seven).0
          ≡ io_err e))
message_cut_example =
    message_cut handle_object byte_reader list_broker smol seven_message (eight_bytes 0)
      (5 ∷ 7 ∷ []) most_of_seven (omega arith) seven_cut (λ e. cc)

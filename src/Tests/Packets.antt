-- ===== src/Tests/Packets.antt =====
-- Single objects on a socket, at concrete inputs.
use crossmist.Common.{◌≢◌, refl, arith, true, List, [], ◌∷◌, ◌++◌}
use crossmist.Builtins.Shape.{object}
use crossmist.Unix.Socket.{Packet}
use crossmist.Unix.Wire.{packet, Splits, last, more}
use crossmist.Unix.Sender.{Sender, send_next}
use crossmist.Unix.Sender.Splitting.{IsReady}
use crossmist.Unix.Sender.Sends.{Sends, send_next-Sends}
use crossmist.Unix.Receiver.{Receiver, receiver_new, recv_next}
use crossmist.Unix.Receiver.Gathering.{receiver_new-Gathered}
use crossmist.Unix.Receiver.Whole.{Pending, Receives, recv_next-Receives}
use crossmist.Tests.Queue.{send_queue, recv_queue}
use crossmist.Tests.Values.{a_shape}

-- Half-way through an object
abbrev a_sender : Sender
a_sender = record {
  fds = 5 ∷ 6 ∷ [];
  buffer = 1 ∷ 2 ∷ 3 ∷ [];
  data_pos = 1;
  fds_pos = 1;
  dontwait = true;
}

a_sender-IsReady : IsReady a_sender
a_sender-IsReady = record { data_inside = omega arith; fds_inside = omega arith }

send_next-Sends_example : Sends send_queue a_sender (0, []) (send_next send_queue a_sender (0, []))
send_next-Sends_example = send_next-Sends send_queue a_sender (0, []) a_sender-IsReady

-- An object in two packets
abbrev pub two_packets : List Packet
two_packets = packet 0 (1 ∷ 2 ∷ []) (7 ∷ []) ∷ packet 1 (3 ∷ []) (8 ∷ []) ∷ []

pub two_packets-Splits : Splits (1 ∷ 2 ∷ 3 ∷ []) (7 ∷ 8 ∷ []) two_packets
two_packets-Splits =
    more (1 ∷ 2 ∷ []) (7 ∷ []) (omega arith) (omega arith) (omega arith)
      (last (3 ∷ []) (8 ∷ []) (omega arith) (omega arith))

abbrev something_later : List Packet
something_later = packet 1 [] [] ∷ []

two_packets-Pending :
    Pending
      (object a_shape)
      recv_queue
      (1 ∷ 2 ∷ 3 ∷ [])
      (7 ∷ 8 ∷ [])
      something_later
      (receiver_new true)
      (0, two_packets ++ something_later)
two_packets-Pending = record {
  got = [];
  got_fds = [];
  left = 1 ∷ 2 ∷ 3 ∷ [];
  left_fds = 7 ∷ 8 ∷ [];
  packets = two_packets;
  gathering = receiver_new-Gathered true;
  splits = two_packets-Splits;
  bytes_lem = refl;
  fds_lem = refl;
  incoming_lem = refl;
}

recv_next-Receives_example :
    Receives
      (object a_shape)
      recv_queue
      (1 ∷ 2 ∷ 3 ∷ [])
      (7 ∷ 8 ∷ [])
      something_later
      (0, two_packets ++ something_later)
      (recv_next
        (object a_shape)
        recv_queue
        3
        (receiver_new true)
        (0, two_packets ++ something_later))
recv_next-Receives_example =
    recv_next-Receives (object a_shape) recv_queue 3 (receiver_new true)
      (0, two_packets ++ something_later) two_packets-Pending (omega arith)

abbrev pub first_packet : List Packet
first_packet = packet 0 (1 ∷ 2 ∷ []) (7 ∷ []) ∷ []

pub first_packet-some : first_packet ≢ []
first_packet-some e = cc

abbrev a_receiver : Receiver
a_receiver = receiver_new true

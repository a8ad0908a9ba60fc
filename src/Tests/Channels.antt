-- ===== src/Tests/Channels.antt =====
-- Channels at concrete inputs.
use crossmist.Common.{ℕ, ◌≡◌, ◌≢◌, ◌⊎◌, refl, arith, true, false, some, List, [], ◌∷◌}
use crossmist.Builtins.Resource.{push_fd, next_fd, fd_object, fd-Law}
use crossmist.Unix.Socket.{Error}
use crossmist.Unix.Wire.{packet, Splits, last}
use crossmist.Unix.Sender.{
  sender_new, buffer_end, fds_end, is_last, packet_content, packet_rights, advance, send_fuel,
  after_sendmsg, send_loop, send_next,
}
use crossmist.Unix.Receiver.{
  resize, overwrite, extend_fds, received_object, finish, after_fds, after_cmsgs, after_recvmsg,
  recv_loop, recv_next,
}
use crossmist.Channel.{
  io_ok, io_err, gave_up, request, send_io, recv_io, is_would_block, calls_again, after_write,
  blocking_write, send, after_read, blocking_read, recv,
}
use crossmist.Channel.Sending.{Puts, send-Puts}
use crossmist.Channel.Delivery.{sent_none, sent_next, got_none, got_next, first_in_first_out}
use crossmist.Channel.Patience.Receiving.{recv-ends}
use crossmist.Channel.Outcomes.{GetsOrFails, recv_object, recv_cut}
use crossmist.Channel.Requests.{IsRefused, request_answered, request_unanswered}
use crossmist.Tests.Packets.{first_packet, first_packet-some, two_packets-Splits}
use crossmist.Tests.Queue.{Queue, send_queue, recv_queue, send_queue_patience, recv_queue_patience}

send-Puts_example :
    Puts send_queue (Splits [] (7 ∷ [])) (2, []) (send send_queue fd_object 3 false 7 (2, []))
send-Puts_example = send-Puts send_queue fd-Law 3 false 7 (2, [])

-- The first call would block once.
seven_sent :
    send send_queue fd_object 2 false 7 (1, []) ≡ (io_ok tt, (0, packet 1 [] (7 ∷ []) ∷ []))
unfolding send blocking_write after_write calls_again send_io is_would_block send_next send_loop
    send_fuel after_sendmsg packet_content packet_rights is_last buffer_end fds_end advance
    sender_new push_fd
seven_sent = refl

eight_sent :
    send send_queue fd_object 1 true 8 (0, packet 1 [] (7 ∷ []) ∷ [])
    ≡ (io_ok tt, (0, packet 1 [] (7 ∷ []) ∷ packet 1 [] (8 ∷ []) ∷ []))
unfolding send blocking_write after_write calls_again send_io is_would_block send_next send_loop
    send_fuel after_sendmsg packet_content packet_rights is_last buffer_end fds_end advance
    sender_new push_fd
eight_sent = refl

seven_got :
    recv fd_object recv_queue 2 false (1, packet 1 [] (7 ∷ []) ∷ packet 1 [] (8 ∷ []) ∷ [])
    ≡ (io_ok (some 7), (0, packet 1 [] (8 ∷ []) ∷ []))
unfolding recv blocking_read after_read calls_again recv_io is_would_block recv_next recv_loop
    after_recvmsg after_cmsgs after_fds finish received_object extend_fds overwrite resize next_fd
seven_got = refl

abbrev seven : List ℕ
seven = 7 ∷ []

first_in_first_out_example : seven ≡ 7 ∷ []
first_in_first_out_example =
    first_in_first_out fd-Law (λ v. tt) (λ v. refl) send_queue recv_queue (1, [])
      (0, packet 1 [] (7 ∷ []) ∷ packet 1 [] (8 ∷ []) ∷ [])
      (1, packet 1 [] (7 ∷ []) ∷ packet 1 [] (8 ∷ []) ∷ []) (0, packet 1 [] (8 ∷ []) ∷ [])
      (7 ∷ 8 ∷ []) (7 ∷ []) []
      (sent_next 2 false 7 seven_sent (sent_next 1 true 8 eight_sent sent_none)) refl
      (got_next 2 false 7 seven_got got_none) (omega arith)

recv-ends_example : (recv fd_object recv_queue 3 false (2, first_packet)).0 ≢ gave_up
recv-ends_example =
    recv-ends fd_object recv_queue recv_queue_patience 3 false (2, first_packet) (omega arith)

abbrev seven_comes : Queue
seven_comes = (2, packet 1 [] (7 ∷ []) ∷ packet 1 [] (8 ∷ []) ∷ [])

recv_object_example :
    GetsOrFails fd_object recv_queue 7
      (packet 1 [] (8 ∷ []) ∷ [])
      seven_comes
      (recv fd_object recv_queue 3 false seven_comes)
recv_object_example =
    recv_object fd-Law recv_queue recv_queue_patience 3 false 7 tt refl seven_comes
      (packet 1 [] (7 ∷ []) ∷ []) (packet 1 [] (8 ∷ []) ∷ []) (omega arith)
      (last [] (7 ∷ []) (omega arith) (omega arith)) refl

recv_cut_example :
    (e : Error) × ((recv fd_object recv_queue 3 false (2, first_packet)).0 ≡ io_err e)
recv_cut_example =
    recv_cut fd_object recv_queue recv_queue_patience 3 false (2, first_packet) first_packet []
      (packet 1 (3 ∷ []) (8 ∷ [])) (omega arith) two_packets-Splits first_packet-some refl

request_answered_example :
    ((request fd_object fd_object send_queue recv_queue 3 false 6 (2, []) seven_comes).0 ≡ io_ok 7)
    ⊎ ((e : Error) × ((request fd_object fd_object send_queue recv_queue 3 false 6
            (2, [])
            seven_comes).0
          ≡ io_err e)
        × IsRefused fd-Law fd-Law send_queue recv_queue send_queue_patience recv_queue_patience 3
            false 6
            (2, [])
            seven_comes
            e)
request_answered_example =
    request_answered fd-Law fd-Law send_queue recv_queue send_queue_patience recv_queue_patience 3
      false 6 7 tt refl (2, []) seven_comes (packet 1 [] (7 ∷ []) ∷ []) (packet 1 [] (8 ∷ []) ∷ [])
      (omega arith) (omega arith) (last [] (7 ∷ []) (omega arith) (omega arith)) refl

request_unanswered_example :
    (e : Error) × ((request fd_object fd_object send_queue recv_queue 3 false 6 (2, []) (1, [])).0
      ≡ io_err e)
request_unanswered_example =
    request_unanswered fd-Law fd-Law send_queue recv_queue send_queue_patience recv_queue_patience 3
      false 6 (2, []) (1, []) (omega arith) (omega arith) refl

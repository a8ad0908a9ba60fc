-- ===== src/Tests/Launching.antt =====
-- `spawn` of src/asynchronous.rs, and a call of a function in another process, at concrete inputs.
use crossmist.Common.{
  ℕ, zero, suc, ◌≡◌, ◌⊎◌, inl, inr, refl, sym, ap, ◌∙◌, arith, true, false, none, some, List, [],
  ◌∷◌, ◌++◌, length,
}
use crossmist.Builtins.Sum.{Result, ok_value, err_value}
use crossmist.Builtins.Resource.{fd_object, fd-Law, push_fd, next_fd}
use crossmist.Unix.Socket.{Error, would_block, Packet}
use crossmist.Channel.{
  tokio, Io, io_ok, send, blocking_write, after_write, calls_again, send_io, is_would_block, recv,
  blocking_read, after_read, recv_io,
}
use crossmist.Process.Launching.{
  close_each, spawn, after_duplex, after_try_new, after_spawn, after_send, try_new,
  after_nonblocking, spawn_child, with_actions, actions_dropped, after_dup, after_destroy,
}
use crossmist.Start.{perform_sanity_checks}
use crossmist.Serde.{write, read}
use crossmist.Builtins.Wrapper.{wrapper_serialize, wrapper_deserialize}
use crossmist.Builtins.Pod.{pod_deserialize}
use crossmist.Builtins.Tuple.{tuple_serialize, serialize_rev, field_writes}
use crossmist.Common.Bytes.{le_bytes, of_le_bytes}
use crossmist.Relocation.{to_offset, of_offset}
use crossmist.Unix.Wire.{packet}
use crossmist.Unix.Sender.{
  send_fuel, send_next, send_loop, after_sendmsg, advance, is_last, buffer_end, fds_end,
  packet_rights, packet_content, sender_new,
}
use crossmist.Process.Launching.Calls.{LaunchCalls}
use crossmist.Process.Launching.Launched.{Launches, spawn-Launches}
use crossmist.Unix.Receiver.{
  recv_next, recv_loop, after_recvmsg, after_cmsgs, after_fds, finish, received_object, extend_fds,
  overwrite, resize,
}
use crossmist.Process.Spawning.{
  exited, handle_entry, after_recv, read_entry, enter, entrypoint, call_with, after_call,
}
use crossmist.Process.{join}
use crossmist.Process.Joining.{Joins, Fails, outcome}
use crossmist.Process.Remote.{Begun, remote_call}
use crossmist.Tests.Processes.{one_process}
use crossmist.Tests.Starting.{some_files}
use crossmist.Tests.Queue.{send_queue, recv_queue, recv_queue_patience}
use crossmist.Tests.Images.{entries, give_back, entry-IsAt}
use crossmist.Tests.Pairing.{fresh_after, fresh_after-All, put, put_same, without, without-append}

-- The sockets of a machine: how often `sendmsg` would block, the open descriptors, the children, and
-- what was sent.
record Machine : Type 0 where
  busy : ℕ
  opened : List ℕ
  children : List (ℕ × List (List ℕ))
  packets : ℕ → List Packet

abbrev pair : Machine → Result (ℕ × ℕ) Error × Machine
pair w =
    let a = fresh_after 0 w.opened in
    let b = fresh_after 0 (a ∷ w.opened) in
    (ok_value (a, b), record w { opened = b ∷ a ∷ w.opened; packets = put a [] w.packets })

abbrev sends : ℕ → ℕ → List ℕ → List ℕ → Machine → Result ℕ Error × Machine
sends zero fd content rights w = (
  ok_value (length content),
  record w {
    packets = put fd (w.packets fd ++ record { content = content; rights = rights } ∷ []) w.packets;
  },
)
sends (suc n) fd content rights w = (err_value would_block, record w { busy = n })

sends_lem :
    (n fd : ℕ) (content rights : List ℕ) (w : Machine)
    → ((w' : Machine) × (sends n fd content rights w ≡ (ok_value (length content), w'))
        × (w'.packets fd ≡ w.packets fd ++ record { content = content; rights = rights } ∷ []))
      ⊎ ((e : Error) × (w' : Machine) × (sends n fd content rights w ≡ (err_value e, w'))
          × (w'.packets fd ≡ w.packets fd))
sends_lem zero fd content rights w =
    inl ((sends zero fd content rights w).1, refl, put_same fd _ w.packets)
sends_lem (suc n) fd content rights w =
    inr (would_block, (sends (suc n) fd content rights w).1, refl, refl)

sends_keeps :
    (n fd : ℕ) (content rights : List ℕ) (w : Machine)
    → ((sends n fd content rights w).1.opened ≡ w.opened)
      × ((sends n fd content rights w).1.children ≡ w.children)
sends_keeps zero fd content rights w = (refl, refl)
sends_keeps (suc n) fd content rights w = (refl, refl)

abbrev machine : LaunchCalls
machine = record {
  World = Machine;
  owned = λ w. w.opened;
  started = λ w. w.children;
  sent = λ fd w. w.packets fd;
  socketpair = pair;
  set_nonblocking = λ fd w. (ok_value tt, w);
  register = λ fd w. (ok_value tt, w);
  actions_init = λ w. (ok_value tt, w);
  actions_dup = λ fd w. (ok_value tt, w);
  actions_destroy = λ w. (ok_value tt, w);
  posix_spawn = λ argv w. (ok_value 9, record w { children = (9, argv) ∷ w.children });
  sendmsg = λ fd content rights dontwait w. sends w.busy fd content rights w;
  close = λ fd w. record w { opened = without fd w.opened };
  socketpair_lem = λ w. inl (
    fresh_after 0 w.opened,
    fresh_after 0 (fresh_after 0 w.opened ∷ w.opened),
    (pair w).1,
    refl,
    refl,
    fresh_after-All 0 w.opened,
    fresh_after-All 0 (fresh_after 0 w.opened ∷ w.opened),
    refl,
    put_same (fresh_after 0 w.opened) [] w.packets,
  );
  set_nonblocking_lem = λ fd w. (refl, refl, λ s. refl);
  register_lem = λ fd w. (refl, refl, λ s. refl);
  actions_init_lem = λ w. (refl, refl, λ s. refl);
  actions_dup_lem = λ fd w. (refl, refl, λ s. refl);
  actions_destroy_lem = λ w. (refl, refl, λ s. refl);
  posix_spawn_lem = λ argv w.
      inl (9, record w { children = (9, argv) ∷ w.children }, refl, refl, refl, λ s. refl);
  sendmsg_lem = λ fd content rights dontwait w. sends_lem w.busy fd content rights w;
  sendmsg_keeps = λ fd content rights dontwait w. sends_keeps w.busy fd content rights w;
  close_lem = λ fd before after w e h.
      (ap (without fd) e ∙ without-append fd before after h, refl, λ s h'. refl);
}

abbrev at_start : Machine
at_start = record { busy = 1; opened = 7 ∷ 5 ∷ []; children = []; packets = λ fd. [] }

spawn-Launches_example :
    Launches machine fd-Law 18446744073709551000 4096 384 3 tokio 7
      (5 ∷ [])
      at_start
      (spawn machine fd_object 18446744073709551000 384 3 tokio 7 true at_start)
unfolding push_fd
spawn-Launches_example =
    spawn-Launches machine fd-Law 18446744073709551000 4096 384 3 tokio 7 true (5 ∷ []) at_start
      refl

-- What `spawn` sends: an address 1000 bytes behind the base, and a descriptor.
abbrev a_packet : Packet
a_packet = packet 1 (232 ∷ 3 ∷ 0 ∷ 0 ∷ 0 ∷ 0 ∷ 0 ∷ 0 ∷ []) (7 ∷ [])

abbrev after_spawned : Machine
after_spawned = (spawn machine fd_object 18446744073709551000 384 3 tokio 7 true at_start).1

spawn_ok :
    let r = spawn machine fd_object 18446744073709551000 384 3 tokio 7 true at_start in
    (r.0 ≡ io_ok (9, 13)) × (r.1.packets 13 ≡ a_packet ∷ [])
unfolding close_each spawn after_duplex after_try_new after_spawn after_send try_new
    after_nonblocking spawn_child with_actions actions_dropped after_dup after_destroy
    perform_sanity_checks send blocking_write after_write calls_again send_io is_would_block
    send_next send_loop send_fuel after_sendmsg advance is_last buffer_end fds_end packet_rights
    packet_content sender_new le_bytes write push_fd to_offset tuple_serialize serialize_rev
    field_writes wrapper_serialize
spawn_ok = (refl, refl)

child_ok :
    handle_entry send_queue 4096 entries recv_queue 3 (0, a_packet ∷ []) (0, [])
    ≡ (exited, (0, packet 1 [] (7 ∷ []) ∷ []))
unfolding handle_entry after_recv read_entry enter entrypoint call_with after_call send
    blocking_write after_write calls_again send_io is_would_block send_next send_loop send_fuel
    after_sendmsg advance is_last buffer_end fds_end packet_rights packet_content sender_new push_fd
    recv blocking_read after_read recv_io recv_next recv_loop after_recvmsg after_cmsgs after_fds
    finish received_object extend_fds overwrite resize next_fd read of_offset wrapper_deserialize
    pod_deserialize of_le_bytes
child_ok = refl

-- The child gives the descriptor back.
remote_call_example :
    Begun some_files machine send_queue one_process fd-Law fd-Law give_back 18446744073709551000
      4096 384 5096 entry-IsAt 3 entries refl at_start after_spawned 9
    × Joins one_process 9
        (Fails one_process 9 fd_object recv_queue 3 false (1, packet 1 [] (7 ∷ []) ∷ []))
        (some 7)
        true
        (some 0)
        (outcome one_process 9 (
          join one_process fd_object recv_queue none 9 3 false
            (1, packet 1 [] (7 ∷ []) ∷ [])
            true
            (some 0)))
unfolding le_bytes push_fd
remote_call_example =
    remote_call some_files machine send_queue one_process fd-Law fd-Law give_back
      18446744073709551000 4096 384 5096 entry-IsAt 3 entries refl recv_queue recv_queue_patience
      tokio 7 at_start after_spawned 9 13 tt refl tt refl (5 ∷ []) refl
      (ap (λ (r : Io (ℕ × ℕ)). (r, after_spawned)) spawn_ok.0) (0, [])
      (0, packet 1 [] (7 ∷ []) ∷ []) (0, a_packet ∷ []) [] (sym (ap (λ ps. ps ++ []) spawn_ok.1))
      (omega arith) refl child_ok recv_queue recv_queue_patience false true
      (1, packet 1 [] (7 ∷ []) ∷ []) [] (some 0) refl (omega arith)

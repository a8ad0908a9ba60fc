-- ===== src/Tests/Processes.antt =====
-- Joining and killing at concrete inputs.
use crossmist.Common.{zero, ◌≡◌, ◌≢◌, ◌⊎◌, refl, arith, true, false, none, some, [], ◌∷◌}
use crossmist.Builtins.Sum.{ok_value}
use crossmist.Builtins.Resource.{fd_object, fd-Law}
use crossmist.Unix.Wire.{packet, last}
use crossmist.Process.{Status, Kernel, join}
use crossmist.Process.Joining.{Joins, Fails, outcome, join_output, join_silent}
use crossmist.Process.Killing.{
  alive, zombie, reaped, joined, signalling, World, by_join, by_kill, by_kernel, recv_returns,
  join_locks, clears, reaps, join_unlocks, kill_locks, may, exits, spawned, Reach, start, later,
  by_killer, update, checking,
}
use crossmist.Process.Killing.Safety.{has_cleared, kill_is_safe, no_kill_after_join}
use crossmist.Process.Killing.Progress.{Moves, no_deadlock}
use crossmist.Tests.Queue.{recv_queue, recv_queue_patience}

-- One process, which has exited with the status that the table holds.
abbrev pub one_process : Kernel
one_process = record {
  Table = Status;
  waitpid = λ pid status. (ok_value status, status);
  kill_process = λ pid status. (ok_value tt, status);
}

join_output_example :
    Joins one_process 9
      (Fails one_process 9 fd_object recv_queue 3 false (2, packet 1 [] (7 ∷ []) ∷ []))
      (some 7)
      true
      (some 0)
      (outcome one_process 9 (
        join one_process fd_object recv_queue none 9 3 false
          (2, packet 1 [] (7 ∷ []) ∷ [])
          true
          (some 0)))
join_output_example =
    join_output one_process 9 fd-Law recv_queue recv_queue_patience 3 false 7 tt refl
      (2, packet 1 [] (7 ∷ []) ∷ []) (packet 1 [] (7 ∷ []) ∷ []) [] true (some 0) (omega arith)
      (last [] (7 ∷ []) (omega arith) (omega arith)) refl

join_silent_example :
    Joins one_process 9
      (Fails one_process 9 fd_object recv_queue 3 false (2, []))
      none
      true
      (some 0)
      (outcome one_process 9
        (join one_process fd_object recv_queue none 9 3 false (2, []) true (some 0)))
join_silent_example =
    join_silent one_process 9 fd_object recv_queue recv_queue_patience none 3 false (2, []) true
      (some 0) (omega arith) refl

-- A call of `kill` that has seen the flag.
abbrev about_to_signal : World
about_to_signal = record spawned {
  killer = update (update spawned.killer 0 checking) 0 signalling;
  holder = by_killer 0;
}

about_to_signal-Reach : Reach about_to_signal
about_to_signal-Reach =
    later (later start (by_kill 0 (kill_locks refl refl))) (by_kill 0 (may refl refl))

kill_is_safe_example :
    ((about_to_signal.pid ≡ alive) ⊎ (about_to_signal.pid ≡ zombie))
    × (has_cleared about_to_signal.joiner ≡ false)
    × (0 ≡ zero)
kill_is_safe_example = kill_is_safe 0 0 about_to_signal-Reach refl refl

-- `join` has returned.
abbrev after_join : World
after_join = record spawned { pid = reaped; may_kill = false; joiner = joined }

after_join-Reach : Reach after_join
after_join-Reach =
    later
      (later
        (later
          (later
            (later (later start (by_join (recv_returns refl))) (by_join (join_locks refl refl)))
            (by_join (clears refl)))
          (by_kernel (exits refl)))
        (by_join (reaps refl refl)))
      (by_join (join_unlocks refl))

no_kill_after_join_example : (after_join.may_kill ≡ false) × (after_join.killer 5 ≢ signalling)
no_kill_after_join_example = no_kill_after_join 5 after_join-Reach refl

after_join_dead : after_join.pid ≢ alive
after_join_dead e = cc

no_deadlock_example : Moves after_join
no_deadlock_example = no_deadlock 5 after_join-Reach after_join_dead refl

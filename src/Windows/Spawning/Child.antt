-- ===== src/Windows/Spawning/Child.antt =====
-- src/platform/windows/subprocess.rs, `_spawn_child` in the parent and `load_init_handles` in the
-- child.
use crossmist.Common.{ℕ, ◌+◌, ◌-◌, ◌%◌, ◌^◌, ◌==◌, Option, none, some, List, [], ◌∷◌, if◌then◌else◌}
use crossmist.Builtins.Sum.{Result, ok_value, err_value}
use crossmist.Unix.Socket.{Error}
use crossmist.Windows.Spawning.{
  Fate, done, failed, already_initialized, gave_up, Broker, set_job_flags, Suspended,
  spawn_suspended_in_job,
}
use crossmist.Windows.Spawning.View.{InitData, silent_breakaway_ok}
use crossmist.Windows.Spawning.Calls.{SpawnCalls, u32_max}

-- `wrapping_sub`
abbrev pub wrapping_sub : ℕ → ℕ → ℕ
wrapping_sub a b = (a + 2 ^ 64 - b) % 2 ^ 64

-- "_crossmist_"
abbrev pub child_command : List ℕ
child_command = b'_' ∷ b'c' ∷ b'r' ∷ b'o' ∷ b's' ∷ b's' ∷ b'm' ∷ b'i' ∷ b's' ∷ b't' ∷ b'_' ∷ []

-- `load_init_handles`: the broker is set, and the socket returned.
unfoldable pub load_init_handles : InitData → Option Broker → Fate ℕ × Option Broker
load_init_handles info none = (
  done info.child_socket,
  some (record { process = info.broker_process; pid = info.broker_pid; job = info.broker_job }),
)
load_init_handles info (some old) = (already_initialized, some old)

module _ (calls : SpawnCalls) where
  open calls use {
    World, duplicate, current_process, query_peb, peb_field, read_memory, write_memory,
    resume_thread, last_error, close, own_base, init_data_offset,
  }

  -- `get_peb`
  abbrev pub get_peb : ℕ → World → Result ℕ Error × World
  get_peb = query_peb

  -- `&raw mut INIT_DATA`
  abbrev pub init_data_at : ℕ
  init_data_at = (own_base + init_data_offset) % 2 ^ 64

  abbrev pub Step : Type 0
  Step = Result (Unit {0}) Error × World

  -- The handles of the child, which is suspended.
  module _ (process thread job : ℕ) where
    unfoldable pub after_resume : ℕ × World → Step
    after_resume (count, w) =
        if count == u32_max
        then (err_value (last_error w), w)
        else (set_job_flags calls job silent_breakaway_ok w)

    unfoldable pub after_write : Step → Step
    unfolding after_resume
    after_write (ok_value u, w) = after_resume (resume_thread thread w)
    after_write (err_value e, w) = (err_value e, w)

    module _ (info : InitData) where
      unfoldable pub after_read : ℕ → Result ℕ Error × World → Step
      unfolding after_write
      after_read image_base_address (ok_value remote_image_base_address, w) =
          let offset = wrapping_sub remote_image_base_address image_base_address in
          after_write (write_memory process ((init_data_at + offset) % 2 ^ 64) info w)
      after_read image_base_address (err_value e, w) = (err_value e, w)

      unfoldable pub after_remote_peb : ℕ → Result ℕ Error × World → Step
      unfolding after_read
      after_remote_peb image_base_address (ok_value remote_peb, w) =
          after_read image_base_address (read_memory process remote_peb w)
      after_remote_peb image_base_address (err_value e, w) = (err_value e, w)

      unfoldable pub after_peb : Result ℕ Error × World → Step
      unfolding after_remote_peb
      after_peb (ok_value peb, w) = after_remote_peb (peb_field peb) (get_peb process w)
      after_peb (err_value e, w) = (err_value e, w)

    module _ (broker : Broker) (child_socket : ℕ) where
      unfoldable pub copied_socket : InitData → Result ℕ Error × World → Step
      unfolding after_peb
      copied_socket info (ok_value remote, w) =
          after_peb (record info { child_socket = remote }) (get_peb current_process w)
      copied_socket info (err_value e, w) = (err_value e, w)

      unfoldable pub copied_job : InitData → Result ℕ Error × World → Step
      unfolding copied_socket
      copied_job info (ok_value remote, w) =
          copied_socket (record info { broker_job = remote }) (duplicate child_socket process w)
      copied_job info (err_value e, w) = (err_value e, w)

      unfoldable pub copied_process : InitData → Result ℕ Error × World → Step
      unfolding copied_job
      copied_process info (ok_value remote, w) =
          copied_job (record info { broker_process = remote }) (duplicate broker.job process w)
      copied_process info (err_value e, w) = (err_value e, w)

      -- What is done with the child.
      unfoldable pub prepare : World → Step
      unfolding copied_process
      prepare w =
          copied_process
            (record {
              broker_process = 0;
              broker_pid = broker.pid;
              broker_job = 0;
              child_socket = 0;
            })
            (duplicate broker.process process w)

    -- The end of the scope.
    unfoldable pub scope_end : Step → Fate ℕ × World
    scope_end (ok_value u, w) = (done process, close thread (close job w))
    scope_end (err_value e, w) = (failed e, close process (close thread (close job w)))

  unfoldable pub with_child : Broker → ℕ → Suspended calls → Fate ℕ × World
  unfolding prepare scope_end
  with_child broker child_socket (done (process, thread, pid, job), w) =
      scope_end process thread job (prepare process thread job broker child_socket w)
  with_child broker child_socket (failed e, w) = (failed e, w)
  with_child broker child_socket (already_initialized, w) = (already_initialized, w)
  with_child broker child_socket (gave_up, w) = (gave_up, w)

  -- `_spawn_child`
  unfoldable pub spawn_child : ℕ → Broker → ℕ → World → Fate ℕ × World
  unfolding with_child
  spawn_child attempts broker child_socket w =
      with_child broker child_socket (spawn_suspended_in_job calls attempts (some child_command) w)

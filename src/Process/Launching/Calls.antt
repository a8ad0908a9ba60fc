-- ===== src/Process/Launching/Calls.antt =====
-- The system calls of `spawn` on Unix, with their documented behaviour.
use crossmist.Common.{ℕ, ◌≡◌, ◌≢◌, ◌⊎◌, Bool, List, [], ◌∷◌, ◌++◌, All, length}
use crossmist.Builtins.Sum.{Result, ok_value, err_value}
use crossmist.Unix.Socket.{Error, Packet, SendSocket}

pub record LaunchCalls : Type 1 where
  pub World : Type 0
  -- The descriptors that the process owns, the children that were started, with their arguments, and
  -- what was sent on a socket.
  pub owned : World → List ℕ
  pub started : World → List (ℕ × List (List ℕ))
  pub sent : ℕ → World → List Packet
  pub socketpair : World → Result (ℕ × ℕ) Error × World
  -- `set_nonblocking(true)`, and the conversion to a stream of the runtime
  pub set_nonblocking : ℕ → World → Result (Unit {0}) Error × World
  pub register : ℕ → World → Result (Unit {0}) Error × World
  -- `posix_spawn_file_actions_init`, `_adddup2` and `_destroy`
  pub actions_init : World → Result (Unit {0}) Error × World
  pub actions_dup : ℕ → World → Result (Unit {0}) Error × World
  pub actions_destroy : World → Result (Unit {0}) Error × World
  pub posix_spawn : List (List ℕ) → World → Result ℕ Error × World
  pub sendmsg : ℕ → List ℕ → List ℕ → Bool → World → Result ℕ Error × World
  pub close : ℕ → World → World
  pub socketpair_lem :
      (w : World)
      → ((a : ℕ) × (b : ℕ) × (w' : World) × (socketpair w ≡ (ok_value (a, b), w'))
          × (owned w' ≡ b ∷ a ∷ owned w)
          × All (λ t. a ≢ t) (owned w)
          × All (λ t. b ≢ t) (a ∷ owned w)
          × (started w' ≡ started w)
          × (sent a w' ≡ []))
        ⊎ ((e : Error) × (w' : World) × (socketpair w ≡ (err_value e, w')) × (owned w' ≡ owned w))
  pub set_nonblocking_lem :
      (fd : ℕ) (w : World)
      → (owned (set_nonblocking fd w).1 ≡ owned w)
        × (started (set_nonblocking fd w).1 ≡ started w)
        × ((s : ℕ) → sent s (set_nonblocking fd w).1 ≡ sent s w)
  pub register_lem :
      (fd : ℕ) (w : World)
      → (owned (register fd w).1 ≡ owned w)
        × (started (register fd w).1 ≡ started w)
        × ((s : ℕ) → sent s (register fd w).1 ≡ sent s w)
  pub actions_init_lem :
      (w : World)
      → (owned (actions_init w).1 ≡ owned w)
        × (started (actions_init w).1 ≡ started w)
        × ((s : ℕ) → sent s (actions_init w).1 ≡ sent s w)
  pub actions_dup_lem :
      (fd : ℕ) (w : World)
      → (owned (actions_dup fd w).1 ≡ owned w)
        × (started (actions_dup fd w).1 ≡ started w)
        × ((s : ℕ) → sent s (actions_dup fd w).1 ≡ sent s w)
  pub actions_destroy_lem :
      (w : World)
      → (owned (actions_destroy w).1 ≡ owned w)
        × (started (actions_destroy w).1 ≡ started w)
        × ((s : ℕ) → sent s (actions_destroy w).1 ≡ sent s w)
  pub posix_spawn_lem :
      (argv : List (List ℕ)) (w : World)
      → ((pid : ℕ) × (w' : World) × (posix_spawn argv w ≡ (ok_value pid, w'))
          × (owned w' ≡ owned w)
          × (started w' ≡ (pid, argv) ∷ started w)
          × ((s : ℕ) → sent s w' ≡ sent s w))
        ⊎ ((e : Error) × (w' : World) × (posix_spawn argv w ≡ (err_value e, w'))
            × (owned w' ≡ owned w))
  pub sendmsg_lem :
      (fd : ℕ) (content rights : List ℕ) (dontwait : Bool) (w : World)
      → ((w' : World) × (sendmsg fd content rights dontwait w ≡ (ok_value (length content), w'))
          × (sent fd w' ≡ sent fd w ++ record { content = content; rights = rights } ∷ []))
        ⊎ ((e : Error) × (w' : World) × (sendmsg fd content rights dontwait w ≡ (err_value e, w'))
            × (sent fd w' ≡ sent fd w))
  pub sendmsg_keeps :
      (fd : ℕ) (content rights : List ℕ) (dontwait : Bool) (w : World)
      → (owned (sendmsg fd content rights dontwait w).1 ≡ owned w)
        × (started (sendmsg fd content rights dontwait w).1 ≡ started w)
  pub close_lem :
      (fd : ℕ) (before after : List ℕ) (w : World)
      → owned w ≡ before ++ fd ∷ after
      → All (λ t. t ≢ fd) before
      → (owned (close fd w) ≡ before ++ after)
        × (started (close fd w) ≡ started w)
        × ((s : ℕ) → s ≢ fd → sent s (close fd w) ≡ sent s w)

-- The socket of a descriptor
abbrev pub socket_of : LaunchCalls → ℕ → SendSocket
socket_of calls fd = record {
  Net = calls.World;
  sendmsg = calls.sendmsg fd;
  sent = calls.sent fd;
  sendmsg_lem = calls.sendmsg_lem fd;
}

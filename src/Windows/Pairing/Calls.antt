-- ===== src/Windows/Pairing/Calls.antt =====
-- The system calls of `try_socketpair` in src/platform/windows/internals.rs, with their documented
-- behaviour, in a world where other processes may connect to a listener as well.
use crossmist.Common.{ℕ, ◌≤◌, ◌<◌, ◌≡◌, ◌≢◌, ◌⊎◌, Bool, true, List, [], ◌∷◌, ◌++◌, All}
use crossmist.Builtins.Sum.{Result, ok_value, err_value}

pub record SocketCalls : Type 1 where
  pub World : Type 0
  -- The sockets that the process owns, and how often an attempt has met with an obstacle so
  -- far: a connection of another process, or a call of `connect` that was refused because the backlog
  -- is full or buffers are short.
  pub owned : World → List ℕ
  pub obstacles : World → ℕ
  pub own_pid : ℕ
  -- `WSAStartup`, `temp_dir`, `ProcessPrng` and `Path::join`
  pub startup : World → Result (Unit {0}) ℕ × World
  pub temp_dir : World → List ℕ
  pub random_bytes : World → List ℕ × World
  pub join : List ℕ → List ℕ → List ℕ
  pub wsa_socket : World → Result ℕ ℕ × World
  pub bind : ℕ → List ℕ → World → Result (Unit {0}) ℕ × World
  -- The number is the backlog.
  pub listen : ℕ → ℕ → World → Result (Unit {0}) ℕ × World
  pub connect : ℕ → List ℕ → World → Result (Unit {0}) ℕ × World
  pub accept : ℕ → World → Result ℕ ℕ × World
  -- `ioctlsocket` with `SIO_AF_UNIX_GETPEERPID`
  pub peer_pid : ℕ → World → Result ℕ ℕ × World
  pub remove_file : List ℕ → World → World
  pub close : ℕ → World → World
  -- A socket is bound to an address, and listens there with a backlog; who waits to be accepted, with
  -- the process and the socket; two sockets are the ends of one connection.
  pub Bound : World → List ℕ → ℕ → Type 0
  pub Listens : World → List ℕ → ℕ → ℕ → Type 0
  pub queue : World → ℕ → List (ℕ × ℕ)
  pub pid_of : World → ℕ → ℕ
  pub Ends : World → ℕ → ℕ → Type 0
  -- A backlog of 0 lets one connection wait, as on the systems without `SIO_AF_UNIX_GETPEERPID`.
  pub one_waits : Bool
  pub startup_lem :
      (w : World) → (owned (startup w).1 ≡ owned w) × (obstacles w ≤ obstacles (startup w).1)
  pub random_lem :
      (w : World)
      → (owned (random_bytes w).1 ≡ owned w) × (obstacles w ≤ obstacles (random_bytes w).1)
  pub wsa_socket_lem :
      (w : World)
      → ((s : ℕ) × (w' : World) × (wsa_socket w ≡ (ok_value s, w'))
          × (owned w' ≡ s ∷ owned w)
          × (obstacles w ≤ obstacles w')
          × All (λ t. s ≢ t) (owned w)
          × ((addr : List ℕ) (t b : ℕ) → Listens w addr t b → Listens w' addr t b))
        ⊎ ((e : ℕ) × (w' : World) × (wsa_socket w ≡ (err_value e, w'))
            × (owned w' ≡ owned w)
            × (obstacles w ≤ obstacles w'))
  pub bind_lem :
      (s : ℕ) (addr : List ℕ) (w : World)
      → ((w' : World) × (bind s addr w ≡ (ok_value tt, w'))
          × (owned w' ≡ owned w)
          × (obstacles w ≤ obstacles w')
          × Bound w' addr s)
        ⊎ ((e : ℕ) × (w' : World) × (bind s addr w ≡ (err_value e, w'))
            × (owned w' ≡ owned w)
            × (obstacles w ≤ obstacles w'))
  pub listen_lem :
      (s b : ℕ) (addr : List ℕ) (w : World)
      → Bound w addr s
      → ((w' : World) × (listen s b w ≡ (ok_value tt, w'))
          × (owned w' ≡ owned w)
          × (obstacles w ≤ obstacles w')
          × Listens w' addr s b)
        ⊎ ((e : ℕ) × (w' : World) × (listen s b w ≡ (err_value e, w'))
            × (owned w' ≡ owned w)
            × (obstacles w ≤ obstacles w'))
  -- A connection waits behind those of others; or the call fails. Windows tells that the backlog is
  -- full, or buffers are short, by WSAENOBUFS, and Wine by WSAECONNREFUSED or WSAEWOULDBLOCK; such a
  -- refusal counts as an obstacle.
  pub connect_lem :
      (s c b : ℕ) (addr : List ℕ) (w : World)
      → Listens w addr s b
      → ((strangers : List (ℕ × ℕ)) × (w' : World) × (connect c addr w ≡ (ok_value tt, w'))
          × (owned w' ≡ owned w)
          × (obstacles w ≤ obstacles w')
          × (queue w' s ≡ strangers ++ (own_pid, c) ∷ [])
          × All (λ e. e.0 ≢ own_pid) strangers
          × (strangers ≢ [] → obstacles w < obstacles w')
          × (one_waits ≡ true → b ≡ 0 → strangers ≡ []))
        ⊎ ((e : ℕ) × (w' : World) × (connect c addr w ≡ (err_value e, w'))
            × (owned w' ≡ owned w)
            × (obstacles w ≤ obstacles w')
            × ((e ≡ 10055) ⊎ (e ≡ 10061) ⊎ (e ≡ 10035) → obstacles w < obstacles w'))
  pub accept_lem :
      (s pid c : ℕ) (rest : List (ℕ × ℕ)) (w : World)
      → queue w s ≡ (pid, c) ∷ rest
      → ((a : ℕ) × (w' : World) × (accept s w ≡ (ok_value a, w'))
          × (owned w' ≡ a ∷ owned w)
          × (obstacles w ≤ obstacles w')
          × All (λ t. a ≢ t) (owned w)
          × (pid_of w' a ≡ pid)
          × Ends w' c a)
        ⊎ ((e : ℕ) × (w' : World) × (accept s w ≡ (err_value e, w'))
            × (owned w' ≡ owned w)
            × (obstacles w ≤ obstacles w'))
  -- The call is not implemented, WSAEOPNOTSUPP, only where the backlog is honoured.
  pub peer_pid_lem :
      (a : ℕ) (w : World)
      → ((w' : World) × (peer_pid a w ≡ (ok_value (pid_of w a), w'))
          × (owned w' ≡ owned w)
          × (obstacles w ≤ obstacles w')
          × ((c d : ℕ) → Ends w c d → Ends w' c d))
        ⊎ ((e : ℕ) × (w' : World) × (peer_pid a w ≡ (err_value e, w'))
            × (owned w' ≡ owned w)
            × (obstacles w ≤ obstacles w')
            × (e ≡ 10045 → one_waits ≡ true)
            × ((c d : ℕ) → Ends w c d → Ends w' c d))
  pub remove_file_lem :
      (path : List ℕ) (w : World)
      → (owned (remove_file path w) ≡ owned w)
        × (obstacles w ≤ obstacles (remove_file path w))
        × ((c d : ℕ) → Ends w c d → Ends (remove_file path w) c d)
  pub close_lem :
      (s : ℕ) (before after : List ℕ) (w : World)
      → owned w ≡ before ++ s ∷ after
      → All (λ t. t ≢ s) before
      → (owned (close s w) ≡ before ++ after)
        × (obstacles w ≤ obstacles (close s w))
        × ((c d : ℕ) → c ≢ s → d ≢ s → Ends w c d → Ends (close s w) c d)

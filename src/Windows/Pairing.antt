-- ===== src/Windows/Pairing.antt =====
-- src/platform/windows/internals.rs, `socketpair`: Windows has no call for it, so the code listens at a
-- path with a random name, connects to it and looks who it was that connected.
--
-- A failing call of WinSock comes with its error code, which the code gets from `WSAGetLastError`.
pub mod Calls
pub mod Accepting
pub mod Paired
pub mod Socketpair
use crossmist.Common.{
  ℕ, zero, suc, ◌+◌, ◌-◌, ◌%◌, ◌≡◌, Bool, ◌||◌, ◌==◌, ltb, Option, none, some, List, [], ◌∷◌, ◌++◌,
  map, length, replicate, if◌then◌else◌,
}
use crossmist.Builtins.Sum.{Result, ok_value, err_value}
use crossmist.Unix.Socket.{Error, os_error, invalid_filename}
use crossmist.Windows.Pairing.Calls.{SocketCalls}

abbrev pub wsa_e_no_bufs : ℕ
wsa_e_no_bufs = 10055

abbrev pub wsa_e_conn_refused : ℕ
wsa_e_conn_refused = 10061

abbrev pub wsa_e_would_block : ℕ
wsa_e_would_block = 10035

abbrev pub wsa_e_op_not_supp : ℕ
wsa_e_op_not_supp = 10045

-- The bytes in `SOCKADDR_UN.sun_path`.
abbrev pub sun_path_size : ℕ
sun_path_size = 108

-- "crossmist-"
abbrev pub name_prefix : List ℕ
name_prefix = b'c' ∷ b'r' ∷ b'o' ∷ b's' ∷ b's' ∷ b'm' ∷ b'i' ∷ b's' ∷ b't' ∷ b'-' ∷ []

-- `name.push((b'a' + (c & 15)) as char)` for each random byte
abbrev pub random_name : List ℕ → List ℕ
random_name rng = name_prefix ++ map (λ c. b'a' + c % 16) rng

-- The path in an address of zeros.
abbrev pub address : List ℕ → List ℕ
address path = path ++ replicate (sun_path_size - length path) 0

-- The errors of `connect` when someone else has filled the backlog.
abbrev pub is_race : ℕ → Bool
is_race err = err == wsa_e_no_bufs || err == wsa_e_conn_refused || err == wsa_e_would_block

module _ (calls : SocketCalls) where
  open calls use {
    World, startup, temp_dir, random_bytes, join, wsa_socket, bind, listen, connect, accept,
    peer_pid, own_pid, remove_file, close,
  }

  -- What an attempt comes to: two sockets, or none if someone else was faster.
  abbrev pub Tried : Type 0
  Tried = Result (Option (ℕ × ℕ)) Error × World

  -- What is owned when a scope ends is dropped: `client` and `connected` here and below.
  unfoldable pub check_peer : ℕ → ℕ → Result ℕ ℕ × World → Tried
  check_peer client connected (ok_value pid, w) =
      if pid == own_pid
      then (ok_value (some (client, connected)), w)
      else (ok_value none, close client (close connected w))
  check_peer client connected (err_value err, w) =
      if err == wsa_e_op_not_supp
      then (ok_value (some (client, connected)), w)
      else (err_value (os_error err), close client (close connected w))

  unfoldable pub after_accept : ℕ → Result ℕ ℕ × World → Tried
  unfolding check_peer
  after_accept client (ok_value connected, w) = check_peer client connected (peer_pid connected w)
  after_accept client (err_value err, w) = (err_value (os_error err), close client w)

  unfoldable pub after_connect : ℕ → ℕ → Result (Unit {0}) ℕ × World → Tried
  unfolding after_accept
  after_connect server client (ok_value u, w) = after_accept client (accept server w)
  after_connect server client (err_value err, w) =
      if is_race err
      then (ok_value none, close client w)
      else (err_value (os_error err), close client w)

  unfoldable pub with_client : ℕ → List ℕ → Result ℕ ℕ × World → Tried
  unfolding after_connect
  with_client server path (ok_value client, w) =
      after_connect server client (connect client (address path) w)
  with_client server path (err_value err, w) = (err_value (os_error err), w)

  unfoldable pub after_listen : ℕ → List ℕ → Result (Unit {0}) ℕ × World → Tried
  unfolding with_client
  after_listen server path (ok_value u, w) = with_client server path (wsa_socket w)
  after_listen server path (err_value err, w) = (err_value (os_error err), w)

  -- The destructor of `SockGuard` removes the file.
  unfoldable pub guarded : List ℕ → Tried → Tried
  guarded path (result, w) = (result, remove_file path w)

  unfoldable pub after_bind : ℕ → List ℕ → Result (Unit {0}) ℕ × World → Tried
  unfolding after_listen guarded
  after_bind server path (ok_value u, w) =
      guarded path (after_listen server path (listen server 0 w))
  after_bind server path (err_value err, w) = (err_value (os_error err), w)

  unfoldable pub closing : ℕ → Tried → Tried
  closing server (result, w) = (result, close server w)

  unfoldable pub with_server : List ℕ → Result ℕ ℕ × World → Tried
  unfolding after_bind closing
  with_server path (ok_value server, w) =
      closing server (after_bind server path (bind server (address path) w))
  with_server path (err_value err, w) = (err_value (os_error err), w)

  unfoldable pub at_path : List ℕ → World → Tried
  unfolding with_server
  at_path path w =
      if ltb sun_path_size (length path)
      then (err_value invalid_filename, w)
      else (with_server path (wsa_socket w))

  unfoldable pub after_init : Result (List ℕ) Error → World → Tried
  unfolding at_path
  after_init (ok_value dir) w =
      let (rng, w') = random_bytes w in at_path (join dir (random_name rng)) w'
  after_init (err_value e) w = (err_value e, w)

  -- The static `INIT`, and the world.
  pub record Process : Type 0 where
    pub init_lock : Option (Result (List ℕ) Error)
    pub world : World

  unfoldable pub started : Result (Unit {0}) ℕ × World → Result (List ℕ) Error × World
  started (ok_value u, w) = (ok_value (temp_dir w), w)
  started (err_value err, w) = (err_value (os_error err), w)

  -- The first use of `INIT` starts WinSock.
  unfoldable pub force : Option (Result (List ℕ) Error) → World → Result (List ℕ) Error × World
  unfolding started
  force (some value) w = (value, w)
  force none w = started (startup w)

  unfoldable pub try_socketpair : Process → Result (Option (ℕ × ℕ)) Error × Process
  unfolding after_init force
  try_socketpair p =
      let (value, w) = force p.init_lock p.world in
      let (result, w') = after_init value w in
      (result, record { init_lock = some value; world = w' })

  unfoldable pub retry :
      Result (Option (ℕ × ℕ)) Error × Process
      → (Process → Option (Result (ℕ × ℕ) Error) × Process)
      → Option (Result (ℕ × ℕ) Error) × Process
  retry (ok_value (some pair), p) again = (some (ok_value pair), p)
  retry (ok_value none, p) again = again p
  retry (err_value e, p) again = (some (err_value e), p)

  -- `socketpair`; `none` if the attempts are used up, which has no counterpart in the code.
  unfoldable pub socketpair : ℕ → Process → Option (Result (ℕ × ℕ) Error) × Process
  unfolding retry
  socketpair zero p = (none, p)
  socketpair (suc attempts) p = retry (try_socketpair p) (socketpair attempts)

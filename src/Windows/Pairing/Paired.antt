-- ===== src/Windows/Pairing/Paired.antt =====
-- `try_socketpair` of src/platform/windows/internals.rs: its two sockets are the ends of one
-- connection, and no other socket stays open.
use mathlib.Core.Path.{subst}
use crossmist.Common.{
  ℕ, ◌≤◌, ◌≡◌, ◌≢◌, inl, inr, refl, ap, ◌∙◌, Bool-cases, Option, none, some, List, [], ◌∷◌, All,
  arith, length, ltb,
}
use crossmist.Builtins.Sum.{Result, ok_value, err_value}
use crossmist.Unix.Socket.{Error}
use crossmist.Windows.Pairing.{
  Tried, address, with_client, after_listen, guarded, after_bind, closing, with_server, at_path,
  after_init, started, force, Process, try_socketpair, random_name, sun_path_size,
}
use crossmist.Windows.Pairing.Accepting.{Settles, after_connect-Settles}
use crossmist.Windows.Pairing.Calls.{SocketCalls}

module _ (calls : SocketCalls) where
  open calls use {
    World, owned, obstacles, own_pid, wsa_socket, bind, listen, connect, accept, peer_pid,
    remove_file, close, Bound, Listens, queue, pid_of, Ends, one_waits, random_lem, wsa_socket_lem,
    bind_lem, listen_lem, connect_lem, accept_lem, peer_pid_lem, remove_file_lem, close_lem,
  }

  with_client-Settles :
      (own : List ℕ) (n s : ℕ) (path : List ℕ) (w : World)
      → Listens w (address path) s 0
      → owned w ≡ own
      → n ≤ obstacles w
      → Settles calls own n (with_client calls s path (wsa_socket w))
  unfolding with_client
  with_client-Settles own n s path w l o k = elim (wsa_socket_lem w) [
    | inl (c, w', e, o', r, f, keep) ↦ rw e (
        after_connect-Settles calls own n s c (address path) w' (keep (address path) s 0 l)
          (o' ∙ ap (λ ts. c ∷ ts) o) (subst (All (λ t. c ≢ t)) o f) (omega arith))
    | inr (x, w', e, o', r) ↦ rw e (o' ∙ o)
  ]

  after_listen-Settles :
      (own : List ℕ) (n s : ℕ) (path : List ℕ) (w : World)
      → Bound w (address path) s
      → owned w ≡ own
      → n ≤ obstacles w
      → Settles calls own n (after_listen calls s path (listen s 0 w))
  unfolding after_listen
  after_listen-Settles own n s path w b o k = elim (listen_lem s 0 (address path) w b) [
    | inl (w', e, o', r, l) ↦ rw e (with_client-Settles own n s path w' l (o' ∙ o) (omega arith))
    | inr (x, w', e, o', r) ↦ rw e (o' ∙ o)
  ]

  guarded-Settles :
      (own : List ℕ) (n : ℕ) (path : List ℕ) (t : Tried calls)
      → Settles calls own n t
      → Settles calls own n (guarded calls path t)
  unfolding guarded
  guarded-Settles own n path (ok_value (some (c, a)), w) (o, ends, apart) =
      let (o', r, keep) = remove_file_lem path w in (o' ∙ o, keep c a ends, apart)
  guarded-Settles own n path (ok_value none, w) (o, k) =
      let (o', r, keep) = remove_file_lem path w in (o' ∙ o, omega arith)
  guarded-Settles own n path (err_value e, w) o = (remove_file_lem path w).0 ∙ o

  after_bind-Settles :
      (own : List ℕ) (n s : ℕ) (path : List ℕ) (w : World)
      → owned w ≡ own
      → n ≤ obstacles w
      → Settles calls own n (after_bind calls s path (bind s (address path) w))
  unfolding after_bind
  after_bind-Settles own n s path w o k = elim (bind_lem s (address path) w) [
    | inl (w', e, o', r, b) ↦ rw e (
        guarded-Settles own n path (after_listen calls s path (listen s 0 w'))
          (after_listen-Settles own n s path w' b (o' ∙ o) (omega arith)))
    | inr (x, w', e, o', r) ↦ rw e (o' ∙ o)
  ]

  closing-Settles :
      (own : List ℕ) (n s : ℕ) (t : Tried calls)
      → Settles calls (s ∷ own) n t
      → Settles calls own n (closing calls s t)
  unfolding closing
  closing-Settles own n s (ok_value (some (c, a)), w) (o, ends, apart) =
      let (o', r, keep) = close_lem s (a ∷ c ∷ []) own w o (apart.0.1, (apart.0.0, tt)) in
      (o', keep c a apart.0.0 apart.0.1 ends, apart.1)
  closing-Settles own n s (ok_value none, w) (o, k) =
      let (o', r, keep) = close_lem s [] own w o tt in (o', omega arith)
  closing-Settles own n s (err_value e, w) o = (close_lem s [] own w o tt).0

  with_server-Settles :
      (own : List ℕ) (n : ℕ) (path : List ℕ) (w : World)
      → owned w ≡ own
      → n ≤ obstacles w
      → Settles calls own n (with_server calls path (wsa_socket w))
  unfolding with_server
  with_server-Settles own n path w o k = elim (wsa_socket_lem w) [
    | inl (s, w', e, o', r, f, keep) ↦ rw e (
        closing-Settles own n s (after_bind calls s path (bind s (address path) w'))
          (after_bind-Settles (s ∷ own) n s path w' (o' ∙ ap (λ ts. s ∷ ts) o) (omega arith)))
    | inr (x, w', e, o', r) ↦ rw e (o' ∙ o)
  ]

  at_path-Settles :
      (own : List ℕ) (n : ℕ) (path : List ℕ) (w : World)
      → owned w ≡ own
      → n ≤ obstacles w
      → Settles calls own n (at_path calls path w)
  unfolding at_path
  at_path-Settles own n path w o k = elim (Bool-cases (ltb sun_path_size (length path))) [
    | inl long ↦ rw long o
    | inr short ↦ rw short (with_server-Settles own n path w o k)
  ]

  pub after_init-Settles :
      (value : Result (List ℕ) Error) (w : World)
      → Settles calls (owned w) (obstacles w) (after_init calls value w)
  unfolding after_init
  after_init-Settles (ok_value dir) w =
      let (o, r) = random_lem w in
      at_path-Settles (owned w) (obstacles w)
        (calls.join dir (random_name (calls.random_bytes w).0)) (calls.random_bytes w).1 o r
  after_init-Settles (err_value e) w = refl

  by_start :
      (t : Result (Unit {0}) ℕ × World) (w : World)
      → (owned t.1 ≡ owned w) × (obstacles w ≤ obstacles t.1)
      → (owned (started calls t).1 ≡ owned w) × (obstacles w ≤ obstacles (started calls t).1)
  unfolding started
  by_start (ok_value u, w') w h = h
  by_start (err_value e, w') w h = h

  pub force_owned :
      (cell : Option (Result (List ℕ) Error)) (w : World)
      → (owned (force calls cell w).1 ≡ owned w) × (obstacles w ≤ obstacles (force calls cell w).1)
  unfolding force
  force_owned (some value) w = (refl, omega arith)
  force_owned none w = by_start (calls.startup w) w (calls.startup_lem w)

  relax :
      (own own' : List ℕ) (n n' : ℕ) (t : Tried calls)
      → own ≡ own'
      → n' ≤ n
      → Settles calls own n t
      → Settles calls own' n' t
  relax own own' n n' (ok_value (some (c, a)), w) e k h =
      subst (λ ts. Settles calls ts n (ok_value (some (c, a)), w)) e h
  relax own own' n n' (ok_value none, w) e k (o, more) = (o ∙ e, omega arith)
  relax own own' n n' (err_value x, w) e k o = o ∙ e

  -- What an attempt comes to, from the process that it begins in.
  abbrev pub Attempted : Process calls → Result (Option (ℕ × ℕ)) Error × Process calls → Type 0
  Attempted p (result, p') = Settles calls (owned p.world) (obstacles p.world) (result, p'.world)

  pub try_socketpair-Attempted : (p : Process calls) → Attempted p (try_socketpair calls p)
  unfolding try_socketpair
  try_socketpair-Attempted p =
      let (value, w) = force calls p.init_lock p.world in
      let (o, r) = force_owned p.init_lock p.world in
      relax (owned w) (owned p.world) (obstacles w) (obstacles p.world) (after_init calls value w) o
        r (after_init-Settles value w)

-- ===== src/Tests/Pairing.antt =====
-- `socketpair` of src/platform/windows/internals.rs in a world where another process comes in between
-- twice: it fills the backlog first, and then connects before the client.
use crossmist.Common.{
  ℕ, suc, ◌+◌, ◌≤◌, ◌<◌, ◌≡◌, ◌≢◌, ◌⊎◌, inl, inr, refl, ap, ◌∙◌, true, false, ◌==◌, eq→==, neq→==,
  none, List, [], ◌∷◌, ◌++◌, All, if◌then◌else◌, arith,
}
use crossmist.Builtins.Sum.{Result, ok_value, err_value}
use crossmist.Windows.Pairing.{Process, socketpair}
use crossmist.Windows.Pairing.Calls.{SocketCalls}
use crossmist.Windows.Pairing.Socketpair.{Pairs, socketpair-Pairs, socketpair-ends}

pub data Rival : Type 0 where
  fills_backlog connects quiet : Rival

pub record Sockets : Type 0 where
  pub opened : List ℕ
  pub rival : Rival
  pub waiting : List (ℕ × ℕ)
  pub client_of : ℕ → ℕ
  pub pid_at : ℕ → ℕ

abbrev pub came : Rival → ℕ
came fills_backlog = 0
came connects = 1
came quiet = 2

-- A number that none of the open sockets has.
abbrev pub fresh_after : ℕ → List ℕ → ℕ
fresh_after n [] = suc n
fresh_after n (t ∷ ts) = fresh_after (n + t) ts

pub fresh_after-lt : (n : ℕ) (ts : List ℕ) → n < fresh_after n ts
fresh_after-lt n [] = omega arith
fresh_after-lt n (t ∷ ts) = omega (arith, fresh_after-lt (n + t) ts)

pub fresh_after-All : (n : ℕ) (ts : List ℕ) → All (λ t. fresh_after n ts ≢ t) ts
fresh_after-All n [] = tt
fresh_after-All n (t ∷ ts) =
    (λ e. let k = fresh_after-lt (n + t) ts in absurd (omega arith), fresh_after-All (n + t) ts)

abbrev pub without : ℕ → List ℕ → List ℕ
without s [] = []
without s (t ∷ ts) = if t == s then ts else t ∷ without s ts

pub without-append :
    (s : ℕ) (before after : List ℕ)
    → All (λ t. t ≢ s) before
    → without s (before ++ s ∷ after) ≡ before ++ after
without-append s [] after h = rw (eq→== s s refl) refl
without-append s (t ∷ before) after (h, hs) =
    rw (neq→== t s h) (ap (λ ts. t ∷ ts) (without-append s before after hs))

abbrev pub put : {A : Type 0} → ℕ → A → (ℕ → A) → ℕ → A
put a v f b = if b == a then v else f b

abbrev pub opens : Sockets → Result ℕ ℕ × Sockets
opens w =
    (ok_value (fresh_after 0 w.opened), record w { opened = fresh_after 0 w.opened ∷ w.opened })

abbrev pub connecting : Rival → ℕ → Sockets → Result (Unit {0}) ℕ × Sockets
connecting fills_backlog c w = (err_value 10055, record w { rival = connects })
connecting connects c w = (ok_value tt, record w { rival = quiet; waiting = (9, 4) ∷ (1, c) ∷ [] })
connecting quiet c w = (ok_value tt, record w { waiting = (1, c) ∷ [] })

abbrev pub accepting : List (ℕ × ℕ) → Sockets → Result ℕ ℕ × Sockets
accepting [] w = (err_value 10035, w)
accepting ((pid, c) ∷ rest) w = (
  ok_value (fresh_after 0 w.opened),
  record w {
    opened = fresh_after 0 w.opened ∷ w.opened;
    waiting = rest;
    client_of = put (fresh_after 0 w.opened) c w.client_of;
    pid_at = put (fresh_after 0 w.opened) pid w.pid_at;
  },
)

pub put_same : {A : Type 0} (a : ℕ) (v : A) (f : ℕ → A) → put a v f a ≡ v
put_same a v f = rw (eq→== a a refl) refl

pub connecting_lem :
    (r : Rival) (s c b : ℕ) (w : Sockets)
    → w.rival ≡ r
    → ((strangers : List (ℕ × ℕ)) × (w' : Sockets) × (connecting r c w ≡ (ok_value tt, w'))
        × (w'.opened ≡ w.opened)
        × (came w.rival ≤ came w'.rival)
        × (w'.waiting ≡ strangers ++ (1, c) ∷ [])
        × All (λ (e : ℕ × ℕ). e.0 ≢ 1) strangers
        × (strangers ≢ [] → came w.rival < came w'.rival)
        × (false ≡ true → b ≡ 0 → strangers ≡ []))
      ⊎ ((e : ℕ) × (w' : Sockets) × (connecting r c w ≡ (err_value e, w'))
          × (w'.opened ≡ w.opened)
          × (came w.rival ≤ came w'.rival)
          × ((e ≡ 10055) ⊎ (e ≡ 10061) ⊎ (e ≡ 10035) → came w.rival < came w'.rival))
connecting_lem fills_backlog s c b w e =
    inr (
      10055,
      record w { rival = connects },
      refl,
      refl,
      rw e (omega arith),
      λ k. rw e (omega arith),
    )
connecting_lem connects s c b w e = inl (
  (9, 4) ∷ [],
  record w { rival = quiet; waiting = (9, 4) ∷ (1, c) ∷ [] },
  refl,
  refl,
  rw e (omega arith),
  refl,
  (λ k. absurd (omega arith), tt),
  λ k. rw e (omega arith),
  λ k. cc,
)
connecting_lem quiet s c b w e = inl (
  [],
  record w { waiting = (1, c) ∷ [] },
  refl,
  refl,
  omega arith,
  refl,
  tt,
  λ k. absurd (k refl),
  λ k. cc,
)

pub accepting_lem :
    (q : List (ℕ × ℕ)) (pid c : ℕ) (rest : List (ℕ × ℕ)) (w : Sockets)
    → q ≡ (pid, c) ∷ rest
    → ((a : ℕ) × (w' : Sockets) × (accepting q w ≡ (ok_value a, w'))
        × (w'.opened ≡ a ∷ w.opened)
        × (came w.rival ≤ came w'.rival)
        × All (λ t. a ≢ t) w.opened
        × (w'.pid_at a ≡ pid)
        × (w'.client_of a ≡ c))
      ⊎ ((e : ℕ) × (w' : Sockets) × (accepting q w ≡ (err_value e, w'))
          × (w'.opened ≡ w.opened)
          × (came w.rival ≤ came w'.rival))
accepting_lem q pid c rest w e =
    let a = fresh_after 0 w.opened in
    inl (
      a,
      (accepting ((pid, c) ∷ rest) w).1,
      ap (λ l. accepting l w) e,
      refl,
      omega arith,
      fresh_after-All 0 w.opened,
      put_same a pid w.pid_at,
      put_same a c w.client_of,
    )

abbrev pub rival_calls : SocketCalls
rival_calls = record {
  World = Sockets;
  owned = λ w. w.opened;
  obstacles = λ w. came w.rival;
  own_pid = 1;
  startup = λ w. (ok_value tt, w);
  temp_dir = λ w. b't' ∷ [];
  random_bytes = λ w. (17 ∷ 255 ∷ [], w);
  join = λ dir name. dir ++ b'/' ∷ name;
  wsa_socket = opens;
  bind = λ s addr w. (ok_value tt, w);
  listen = λ s b w. (ok_value tt, w);
  connect = λ c addr w. connecting w.rival c w;
  accept = λ s w. accepting w.waiting w;
  peer_pid = λ a w. (ok_value (w.pid_at a), w);
  remove_file = λ path w. w;
  close = λ s w. record w { opened = without s w.opened };
  Bound = λ w addr s. Unit;
  Listens = λ w addr s b. Unit;
  queue = λ w s. w.waiting;
  pid_of = λ w a. w.pid_at a;
  Ends = λ w c a. w.client_of a ≡ c;
  one_waits = false;
  startup_lem = λ w. (refl, omega arith);
  random_lem = λ w. (refl, omega arith);
  wsa_socket_lem = λ w. inl (
    fresh_after 0 w.opened,
    (opens w).1,
    refl,
    refl,
    omega arith,
    fresh_after-All 0 w.opened,
    λ addr t b l. tt,
  );
  bind_lem = λ s addr w. inl (w, refl, refl, omega arith, tt);
  listen_lem = λ s b addr w l. inl (w, refl, refl, omega arith, tt);
  connect_lem = λ s c b addr w l. connecting_lem w.rival s c b w refl;
  accept_lem = λ s pid c rest w e. accepting_lem w.waiting pid c rest w e;
  peer_pid_lem = λ a w. inl (w, refl, refl, omega arith, λ c d h. h);
  remove_file_lem = λ path w. (refl, omega arith, λ c d h. h);
  close_lem = λ s before after w e h.
      (ap (without s) e ∙ without-append s before after h, omega arith, λ c d p q k. k);
}

abbrev pub start : Process rival_calls
start = record {
  init_lock = none;
  world = record {
    opened = 7 ∷ [];
    rival = fills_backlog;
    waiting = [];
    client_of = λ a. 0;
    pid_at = λ a. 0;
  };
}

socketpair-Pairs_example : Pairs rival_calls start (socketpair rival_calls 3 start)
socketpair-Pairs_example = socketpair-Pairs rival_calls 3 start

came_le : (r : Rival) → came r ≤ 2
came_le fills_backlog = omega arith
came_le connects = omega arith
came_le quiet = omega arith

socketpair-ends_example : (socketpair rival_calls 3 start).0 ≢ none
socketpair-ends_example = socketpair-ends rival_calls 2 (λ w. came_le w.rival) 3 start (omega arith)

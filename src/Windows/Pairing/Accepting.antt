-- ===== src/Windows/Pairing/Accepting.antt =====
-- `try_socketpair` of src/platform/windows/internals.rs, from the connection of the client on: who is
-- accepted.
use mathlib.Core.Path.{subst}
use crossmist.Common.{
  ℕ, ◌≤◌, ◌<◌, ◌≡◌, ◌≢◌, ◌⊎◌, inl, inr, refl, sym, ap, ◌∙◌, true, Bool-cases, ◌==◌, none, some,
  List, [], ◌∷◌, ◌++◌, All, arith,
}
use crossmist.Builtins.Sum.{ok_value, err_value}
use crossmist.Windows.Pairing.{
  Tried, is_race, wsa_e_op_not_supp, check_peer, after_accept, after_connect,
}
use crossmist.Windows.Pairing.Calls.{SocketCalls}

module _ (calls : SocketCalls) where
  open calls use {
    World, owned, obstacles, own_pid, wsa_socket, bind, listen, connect, accept, peer_pid,
    remove_file, close, Bound, Listens, queue, pid_of, Ends, one_waits, random_lem, wsa_socket_lem,
    bind_lem, listen_lem, connect_lem, accept_lem, peer_pid_lem, remove_file_lem, close_lem,
  }

  abbrev pub Apart : ℕ → ℕ → List ℕ → Type 0
  Apart c a = All (λ t. (c ≢ t) × (a ≢ t))

  -- How an attempt ends that began with these sockets and this count of obstacles.
  abbrev pub Settles : List ℕ → ℕ → Tried calls → Type 0
  Settles own n (ok_value (some (c, a)), w) = (owned w ≡ a ∷ c ∷ own) × Ends w c a × Apart c a own
  Settles own n (ok_value none, w) = (owned w ≡ own) × (n < obstacles w)
  Settles own n (err_value e, w) = owned w ≡ own

  -- What is known of an accepted connection.
  record Accepted (own : List ℕ) (n c a : ℕ) (w : World) : Type 0 where
    owned_lem : owned w ≡ a ∷ c ∷ own
    apart : Apart c a own
    count : n ≤ obstacles w
    ours : pid_of w a ≡ own_pid → Ends w c a
    other : pid_of w a ≢ own_pid → n < obstacles w
    honoured : one_waits ≡ true → Ends w c a

  both_closed :
      (own : List ℕ) (c a : ℕ) (w : World)
      → owned w ≡ a ∷ c ∷ own
      → (owned (close c (close a w)) ≡ own) × (obstacles w ≤ obstacles (close c (close a w)))
  both_closed own c a w h =
      let first = close_lem a [] (c ∷ own) w h tt in
      let second = close_lem c [] own (close a w) first.0 tt in
      (second.0, omega (arith, first.1, second.1))

  check_peer-Settles :
      (own : List ℕ) (n c a : ℕ) (w : World)
      → Accepted own n c a w
      → Settles own n (check_peer calls c a (peer_pid a w))
  unfolding check_peer
  check_peer-Settles own n c a w h = elim (peer_pid_lem a w) [
    | inl (w', e, o, r, keep) ↦
        let closed = both_closed own c a w' (o ∙ h.owned_lem) in
        rw e (elim (Bool-cases (pid_of w a == own_pid)) [
          | inl same ↦ rw same (o ∙ h.owned_lem, keep c a (h.ours (ground arith)), h.apart)
          | inr differ ↦
              let lost = h.other (ground arith) in
              rw differ (closed.0, omega (arith, closed.1, r, lost))
        ])
    | inr (x, w', e, o, r, wine, keep) ↦
        let closed = both_closed own c a w' (o ∙ h.owned_lem) in
        rw e (elim (Bool-cases (x == wsa_e_op_not_supp)) [
          | inl same ↦
              rw same (o ∙ h.owned_lem, keep c a (h.honoured (wine (ground arith))), h.apart)
          | inr differ ↦ rw differ closed.0
        ])
  ]

  -- The connection of the client waits behind those of others.
  record Waits (own : List ℕ) (n s c : ℕ) (strangers : List (ℕ × ℕ)) (w : World) : Type 0 where
    owned_lem : owned w ≡ c ∷ own
    fresh : All (λ t. c ≢ t) own
    count : n ≤ obstacles w
    queue_lem : queue w s ≡ strangers ++ (own_pid, c) ∷ []
    strange : All (λ (e : ℕ × ℕ). e.0 ≢ own_pid) strangers
    late : strangers ≢ [] → n < obstacles w
    honoured : one_waits ≡ true → strangers ≡ []

  All-zip : (c a : ℕ) (ts : List ℕ) → All (λ t. c ≢ t) ts → All (λ t. a ≢ t) (c ∷ ts) → Apart c a ts
  All-zip c a [] hs ks = tt
  All-zip c a (t ∷ ts) (h, hs) (k₀, ks) = ((h, ks.0), All-zip c a ts hs (k₀, ks.1))

  client_closed :
      (own : List ℕ) (c : ℕ) (w : World)
      → owned w ≡ c ∷ own
      → (owned (close c w) ≡ own) × (obstacles w ≤ obstacles (close c w))
  client_closed own c w h = let closed = close_lem c [] own w h tt in (closed.0, closed.1)

  after_accept-Settles :
      (own : List ℕ) (n s c : ℕ) (strangers : List (ℕ × ℕ)) (w : World)
      → Waits own n s c strangers w
      → Settles own n (after_accept calls c (accept s w))
  unfolding after_accept
  after_accept-Settles own n s c [] w h = elim (accept_lem s own_pid c [] w h.queue_lem) [
    | inl (a, w', e, o, r, f, p, ends) ↦ rw e (
        check_peer-Settles own n c a w' (record {
          owned_lem = o ∙ ap (λ ts. a ∷ ts) h.owned_lem;
          apart = All-zip c a own h.fresh (subst (All (λ t. a ≢ t)) h.owned_lem f);
          count = let k = h.count in omega arith;
          ours = λ q. ends;
          other = λ q. absurd (q p);
          honoured = λ q. ends;
        }))
    | inr (x, w', e, o, r) ↦ rw e (client_closed own c w' (o ∙ h.owned_lem)).0
  ]
  after_accept-Settles own n s c ((pid, d) ∷ strangers) w h =
      elim (accept_lem s pid d (strangers ++ (own_pid, c) ∷ []) w h.queue_lem) [
        | inl (a, w', e, o, r, f, p, ends) ↦
            let late = h.late (λ q. cc) in
            rw e (
              check_peer-Settles own n c a w' (record {
                owned_lem = o ∙ ap (λ ts. a ∷ ts) h.owned_lem;
                apart = All-zip c a own h.fresh (subst (All (λ t. a ≢ t)) h.owned_lem f);
                count = let k = h.count in omega arith;
                ours = λ q. absurd (h.strange.0 (sym p ∙ q));
                other = λ q. omega arith;
                honoured = λ q. let none_there = h.honoured q in cc;
              }))
        | inr (x, w', e, o, r) ↦ rw e (client_closed own c w' (o ∙ h.owned_lem)).0
      ]

  is_race-cases : (e : ℕ) → is_race e ≡ true → (e ≡ 10055) ⊎ (e ≡ 10061) ⊎ (e ≡ 10035)
  is_race-cases e h = ground arith

  pub after_connect-Settles :
      (own : List ℕ) (n s c : ℕ) (addr : List ℕ) (w : World)
      → Listens w addr s 0
      → owned w ≡ c ∷ own
      → All (λ t. c ≢ t) own
      → n ≤ obstacles w
      → Settles own n (after_connect calls s c (connect c addr w))
  unfolding after_connect
  after_connect-Settles own n s c addr w l o f k = elim (connect_lem s c 0 addr w l) [
    | inl (strangers, w', e, o', r, q, strange, late, honoured) ↦ rw e (
        after_accept-Settles own n s c strangers w' (record {
          owned_lem = o' ∙ o;
          fresh = f;
          count = omega arith;
          queue_lem = q;
          strange = strange;
          late = λ there. let before = late there in omega arith;
          honoured = λ one. honoured one refl;
        }))
    | inr (x, w', e, o', r, race) ↦
        let closed = client_closed own c w' (o' ∙ o) in
        rw e (elim (Bool-cases (is_race x)) [
          | inl yes_race ↦
              let before = race (is_race-cases x yes_race) in
              rw yes_race (closed.0, omega (arith, closed.1, before))
          | inr no_race ↦ rw no_race closed.0
        ])
  ]

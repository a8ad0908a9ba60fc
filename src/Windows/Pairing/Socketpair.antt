-- ===== src/Windows/Pairing/Socketpair.antt =====
-- The loop of `socketpair` in src/platform/windows/internals.rs.
use crossmist.Common.{
  ℕ, zero, suc, ◌+◌, ◌≤◌, ◌<◌, ◌≡◌, ◌≢◌, refl, ◌∙◌, Option, none, some, ◌∷◌, arith,
}
use crossmist.Builtins.Sum.{Result, ok_value, err_value}
use crossmist.Unix.Socket.{Error}
use crossmist.Windows.Pairing.{Process, try_socketpair, retry, socketpair}
use crossmist.Windows.Pairing.Calls.{SocketCalls}
use crossmist.Windows.Pairing.Paired.{Attempted, try_socketpair-Attempted}

module _ (calls : SocketCalls) where
  open calls use {World, owned, obstacles, Ends}

  -- The result of the loop: what the process owns besides what it owned before, and that two sockets
  -- are the ends of one connection.
  abbrev pub Pairs : Process calls → Option (Result (ℕ × ℕ) Error) × Process calls → Type 0
  Pairs p (some (ok_value (c, a)), p') =
      (owned p'.world ≡ a ∷ c ∷ owned p.world) × Ends p'.world c a
  Pairs p (some (err_value e), p') = owned p'.world ≡ owned p.world
  Pairs p (none, p') = owned p'.world ≡ owned p.world

  Pairs-same :
      (p q : Process calls) (t : Option (Result (ℕ × ℕ) Error) × Process calls)
      → owned q.world ≡ owned p.world
      → Pairs q t
      → Pairs p t
  Pairs-same p q (some (ok_value (c, a)), p') e (o, ends) = (rw (← e) o, ends)
  Pairs-same p q (some (err_value x), p') e o = o ∙ e
  Pairs-same p q (none, p') e o = o ∙ e

  retry-Pairs :
      (p : Process calls) (t : Result (Option (ℕ × ℕ)) Error × Process calls)
      (again : Process calls → Option (Result (ℕ × ℕ) Error) × Process calls)
      → Attempted calls p t
      → ((q : Process calls) → Pairs q (again q))
      → Pairs p (retry calls t again)
  unfolding retry
  retry-Pairs p (ok_value (some (c, a)), p') again (o, ends, apart) h = (o, ends)
  retry-Pairs p (ok_value none, p') again (o, more) h = Pairs-same p p' (again p') o (h p')
  retry-Pairs p (err_value e, p') again o h = o

  -- However many attempts there are and however other processes interfere: the two sockets that come
  -- out are the two ends of one connection, and they are all that the process owns besides what it
  -- owned before; after an error, and when the attempts are used up, it owns what it owned before.
  pub socketpair-Pairs : (attempts : ℕ) (p : Process calls) → Pairs p (socketpair calls attempts p)
  unfolding socketpair
  socketpair-Pairs zero p = refl
  socketpair-Pairs (suc attempts) p =
      retry-Pairs p (try_socketpair calls p) (socketpair calls attempts)
        (try_socketpair-Attempted calls p) (socketpair-Pairs attempts)

  module _ (limit : ℕ) (few : (w : World) → obstacles w ≤ limit) where
    retry-ends :
        (attempts : ℕ) (p : Process calls) (t : Result (Option (ℕ × ℕ)) Error × Process calls)
        (again : Process calls → Option (Result (ℕ × ℕ) Error) × Process calls)
        → Attempted calls p t
        → limit < suc attempts + obstacles p.world
        → ((q : Process calls) → limit < attempts + obstacles q.world → (again q).0 ≢ none)
        → (retry calls t again).0 ≢ none
    unfolding retry
    retry-ends attempts p (ok_value (some (c, a)), p') again h enough more = λ e. cc
    retry-ends attempts p (ok_value none, p') again (o, lost) enough more = more p' (omega arith)
    retry-ends attempts p (err_value e, p') again h enough more = λ e. cc

    -- If connections of other processes, and refusals of `connect` by which the system tells of a full
    -- backlog or a lack of buffers, come at most `limit` times altogether, then the loop ends with two
    -- sockets or an error as soon as it may make more attempts than there are such times left.
    pub socketpair-ends :
        (attempts : ℕ) (p : Process calls)
        → limit < attempts + obstacles p.world
        → (socketpair calls attempts p).0 ≢ none
    unfolding socketpair
    socketpair-ends zero p enough = let k = few p.world in absurd (omega arith)
    socketpair-ends (suc attempts) p enough =
        retry-ends attempts p (try_socketpair calls p) (socketpair calls attempts)
          (try_socketpair-Attempted calls p) enough (socketpair-ends attempts)

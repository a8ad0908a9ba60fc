-- ===== src/Process/Launching/Started.antt =====
-- `try_new` and `_spawn_child` in `spawn` of src/asynchronous.rs on Unix.
use crossmist.Common.{ℕ, ◌≡◌, inl, inr, refl, ap, ◌∙◌, ◌∷◌}
use crossmist.Builtins.Sum.{Result, ok_value, err_value}
use crossmist.Unix.Socket.{Error}
use crossmist.Channel.{
  Runtime, blocking, tokio, smol, Io, io_ok, io_err, io_panic, io_undefined, gave_up,
}
use crossmist.Start.{child_arguments}
use crossmist.Process.Launching.{
  after_destroy, actions_dropped, after_dup, with_actions, spawn_child, after_nonblocking, try_new,
}
use crossmist.Process.Launching.Calls.{LaunchCalls}

module _ (calls : LaunchCalls) where
  open calls use {
    World, owned, started, sent, socketpair, set_nonblocking, register, actions_init, actions_dup,
    actions_destroy, posix_spawn, close, socketpair_lem, set_nonblocking_lem, register_lem,
    actions_init_lem, actions_dup_lem, actions_destroy_lem, posix_spawn_lem, sendmsg_keeps,
    close_lem,
  }

  -- Nothing that matters here has changed.
  abbrev pub Same : World → World → Type 0
  Same w w' = (owned w' ≡ owned w) × (started w' ≡ started w) × ((s : ℕ) → sent s w' ≡ sent s w)

  Same-trans : (w w' w'' : World) → Same w w' → Same w' w'' → Same w w''
  Same-trans w w' w'' (o, s, p) (o', s', p') = (o' ∙ o, s' ∙ s, λ fd. p' fd ∙ p fd)

  nonblocking-Same :
      (fd : ℕ) (w : World) (t : Result (Unit {0}) Error × World)
      → Same w t.1
      → Same w (after_nonblocking calls fd t).1
  unfolding after_nonblocking
  nonblocking-Same fd w (ok_value u, w') same =
      Same-trans w w' (register fd w').1 same (register_lem fd w')
  nonblocking-Same fd w (err_value e, w') same = same

  pub try_new-Same :
      (runtime : Runtime) (fd : ℕ) (w : World) → Same w (try_new calls runtime fd w).1
  unfolding try_new
  try_new-Same blocking fd w = (refl, refl, λ s. refl)
  try_new-Same tokio fd w = nonblocking-Same fd w (set_nonblocking fd w) (set_nonblocking_lem fd w)
  try_new-Same smol fd w = nonblocking-Same fd w (set_nonblocking fd w) (set_nonblocking_lem fd w)

  -- A child is started, or no descriptor is opened or closed.
  abbrev pub Starts : ℕ → World → Io ℕ × World → Type 0
  Starts child w (io_ok pid, w') =
      (owned w' ≡ owned w)
      × (started w' ≡ (pid, child_arguments child) ∷ started w)
      × ((s : ℕ) → sent s w' ≡ sent s w)
  Starts child w (io_err e, w') = owned w' ≡ owned w
  Starts child w (io_panic, w') = owned w' ≡ owned w
  Starts child w (io_undefined, w') = owned w' ≡ owned w
  Starts child w (gave_up, w') = owned w' ≡ owned w

  -- The same for the result of `posix_spawn`.
  abbrev Spawns : ℕ → World → Result ℕ Error × World → Type 0
  Spawns child w (ok_value pid, w') =
      (owned w' ≡ owned w)
      × (started w' ≡ (pid, child_arguments child) ∷ started w)
      × ((s : ℕ) → sent s w' ≡ sent s w)
  Spawns child w (err_value e, w') = owned w' ≡ owned w

  after_destroy-Starts :
      (child : ℕ) (w w' : World) (result : Result ℕ Error) (t : Result (Unit {0}) Error × World)
      → Spawns child w (result, w')
      → Same w' t.1
      → Starts child w (after_destroy calls result t)
  unfolding after_destroy
  after_destroy-Starts child w w' (ok_value pid) (ok_value u, w'') (o, s, p) (o', s', p') =
      (o' ∙ o, s' ∙ s, λ fd. p' fd ∙ p fd)
  after_destroy-Starts child w w' (ok_value pid) (err_value e, w'') (o, s, p) (o', s', p') = o' ∙ o
  after_destroy-Starts child w w' (err_value x) (ok_value u, w'') o (o', s', p') = o' ∙ o
  after_destroy-Starts child w w' (err_value x) (err_value e, w'') o (o', s', p') = o' ∙ o

  after_dup-Spawns :
      (child : ℕ) (w : World) (t : Result (Unit {0}) Error × World)
      → Same w t.1
      → Spawns child w (after_dup calls child t)
  unfolding after_dup
  after_dup-Spawns child w (err_value e, w') (o, s, p) = o
  after_dup-Spawns child w (ok_value u, w') (o, s, p) =
      elim (posix_spawn_lem (child_arguments child) w') [
        | inl (pid, w'', e, o', s', p') ↦
            rw e (o' ∙ o, s' ∙ ap (λ l. (pid, child_arguments child) ∷ l) s, λ fd. p' fd ∙ p fd)
        | inr (x, w'', e, o') ↦ rw e (o' ∙ o)
      ]

  with_actions-Starts :
      (child : ℕ) (w : World) (t : Result (Unit {0}) Error × World)
      → Same w t.1
      → Starts child w (with_actions calls child t)
  unfolding with_actions actions_dropped
  with_actions-Starts child w (err_value e, w') (o, s, p) = o
  with_actions-Starts child w (ok_value u, w') same =
      let (result, w'') = after_dup calls child (actions_dup child w') in
      after_destroy-Starts child w w'' result (actions_destroy w'')
        (after_dup-Spawns child w (actions_dup child w')
          (Same-trans w w' (actions_dup child w').1 same (actions_dup_lem child w')))
        (actions_destroy_lem w'')

  pub spawn_child-Starts : (child : ℕ) (w : World) → Starts child w (spawn_child calls child w)
  unfolding spawn_child
  spawn_child-Starts child w = with_actions-Starts child w (actions_init w) (actions_init_lem w)

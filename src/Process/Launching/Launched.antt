-- ===== src/Process/Launching/Launched.antt =====
-- What `spawn` of src/asynchronous.rs leaves on Unix: a child with its message, or no descriptor.
use mathlib.Core.Path.{subst}
use crossmist.Common.{
  ℕ, ◌≡◌, ◌≢◌, inl, inr, refl, sym, ap, ◌∙◌, Bool, true, false, List, [], ◌∷◌, ◌++◌, All,
}
use crossmist.Serde.{Object}
use crossmist.Serde.Format.{Format}
use crossmist.Serde.Law.{Law}
use crossmist.Builtins.Sum.{Result, ok_value, err_value}
use crossmist.Builtins.Tuple.{Tuple, tuple_object, tuple_format, tuple-Law}
use crossmist.Relocation.{ptr_object, ptr_format, ptr-Law}
use crossmist.Unix.Socket.{Error}
use crossmist.Unix.Wire.{Splits}
use crossmist.Channel.{Runtime, Io, io_ok, io_err, io_panic, io_undefined, gave_up, send}
use crossmist.Channel.Sending.{Puts, send-Puts}
use crossmist.Channel.Keeping.{send-keeps}
use crossmist.Start.{child_arguments, perform_sanity_checks}
use crossmist.Process.Launching.{
  is_blocking, spawn_child, try_new, Launch, both_closed, close_each, held, message_object,
  after_send, after_spawn, after_try_new, after_duplex, spawn,
}
use crossmist.Process.Launching.Calls.{LaunchCalls, socket_of}
use crossmist.Process.Launching.Started.{Same, try_new-Same, Starts, spawn_child-Starts}

module _ (calls : LaunchCalls) where
  open calls use {
    World, owned, started, sent, socketpair, set_nonblocking, register, actions_init, actions_dup,
    actions_destroy, posix_spawn, close, socketpair_lem, set_nonblocking_lem, register_lem,
    actions_init_lem, actions_dup_lem, actions_destroy_lem, posix_spawn_lem, sendmsg_keeps,
    close_lem,
  }

  closed :
      (own : List ℕ) (a b : ℕ) (w : World)
      → b ≢ a
      → owned w ≡ b ∷ a ∷ own
      → owned (both_closed calls a b w) ≡ own
  closed own a b w apart o =
      let (o', s, p) = close_lem a (b ∷ []) own w o (apart, tt) in
      (close_lem b [] own (close a w) o' tt).0

  -- Descriptors behind those that stay open
  closed_each :
      (before fds own : List ℕ) (w : World)
      → owned w ≡ before ++ (fds ++ own)
      → All (λ fd. All (λ t. t ≢ fd) before) fds
      → (owned (close_each calls fds w) ≡ before ++ own)
        × (started (close_each calls fds w) ≡ started w)
        × ((s : ℕ) → All (λ fd. s ≢ fd) fds → sent s (close_each calls fds w) ≡ sent s w)
  unfolding close_each
  closed_each before [] own w o apart = (o, refl, λ s h. refl)
  closed_each before (fd ∷ fds) own w o (h, hs) =
      let (o', s', p') = close_lem fd before (fds ++ own) w o h in
      let (o'', s'', p'') = closed_each before fds own (close fd w) o' hs in
      (o'', s'' ∙ s', λ s (k, ks). p'' s ks ∙ p' s k)

  All-left : (P : ℕ → Type 0) (xs ys : List ℕ) → All P (xs ++ ys) → All P xs
  All-left P [] ys all = tt
  All-left P (x ∷ xs) ys (h, hs) = (h, All-left P xs ys hs)

  All-two :
      (a b : ℕ) (fds : List ℕ)
      → All (λ t. a ≢ t) fds
      → All (λ t. b ≢ t) fds
      → All (λ fd. All (λ t. t ≢ fd) (b ∷ a ∷ [])) fds
  All-two a b [] hs ks = tt
  All-two a b (fd ∷ fds) (h, hs) (k, ks) = ((k, (h, tt)), All-two a b fds hs ks)

  All-none : (fds : List ℕ) → All (λ fd. All (λ t. t ≢ fd) []) fds
  All-none [] = tt
  All-none (fd ∷ fds) = (tt, All-none fds)

  module _ {Args : Type 0} {o o' : Object Args} {f : Format Args} (law : Law o o' f)
      (base base' entrypoint attempts : ℕ) (runtime : Runtime) (args : Args) where
    -- What is sent to the child
    abbrev pub message : Format (Tuple (ℕ ∷ Args ∷ []))
    message = tuple_format (ℕ ∷ Args ∷ []) (ptr_format base base', (f, tt))

    message-Law :
        Law
          (message_object calls o base entrypoint attempts runtime args)
          (tuple_object (ℕ ∷ Args ∷ []) (ptr_object base', (o', tt)))
          message
    message-Law =
        tuple-Law (ℕ ∷ Args ∷ []) (ptr_object base, (o, tt)) (ptr_object base', (o', tt))
          (ptr_format base base', (f, tt)) (ptr-Law base base', (law, tt))

    abbrev pub arg_fds : List ℕ
    arg_fds = held calls o base entrypoint attempts runtime args

    -- A child with its message, and the end of the channel as the only new descriptor, or none; and
    -- what the parent owns beside the descriptors of the arguments.
    abbrev pub Launches : List ℕ → World → Launch calls → Type 0
    Launches own w (io_ok (pid, local), w') =
        (child : ℕ) × (owned w' ≡ local ∷ own)
        × (started w' ≡ (pid, child_arguments child) ∷ started w)
        × Splits (message.encode (entrypoint, (args, tt))).bytes
            (message.encode (entrypoint, (args, tt))).fds (sent local w')
    Launches own w (io_err e, w') = owned w' ≡ own
    Launches own w (io_panic, w') = owned w' ≡ own
    Launches own w (io_undefined, w') = owned w' ≡ own
    Launches own w (gave_up, w') = owned w' ≡ own

    module _ (own : List ℕ) (w : World) (held_lem : owned w ≡ arg_fds ++ own) (a b : ℕ)
        (a_fresh : All (λ t. a ≢ t) (owned w)) (b_fresh : All (λ t. b ≢ t) (a ∷ owned w)) where
      -- The two ends are open.
      abbrev Open : World → Type 0
      Open w' = owned w' ≡ b ∷ a ∷ owned w

      a_apart : All (λ t. a ≢ t) arg_fds
      a_apart = All-left _ arg_fds own (subst (All (λ t. a ≢ t)) held_lem a_fresh)

      b_apart : All (λ t. b ≢ t) arg_fds
      b_apart = All-left _ arg_fds own (subst (All (λ t. b ≢ t)) held_lem b_fresh.1)

      -- The arguments first, and then the ends
      args_first :
          (w' : World)
          → Open w'
          → (owned (close_each calls arg_fds w') ≡ b ∷ a ∷ own)
            × (started (close_each calls arg_fds w') ≡ started w')
            × (sent a (close_each calls arg_fds w') ≡ sent a w')
      args_first w' open_lem =
          let (o', s', p') =
            closed_each (b ∷ a ∷ []) arg_fds own w' (open_lem ∙ ap (λ l. b ∷ a ∷ l) held_lem)
              (All-two a b arg_fds a_apart b_apart) in
          (o', s', p' a a_apart)

      args_then_ends :
          (w' : World) → Open w' → owned (both_closed calls a b (close_each calls arg_fds w')) ≡ own
      args_then_ends w' open_lem =
          closed own a b (close_each calls arg_fds w') b_fresh.0 (args_first w' open_lem).0

      -- The ends first, and then the arguments
      ends_then_args :
          (w' : World) → Open w' → owned (close_each calls arg_fds (both_closed calls a b w')) ≡ own
      ends_then_args w' open_lem =
          (closed_each [] arg_fds own (both_closed calls a b w')
            (closed (owned w) a b w' b_fresh.0 open_lem ∙ held_lem) (All-none arg_fds)).0

      after_send-Launches :
          (pid : ℕ) (w' : World) (t : Io (Unit {0}) × World)
          → Puts
              (socket_of calls a)
              (Splits
                (message.encode (entrypoint, (args, tt))).bytes
                (message.encode (entrypoint, (args, tt))).fds)
              w'
              t
          → sent a w' ≡ []
          → (Open t.1) × (started t.1 ≡ (pid, child_arguments b) ∷ started w)
          → Launches own w (after_send calls o base entrypoint attempts runtime args a b pid t)
      unfolding after_send
      after_send-Launches pid w' (io_ok u, w'') (ps, e, splits) nothing (open_lem, s) =
          let (o₁, s₁, p₁) = args_first w'' open_lem in
          let (o₂, s₂, p₂) = close_lem b [] (a ∷ own) (close_each calls arg_fds w'') o₁ tt in
          (
            b,
            o₂,
            s₂ ∙ s₁ ∙ s,
            subst (Splits _ _)
                (sym (p₂ a (λ k. b_fresh.0 (sym k)) ∙ p₁ ∙ e ∙ ap (λ qs. qs ++ ps) nothing)) splits,
          )
      after_send-Launches pid w' (io_err e, w'') puts nothing (open_lem, s) =
          args_then_ends w'' open_lem
      after_send-Launches pid w' (io_panic, w'') puts nothing (open_lem, s) = absurd puts
      after_send-Launches pid w' (io_undefined, w'') puts nothing (open_lem, s) = absurd puts
      after_send-Launches pid w' (gave_up, w'') puts nothing (open_lem, s) =
          args_then_ends w'' open_lem

      after_spawn-Launches :
          (w' : World) (t : Io ℕ × World)
          → Starts calls b w' t
          → Open w'
          → started w' ≡ started w
          → sent a w' ≡ []
          → Launches own w (after_spawn calls o base entrypoint attempts runtime args a b t)
      unfolding after_spawn
      after_spawn-Launches w' (io_ok pid, w'') (same_lem, s, p) open_lem begun nothing =
          after_send-Launches pid w''
            (send (socket_of calls a) (message_object calls o base entrypoint attempts runtime args)
              attempts (is_blocking runtime) (entrypoint, (args, tt)) w'')
            (send-Puts (socket_of calls a) message-Law attempts (is_blocking runtime)
              (entrypoint, (args, tt)) w'')
            (p a ∙ nothing)
            (send-keeps (socket_of calls a)
              (λ v. Open v × (started v ≡ (pid, child_arguments b) ∷ started w))
              (λ content rights dontwait v (h, k).
                let (own', s') = sendmsg_keeps a content rights dontwait v in (own' ∙ h, s' ∙ k))
              (message_object calls o base entrypoint attempts runtime args) attempts
              (is_blocking runtime) (entrypoint, (args, tt)) w''
              (same_lem ∙ open_lem, s ∙ ap (λ l. (pid, child_arguments b) ∷ l) begun))
      after_spawn-Launches w' (io_err e, w'') same_lem open_lem begun nothing =
          ends_then_args w'' (same_lem ∙ open_lem)
      after_spawn-Launches w' (io_panic, w'') same_lem open_lem begun nothing =
          ends_then_args w'' (same_lem ∙ open_lem)
      after_spawn-Launches w' (io_undefined, w'') same_lem open_lem begun nothing =
          ends_then_args w'' (same_lem ∙ open_lem)
      after_spawn-Launches w' (gave_up, w'') same_lem open_lem begun nothing =
          ends_then_args w'' (same_lem ∙ open_lem)

      after_try_new-Launches :
          (w' : World) (t : Result (Unit {0}) Error × World)
          → Same calls w' t.1
          → Open w'
          → started w' ≡ started w
          → sent a w' ≡ []
          → Launches own w (after_try_new calls o base entrypoint attempts runtime args a b t)
      unfolding after_try_new
      after_try_new-Launches w' (ok_value u, w'') (same_lem, s, p) open_lem begun nothing =
          after_spawn-Launches w'' (spawn_child calls b w'') (spawn_child-Starts calls b w'')
            (same_lem ∙ open_lem) (s ∙ begun) (p a ∙ nothing)
      after_try_new-Launches w' (err_value e, w'') (same_lem, s, p) open_lem begun nothing =
          ends_then_args w'' (same_lem ∙ open_lem)

    -- The arguments own the descriptors that they leave in a serializer. If `spawn` returns a child,
    -- then a process was started with the arguments of a child, the whole message, the entry point
    -- and the arguments of the function, was put on the socket of the child's channel, in packets
    -- that split its bytes and descriptors, and nothing else was; the descriptors of the arguments
    -- are closed in the parent, and its end of the channel is the only new one. If it returns an
    -- error, or panics, or the attempts are used up, the parent owns no new descriptor, and those
    -- of the arguments are closed too.
    pub spawn-Launches :
        (initialized : Bool) (own : List ℕ) (w : World)
        → owned w ≡ arg_fds ++ own
        → Launches own w (spawn calls o base entrypoint attempts runtime args initialized w)
    unfolding spawn after_duplex perform_sanity_checks
    spawn-Launches false own w held_lem =
        (closed_each [] arg_fds own w held_lem (All-none arg_fds)).0
    spawn-Launches true own w held_lem = elim (socketpair_lem w) [
      | inl (a, b, w', e, open_lem, a_fresh, b_fresh, begun, nothing) ↦ rw e (
          after_try_new-Launches own w held_lem a b a_fresh b_fresh w' (try_new calls runtime a w')
            (try_new-Same calls runtime a w') open_lem begun nothing)
      | inr (x, w', e, same_lem) ↦
          rw e (closed_each [] arg_fds own w' (same_lem ∙ held_lem) (All-none arg_fds)).0
    ]

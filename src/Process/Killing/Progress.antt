-- ===== src/Process/Killing/Progress.antt =====
-- The steps of `join` and `kill` that are possible while the mutex is held.
use crossmist.Common.{ℕ, ◌≡◌, ◌≢◌, ◌⊎◌, inl, inr, refl, sym, ap, ◌∙◌, true, Bool-cases}
use crossmist.Process.Killing.{
  Pid, alive, zombie, reaped, reused, Joiner, receiving, locking, clearing, waiting, unlocking,
  joined, unjoined, Killer, entering, checking, signalling, leaving, done, Holder, nobody,
  by_joiner, by_killer, World, Joins, clears, reaps, join_unlocks, Kills, kill_locks, may, may_not,
  signals, kill_unlocks, Reach,
}
use crossmist.Process.Killing.Safety.{is_gone, is_late, joiner_holds, killer_holds, Inv, Reach-Inv}

-- A call of `join` or of `kill` can take a step.
abbrev pub Moves : World → Type 0
Moves w = (w' : World) × (Joins w w' ⊎ ((j : ℕ) × Kills w j w'))

waiter-Moves :
    (w : World) (pid : Pid)
    → w.joiner ≡ waiting
    → w.pid ≡ pid
    → pid ≢ alive
    → (is_gone pid ≡ true → is_late waiting ≡ true)
    → Moves w
waiter-Moves w alive e e' h gone = absurd (h refl)
waiter-Moves w zombie e e' h gone = (_, inl (reaps e e'))
waiter-Moves w reaped e e' h gone = let g = gone refl in cc
waiter-Moves w reused e e' h gone = let g = gone refl in cc

joiner-Moves :
    (w : World) (j : Joiner)
    → Inv w
    → w.pid ≢ alive
    → w.joiner ≡ j
    → joiner_holds j ≡ true
    → Moves w
joiner-Moves w receiving inv dead e h = cc
joiner-Moves w locking inv dead e h = cc
joiner-Moves w clearing inv dead e h = (_, inl (clears e))
joiner-Moves w waiting inv dead e h =
    waiter-Moves w w.pid e refl dead (λ g. sym (ap is_late e) ∙ inv.gone g)
joiner-Moves w unlocking inv dead e h = (_, inl (join_unlocks e))
joiner-Moves w joined inv dead e h = cc
joiner-Moves w unjoined inv dead e h = cc

killer-Moves : (w : World) (i : ℕ) (k : Killer) → w.killer i ≡ k → killer_holds k ≡ true → Moves w
killer-Moves w i entering e h = cc
killer-Moves w i checking e h = elim (Bool-cases w.may_kill) [
  | inl set ↦ (_, inr (i, may e set))
  | inr clear ↦ (_, inr (i, may_not e clear))
]
killer-Moves w i signalling e h = (_, inr (i, signals e))
killer-Moves w i leaving e h = (_, inr (i, kill_unlocks e))
killer-Moves w i done e h = cc

holder-Moves :
    (w : World) (i : ℕ) (h : Holder)
    → Inv w
    → w.pid ≢ alive
    → w.killer i ≡ entering
    → w.holder ≡ h
    → Moves w
holder-Moves w i nobody inv dead e free = (_, inr (i, kill_locks e free))
holder-Moves w i by_joiner inv dead e held =
    joiner-Moves w w.joiner inv dead refl (inv.joiner_out held)
holder-Moves w i (by_killer j) inv dead e held =
    killer-Moves w j (w.killer j) refl (inv.killer_out j held)

-- No call of `kill` waits for the mutex in a deadlock, once the process has exited: while it waits,
-- `join` or some call of `kill` can take a step, in whatever way they have interleaved so far.
pub no_deadlock :
    {w : World} (i : ℕ)
    → Reach w
    → w.pid ≢ alive
    → w.killer i ≡ entering
    → (w' : World) × (Joins w w' ⊎ ((j : ℕ) × Kills w j w'))
no_deadlock {w} i r dead e = holder-Moves w i w.holder (Reach-Inv r) dead e refl

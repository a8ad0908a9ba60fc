-- ===== src/Process/Killing.antt =====
-- `Child::join` and any number of `KillHandle::kill` at the same time, step by step.
--
-- The mutex is the language's: who holds it is part of the state. Once a process has been waited for,
-- the kernel may give its number to another process.
pub mod Safety
pub mod Progress
use crossmist.Common.{ℕ, ◌≡◌, Bool, true, false, ◌==◌, if◌then◌else◌}

-- The process that the number of the child names.
pub data Pid : Type 0 where
  alive zombie reaped reused : Pid

-- Where `join` is: before `recv` has returned, before `lock`, with the lock before `*guard = false`, at
-- `waitpid`, before the guard is dropped, and after it; `unjoined` is the early return.
pub data Joiner : Type 0 where
  receiving locking clearing waiting unlocking joined unjoined : Joiner

-- Where a call of `kill` is: before `lock`, at the test of the flag, at `kill_process`, before the
-- guard is dropped, and after it.
pub data Killer : Type 0 where
  entering checking signalling leaving done : Killer

pub data Holder : Type 0 where
  nobody by_joiner : Holder
  by_killer : ℕ → Holder

pub record World : Type 0 where
  pub pid : Pid
  pub may_kill : Bool
  pub holder : Holder
  pub joiner : Joiner
  pub killer : ℕ → Killer

abbrev pub update : (ℕ → Killer) → ℕ → Killer → ℕ → Killer
update f i k j = if j == i then k else f j

-- A step of `join`.
pub data Joins (w : World) : World → Type 0 where
  recv_fails : w.joiner ≡ receiving → Joins w (record w { joiner = unjoined })
  recv_returns : w.joiner ≡ receiving → Joins w (record w { joiner = locking })
  join_locks :
      w.joiner ≡ locking
      → w.holder ≡ nobody
      → Joins w (record w { joiner = clearing; holder = by_joiner })
  clears : w.joiner ≡ clearing → Joins w (record w { joiner = waiting; may_kill = false })
  reaps :
      w.joiner ≡ waiting → w.pid ≡ zombie → Joins w (record w { joiner = unlocking; pid = reaped })
  wait_fails : w.joiner ≡ waiting → Joins w (record w { joiner = unlocking })
  join_unlocks : w.joiner ≡ unlocking → Joins w (record w { joiner = joined; holder = nobody })

-- A step of a call of `kill`.
pub data Kills (w : World) (i : ℕ) : World → Type 0 where
  kill_locks :
      w.killer i ≡ entering
      → w.holder ≡ nobody
      → Kills w i (record w { killer = update w.killer i checking; holder = by_killer i })
  may :
      w.killer i ≡ checking
      → w.may_kill ≡ true
      → Kills w i (record w { killer = update w.killer i signalling })
  may_not :
      w.killer i ≡ checking
      → w.may_kill ≡ false
      → Kills w i (record w { killer = update w.killer i leaving })
  signals : w.killer i ≡ signalling → Kills w i (record w { killer = update w.killer i leaving })
  kill_unlocks :
      w.killer i ≡ leaving
      → Kills w i (record w { killer = update w.killer i done; holder = nobody })

-- What the kernel does by itself.
pub data Happens (w : World) : World → Type 0 where
  exits : w.pid ≡ alive → Happens w (record w { pid = zombie })
  reuses : w.pid ≡ reaped → Happens w (record w { pid = reused })

pub data Step (w w' : World) : Type 0 where
  by_join : Joins w w' → Step w w'
  by_kill : (i : ℕ) → Kills w i w' → Step w w'
  by_kernel : Happens w w' → Step w w'

-- `Child::new`: the process runs, and nobody has called anything yet.
abbrev pub spawned : World
spawned = record {
  pid = alive;
  may_kill = true;
  holder = nobody;
  joiner = receiving;
  killer = λ i. entering;
}

pub data Reach : World → Type 0 where
  start : Reach spawned
  later : {w w' : World} → Reach w → Step w w' → Reach w'

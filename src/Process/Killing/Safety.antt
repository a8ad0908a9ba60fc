-- ===== src/Process/Killing/Safety.antt =====
-- Which of the calls holds the mutex, and what that means for the flag and the process.
use crossmist.Common.{
  ℕ, ◌≡◌, ◌≢◌, ◌⊎◌, inl, inr, refl, sym, ap, ◌∙◌, Bool, true, false, not, eq→==, neq→==, eq_or_not,
}
use crossmist.Process.Killing.{
  Pid, alive, zombie, reaped, reused, Joiner, receiving, locking, clearing, waiting, unlocking,
  joined, unjoined, Killer, entering, checking, signalling, leaving, done, by_joiner, by_killer,
  World, update, Joins, recv_fails, recv_returns, join_locks, clears, reaps, wait_fails,
  join_unlocks, Kills, kill_locks, may, may_not, signals, kill_unlocks, Happens, exits, reuses,
  by_join, by_kill, by_kernel, spawned, Reach, start, later,
}

abbrev pub is_gone : Pid → Bool
is_gone alive = false
is_gone zombie = false
is_gone reaped = true
is_gone reused = true

-- The flag has been cleared.
abbrev pub has_cleared : Joiner → Bool
has_cleared receiving = false
has_cleared locking = false
has_cleared clearing = false
has_cleared waiting = true
has_cleared unlocking = true
has_cleared joined = true
has_cleared unjoined = false

-- The process may have been waited for.
abbrev pub is_late : Joiner → Bool
is_late receiving = false
is_late locking = false
is_late clearing = false
is_late waiting = false
is_late unlocking = true
is_late joined = true
is_late unjoined = false

abbrev pub joiner_holds : Joiner → Bool
joiner_holds receiving = false
joiner_holds locking = false
joiner_holds clearing = true
joiner_holds waiting = true
joiner_holds unlocking = true
joiner_holds joined = false
joiner_holds unjoined = false

abbrev pub killer_holds : Killer → Bool
killer_holds entering = false
killer_holds checking = true
killer_holds signalling = true
killer_holds leaving = true
killer_holds done = false

-- The process is waited for only at the end of `join`, the two sections exclude each other, and a call
-- that is about to signal has seen the flag, which is still set.
pub record Inv (w : World) : Type 0 where
  pub gone : is_gone w.pid ≡ true → is_late w.joiner ≡ true
  pub flag : w.may_kill ≡ not (has_cleared w.joiner)
  pub joiner_in : joiner_holds w.joiner ≡ true → w.holder ≡ by_joiner
  pub joiner_out : w.holder ≡ by_joiner → joiner_holds w.joiner ≡ true
  pub killer_in : (i : ℕ) → killer_holds (w.killer i) ≡ true → w.holder ≡ by_killer i
  pub killer_out : (i : ℕ) → w.holder ≡ by_killer i → killer_holds (w.killer i) ≡ true
  pub seen : (i : ℕ) → w.killer i ≡ signalling → w.may_kill ≡ true

spawned-Inv : Inv spawned
spawned-Inv = record {
  gone = λ e. cc;
  flag = refl;
  joiner_in = λ e. cc;
  joiner_out = λ e. cc;
  killer_in = λ i e. cc;
  killer_out = λ i e. cc;
  seen = λ i e. cc;
}

Joins-Inv : {w w' : World} → Inv w → Joins w w' → Inv w'
Joins-Inv {w} inv (recv_fails h) = record {
  gone = λ e. let g = inv.gone e in cc;
  flag = inv.flag ∙ ap (λ j. not (has_cleared j)) h;
  joiner_in = λ e. cc;
  joiner_out = λ e. let g = inv.joiner_out e in cc;
  killer_in = inv.killer_in;
  killer_out = inv.killer_out;
  seen = inv.seen;
}
Joins-Inv {w} inv (recv_returns h) = record {
  gone = λ e. let g = inv.gone e in cc;
  flag = inv.flag ∙ ap (λ j. not (has_cleared j)) h;
  joiner_in = λ e. cc;
  joiner_out = λ e. let g = inv.joiner_out e in cc;
  killer_in = inv.killer_in;
  killer_out = inv.killer_out;
  seen = inv.seen;
}
Joins-Inv {w} inv (join_locks h free) = record {
  gone = λ e. let g = inv.gone e in cc;
  flag = inv.flag ∙ ap (λ j. not (has_cleared j)) h;
  joiner_in = λ e. refl;
  joiner_out = λ e. refl;
  killer_in = λ i e. let g = inv.killer_in i e in cc;
  killer_out = λ i e. cc;
  seen = inv.seen;
}
Joins-Inv {w} inv (clears h) =
    let held : w.holder ≡ by_joiner = inv.joiner_in (ap joiner_holds h) in
    record {
      gone = λ e. let g = inv.gone e in cc;
      flag = refl;
      joiner_in = λ e. held;
      joiner_out = λ e. refl;
      killer_in = inv.killer_in;
      killer_out = inv.killer_out;
      seen = λ i e. let g = inv.killer_in i (ap killer_holds e) in cc;
    }
Joins-Inv {w} inv (reaps h dead) =
    let held : w.holder ≡ by_joiner = inv.joiner_in (ap joiner_holds h) in
    record {
      gone = λ e. refl;
      flag = inv.flag ∙ ap (λ j. not (has_cleared j)) h;
      joiner_in = λ e. held;
      joiner_out = λ e. refl;
      killer_in = inv.killer_in;
      killer_out = inv.killer_out;
      seen = inv.seen;
    }
Joins-Inv {w} inv (wait_fails h) =
    let held : w.holder ≡ by_joiner = inv.joiner_in (ap joiner_holds h) in
    record {
      gone = λ e. refl;
      flag = inv.flag ∙ ap (λ j. not (has_cleared j)) h;
      joiner_in = λ e. held;
      joiner_out = λ e. refl;
      killer_in = inv.killer_in;
      killer_out = inv.killer_out;
      seen = inv.seen;
    }
Joins-Inv {w} inv (join_unlocks h) =
    let held : w.holder ≡ by_joiner = inv.joiner_in (ap joiner_holds h) in
    record {
      gone = λ e. let g = inv.gone e in cc;
      flag = inv.flag ∙ ap (λ j. not (has_cleared j)) h;
      joiner_in = λ e. cc;
      joiner_out = λ e. cc;
      killer_in = λ i e. let g = inv.killer_in i e in cc;
      killer_out = λ i e. cc;
      seen = inv.seen;
    }

-- A call at its next place, and the other calls where they were.
update-cases :
    (f : ℕ → Killer) (i : ℕ) (k : Killer) (j : ℕ)
    → ((j ≡ i) × (update f i k j ≡ k)) ⊎ ((j ≡ i → ⊥) × (update f i k j ≡ f j))
update-cases f i k j = elim (eq_or_not j i) [
  | inl e ↦ inl (e, rw (eq→== j i e))
  | inr n ↦ inr (n, rw (neq→== j i n))
]

by_killer-injective : (i j : ℕ) → by_killer i ≡ by_killer j → j ≡ i
by_killer-injective i j e = cc

-- A step of the call that holds the mutex, to a place at which it still holds it.
inside-Inv :
    (w : World) (i : ℕ) (k : Killer)
    → Inv w
    → killer_holds (w.killer i) ≡ true
    → killer_holds k ≡ true
    → (k ≡ signalling → w.may_kill ≡ true)
    → Inv (record w { killer = update w.killer i k })
inside-Inv w i k inv h h' s = record {
  gone = inv.gone;
  flag = inv.flag;
  joiner_in = inv.joiner_in;
  joiner_out = inv.joiner_out;
  killer_in = λ j e. elim (update-cases w.killer i k j) [
    | inl (same, new) ↦ inv.killer_in i h ∙ ap by_killer (sym same)
    | inr (other, old) ↦ inv.killer_in j (ap killer_holds (sym old) ∙ e)
  ];
  killer_out = λ j e. elim (update-cases w.killer i k j) [
    | inl (same, new) ↦ ap killer_holds new ∙ h'
    | inr (other, old) ↦ ap killer_holds old ∙ inv.killer_out j e
  ];
  seen = λ j e. elim (update-cases w.killer i k j) [
    | inl (same, new) ↦ s (sym new ∙ e)
    | inr (other, old) ↦ inv.seen j (sym old ∙ e)
  ];
}

Kills-Inv : {w : World} {i : ℕ} {w' : World} → Inv w → Kills w i w' → Inv w'
Kills-Inv {w} {i = i} inv (kill_locks h free) = record {
  gone = inv.gone;
  flag = inv.flag;
  joiner_in = λ e. let g = inv.joiner_in e in cc;
  joiner_out = λ e. cc;
  killer_in = λ j e. elim (update-cases w.killer i checking j) [
    | inl (same, new) ↦ ap by_killer (sym same)
    | inr (other, old) ↦ let g = inv.killer_in j (ap killer_holds (sym old) ∙ e) in cc
  ];
  killer_out = λ j e. elim (update-cases w.killer i checking j) [
    | inl (same, new) ↦ ap killer_holds new
    | inr (other, old) ↦ absurd (other (by_killer-injective i j e))
  ];
  seen = λ j e. elim (update-cases w.killer i checking j) [
    | inl (same, new) ↦ cc
    | inr (other, old) ↦ inv.seen j (sym old ∙ e)
  ];
}
Kills-Inv {w} {i = i} inv (may h flag) =
    inside-Inv w i signalling inv (ap killer_holds h) refl (λ e. flag)
Kills-Inv {w} {i = i} inv (may_not h flag) =
    inside-Inv w i leaving inv (ap killer_holds h) refl (λ e. cc)
Kills-Inv {w} {i = i} inv (signals h) =
    inside-Inv w i leaving inv (ap killer_holds h) refl (λ e. cc)
Kills-Inv {w} {i = i} inv (kill_unlocks h) =
    let held : w.holder ≡ by_killer i = inv.killer_in i (ap killer_holds h) in
    record {
      gone = inv.gone;
      flag = inv.flag;
      joiner_in = λ e. let g = inv.joiner_in e in cc;
      joiner_out = λ e. cc;
      killer_in = λ j e. elim (update-cases w.killer i done j) [
        | inl (same, new) ↦ let g = sym (ap killer_holds new) ∙ e in cc
        | inr (other, old) ↦ absurd (
            other (
              by_killer-injective i j (sym held ∙ inv.killer_in j (ap killer_holds (sym old) ∙ e))))
      ];
      killer_out = λ j e. cc;
      seen = λ j e. elim (update-cases w.killer i done j) [
        | inl (same, new) ↦ cc
        | inr (other, old) ↦ inv.seen j (sym old ∙ e)
      ];
    }

Happens-Inv : {w w' : World} → Inv w → Happens w w' → Inv w'
Happens-Inv {w} inv (exits h) = record {
  gone = λ e. cc;
  flag = inv.flag;
  joiner_in = inv.joiner_in;
  joiner_out = inv.joiner_out;
  killer_in = inv.killer_in;
  killer_out = inv.killer_out;
  seen = inv.seen;
}
Happens-Inv {w} inv (reuses h) = record {
  gone = λ e. inv.gone (ap is_gone h);
  flag = inv.flag;
  joiner_in = inv.joiner_in;
  joiner_out = inv.joiner_out;
  killer_in = inv.killer_in;
  killer_out = inv.killer_out;
  seen = inv.seen;
}

pub Reach-Inv : {w : World} → Reach w → Inv w
Reach-Inv start = spawned-Inv
Reach-Inv (later r (by_join s)) = Joins-Inv (Reach-Inv r) s
Reach-Inv (later r (by_kill i s)) = Kills-Inv (Reach-Inv r) s
Reach-Inv (later r (by_kernel s)) = Happens-Inv (Reach-Inv r) s

late_cleared : (j : Joiner) → is_late j ≡ true → has_cleared j ≡ true
late_cleared receiving e = cc
late_cleared locking e = cc
late_cleared clearing e = cc
late_cleared waiting e = cc
late_cleared unlocking e = refl
late_cleared joined e = refl
late_cleared unjoined e = cc

uncleared : (b : Bool) → not b ≡ true → b ≡ false
uncleared true e = cc
uncleared false e = refl

ours :
    (pid : Pid) (b : Bool)
    → (is_gone pid ≡ true → b ≡ true)
    → b ≡ false
    → (pid ≡ alive) ⊎ (pid ≡ zombie)
ours alive b gone h = inl refl
ours zombie b gone h = inr refl
ours reaped b gone h = let g = gone refl in cc
ours reused b gone h = let g = gone refl in cc

-- However `join` and any number of calls of `kill` interleave: when a call of `kill` is about to send
-- its signal, the number of the process still names the child, which has not been waited for; `join`
-- has not cleared the flag, and any call that is about to send a signal is this one.
pub kill_is_safe :
    {w : World} (i j : ℕ)
    → Reach w
    → w.killer i ≡ signalling
    → w.killer j ≡ signalling
    → ((w.pid ≡ alive) ⊎ (w.pid ≡ zombie)) × (has_cleared w.joiner ≡ false) × (j ≡ i)
kill_is_safe {w} i j r h h' =
    let inv = Reach-Inv r in
    let not_cleared = uncleared (has_cleared w.joiner) (sym inv.flag ∙ inv.seen i h) in
    (
      ours w.pid (has_cleared w.joiner) (λ e. late_cleared w.joiner (inv.gone e)) not_cleared,
      not_cleared,
      by_killer-injective i j
          (sym (inv.killer_in i (ap killer_holds h)) ∙ inv.killer_in j (ap killer_holds h')),
    )

-- Once `join` has called `waitpid` and returned, the flag is cleared and no call of `kill`, begun before
-- or after, is about to send a signal. The early return on an error of `recv` is not meant.
pub no_kill_after_join :
    {w : World} (i : ℕ)
    → Reach w
    → w.joiner ≡ joined
    → (w.may_kill ≡ false) × (w.killer i ≢ signalling)
no_kill_after_join {w} i r h =
    let inv = Reach-Inv r in
    let cleared : w.may_kill ≡ false = inv.flag ∙ ap (λ j. not (has_cleared j)) h in
    (cleared, λ e. let set = inv.seen i e in cc)

-- ===== src/Start.antt =====
-- src/imp.rs, `init`, with the `crossmist_main` of src/platform/unix/entry.rs, and the arguments
-- that `_spawn_child` of src/platform/unix/subprocess.rs gives to a child. A string is the list of
-- its bytes.
pub mod Decimal
use crossmist.Common.{
  ℕ, ◌<◌, ◌≡◌, ◌⊎◌, inl, inr, refl, ap, Bool, true, false, ◌&&◌, Option, none, some, List, [], ◌∷◌,
  ◌==◌, if◌then◌else◌, eq→==, Bool-cases,
}
use crossmist.Builtins.Sum.{Result, ok_value, err_value}
use crossmist.Unix.Socket.{Error}
use crossmist.Start.Decimal.{to_string, parse, parse-to_string}

-- "_crossmist_"
abbrev pub crossmist_name : List ℕ
crossmist_name = 95 ∷ 99 ∷ 114 ∷ 111 ∷ 115 ∷ 115 ∷ 109 ∷ 105 ∷ 115 ∷ 116 ∷ 95 ∷ []

unfoldable pub eq_string : List ℕ → List ℕ → Bool
eq_string [] [] = true
eq_string [] (y ∷ ys) = false
eq_string (x ∷ xs) [] = false
eq_string (x ∷ xs) (y ∷ ys) = x == y && eq_string xs ys

-- What a call of `init` comes to: it returns to `main`, panics, or hands the descriptor to
-- `handle_entry` and never returns.
pub data Started : Type 0 where
  returns panics : Started
  enters : ℕ → Started

-- The descriptors of a process, and `fcntl_setfd(fd, CLOEXEC)`.
pub record Descriptors : Type 1 where
  pub Files : Type 0
  pub closes_on_exec : Files → ℕ → Bool
  pub fcntl_setfd : ℕ → Files → Result (Unit {0}) Error × Files
  pub fcntl_setfd_lem :
      (fd : ℕ) (files : Files)
      → ((files' : Files) × (fcntl_setfd fd files ≡ (ok_value tt, files'))
          × (closes_on_exec files' fd ≡ true))
        ⊎ ((e : Error) × (files' : Files) × (fcntl_setfd fd files ≡ (err_value e, files')))

module _ (descriptors : Descriptors) where
  open descriptors use {Files, closes_on_exec, fcntl_setfd, fcntl_setfd_lem}

  -- `….expect(…)`, and `handle_entry`
  unfoldable pub after_setfd : ℕ → Result (Unit {0}) Error × Files → Started × Files
  after_setfd fd (ok_value u, files) = (enters fd, files)
  after_setfd fd (err_value e, files) = (panics, files)

  unfoldable pub with_fd : Option ℕ → Files → Started × Files
  unfolding after_setfd
  with_fd (some fd) files = after_setfd fd (fcntl_setfd fd files)
  with_fd none files = (panics, files)

  -- `crossmist_main`
  unfoldable pub crossmist_main : List (List ℕ) → Files → Started × Files
  unfolding with_fd
  crossmist_main [] files = (panics, files)
  crossmist_main (arg ∷ args) files = with_fd (parse arg) files

  unfoldable pub by_arguments : List (List ℕ) → Files → Started × Files
  unfolding crossmist_main eq_string
  by_arguments [] files = (returns, files)
  by_arguments (arg ∷ args) files =
      if eq_string arg crossmist_name then crossmist_main args files else (returns, files)

  -- `init`, on the flag `INITIALIZED` and the arguments of the process
  unfoldable pub init : Bool → List (List ℕ) → Files → Started × Bool × Files
  unfolding by_arguments
  init true args files = (panics, true, files)
  init false args files = let (started, files') = by_arguments args files in (started, true, files')

-- `perform_sanity_checks`: whether it passes
unfoldable pub perform_sanity_checks : Bool → Bool
perform_sanity_checks initialized = initialized

-- The `argv` of a child
unfoldable pub child_arguments : ℕ → List (List ℕ)
unfolding to_string
child_arguments child_fd = crossmist_name ∷ to_string child_fd ∷ []

module _ (descriptors : Descriptors) where
  open descriptors use {Files, closes_on_exec, fcntl_setfd, fcntl_setfd_lem}

  -- The descriptor is not inherited by children of the process any more when `handle_entry` gets it; or
  -- the system has refused that, and the process panics.
  abbrev pub Enters : ℕ → Files → Started × Bool × Files → Type 0
  Enters fd files (started, initialized, files') =
      (initialized ≡ true)
      × (((started ≡ enters fd) × (closes_on_exec files' fd ≡ true))
          ⊎ ((started ≡ panics) × (e : Error) × (fcntl_setfd fd files ≡ (err_value e, files'))))

  setfd-Enters :
      (fd : ℕ) (files : Files)
      → let (started, files') = with_fd descriptors (some fd) files in
        Enters fd files (started, true, files')
  unfolding with_fd after_setfd
  setfd-Enters fd files = elim (fcntl_setfd_lem fd files) [
    | inl (files', e, closes) ↦ rw e (refl, inl (refl, closes))
    | inr (x, files', e) ↦ rw e (refl, inr (refl, x, refl))
  ]

  -- A child that was started with a descriptor, which has 31 bits, makes it close on `exec` and goes to
  -- `handle_entry` with it, or it panics because the system has refused the former; the check that
  -- `spawn` makes passes in it; a second call of `init` panics whatever the arguments are.
  pub child_starts :
      (child_fd : ℕ) (args : List (List ℕ)) (files : Files)
      → child_fd < 2147483648
      → Enters child_fd files (init descriptors false (child_arguments child_fd) files)
        × (perform_sanity_checks (init descriptors false (child_arguments child_fd) files).1 ≡ true)
        × ((init descriptors (init descriptors false args files).1 args files).0 ≡ panics)
  unfolding init child_arguments perform_sanity_checks
  child_starts child_fd args files h =
      (rw (parse-to_string child_fd h) (setfd-Enters child_fd files), refl, refl)

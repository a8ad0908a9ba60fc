-- ===== src/Windows/Spawning/Naming.antt =====
-- `get_own_name` of src/platform/windows/subprocess.rs: the buffer is doubled until the name fits.
use native.Mathlib.Nat.{pow-suc}
use crossmist.Common.{
  ℕ, zero, suc, ◌+◌, ◌*◌, ◌^◌, ◌≤◌, ◌<◌, ◌≡◌, ◌⊎◌, inl, inr, refl, ap, ◌∙◌, Bool-cases, ◌==◌, eq→==,
  neq→==, List, [], ◌∷◌, ◌++◌, append_assoc, length, length-append, take, take-append, arith,
}
use crossmist.Unix.Socket.{Error}
use crossmist.Windows.Spawning.{Fate, done, failed, name_loop, get_own_name}
use crossmist.Windows.Spawning.Calls.{SpawnCalls}

doubled : (attempts size : ℕ) → size * 2 ^ suc attempts ≡ size * 2 * 2 ^ attempts
doubled attempts size = grind (arith, pow-suc)

module _ (calls : SpawnCalls) where
  open calls use {
    World, view, module_file_name, last_error, own_name, module_name_lem, module_file_name_lem,
  }

  name_loop-view :
      (attempts size : ℕ) (w : World) → view (name_loop calls attempts size w).1 ≡ view w
  unfolding name_loop
  name_loop-view zero size w = refl
  name_loop-view (suc attempts) size w =
      let (len, buffer, w') = module_file_name size w in
      let same = module_file_name_lem size w in
      elim (Bool-cases (len == 0)) [
        | inl no_name ↦ rw no_name same
        | inr some_name ↦ elim (Bool-cases (len == size)) [
          | inl full ↦ rw (some_name, full) (name_loop-view attempts (size * 2) w' ∙ same)
          | inr fits ↦ rw (some_name, fits) same
        ]
      ]

  pub get_own_name-view :
      (attempts : ℕ) (w : World) → view (get_own_name calls attempts w).1 ≡ view w
  unfolding get_own_name
  get_own_name-view attempts w = name_loop-view attempts 256 w

  abbrev Names : Fate (List ℕ) → Type 0
  Names fate = (fate ≡ done (own_name ++ 0 ∷ [])) ⊎ ((e : Error) × (fate ≡ failed e))

  take_name :
      (rest : List ℕ) → take (length own_name + 1) (own_name ++ 0 ∷ rest) ≡ own_name ++ 0 ∷ []
  take_name rest =
      let e : length own_name + 1 ≡ length (own_name ++ 0 ∷ []) =
        omega (arith, length-append {0} own_name (0 ∷ [])) in
      rw (e, ← append_assoc own_name (0 ∷ []) rest) (take-append (own_name ++ 0 ∷ []) rest)

  -- A round in which the name fits, or there is none.
  fits_or_fails :
      (attempts size : ℕ) (w : World)
      → ((size ≤ length own_name)
          → (module_file_name size w).0 ≡ size
          → Names (name_loop calls (suc attempts) size w).0)
      → Names (name_loop calls (suc attempts) size w).0
  unfolding name_loop
  fits_or_fails attempts size w full = elim (module_name_lem size w) [
    | inl no_name ↦ inr (last_error (module_file_name size w).2, rw no_name refl)
    | inr (inl (rest, fits, some_name, len, content)) ↦ inl (
        rw
          (
            len,
            content,
            neq→== (length own_name) 0 (λ e. absurd (omega arith)),
            neq→== (length own_name) size (λ e. absurd (omega arith)),
          )
          (ap done (take_name rest)))
    | inr (inr (long, same)) ↦ full long same
  ]

  name_loop-Names :
      (attempts size : ℕ) (w : World)
      → length own_name < size * 2 ^ attempts
      → Names (name_loop calls (suc attempts) size w).0
  unfolding name_loop
  name_loop-Names zero size w enough = fits_or_fails zero size w (λ long same. absurd (omega arith))
  name_loop-Names (suc attempts) size w enough = fits_or_fails (suc attempts) size w λ long same.
      elim (Bool-cases (size == 0)) [
        | inl no_room ↦ inr (last_error (module_file_name size w).2, rw (same, no_room) refl)
        | inr room ↦
            rw (same, room, eq→== size size refl)
              (name_loop-Names attempts (size * 2) (module_file_name size w).2
                (rw (← doubled attempts size) enough))
      ]

  -- With one attempt and as many more as the buffer has to be doubled from its 256 units until the
  -- name fits, `get_own_name` returns the whole name, with a zero behind it, or an error.
  pub get_own_name-Names :
      (attempts : ℕ) (w : World)
      → length own_name < 256 * 2 ^ attempts
      → Names (get_own_name calls (suc attempts) w).0
  unfolding get_own_name
  get_own_name-Names attempts w enough = name_loop-Names attempts 256 w enough

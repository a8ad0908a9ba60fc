-- ===== src/Tests/Handles.antt =====
-- A broker that keeps its handles in a list, at concrete inputs.
use crossmist.Common.{
  ℕ, zero, suc, ◌≡◌, ◌≢◌, ◌⊎◌, inl, inr, refl, ap, arith, Option, none, some, List, [], ◌∷◌, ◌++◌,
  length, leb, le→leb, lt→leb, lt_or_ge, if◌then◌else◌,
}
use crossmist.Builtins.Sum.{Result, ok_value, err_value}
use crossmist.Builtins.Scalars.{IsUnsigned, usize_size}
use crossmist.Builtins.Resource.{handle-Law}
use crossmist.Unix.Socket.{Error, os_error}
use crossmist.Windows.{HandleBroker}
use crossmist.Windows.Transfer.{OnWindows}

abbrev pub nth : List ℕ → ℕ → Option ℕ
nth [] n = none
nth (x ∷ xs) zero = some x
nth (x ∷ xs) (suc n) = nth xs n

nth_end : (xs : List ℕ) (x : ℕ) → nth (xs ++ x ∷ []) (length xs) ≡ some x
nth_end [] x = refl
nth_end (y ∷ xs) x = nth_end xs x

nth_past : (xs : List ℕ) → nth xs (length xs) ≡ none
nth_past [] = refl
nth_past (y ∷ xs) = nth_past xs

nth_other : (xs : List ℕ) (x n : ℕ) → n ≢ length xs → nth (xs ++ x ∷ []) n ≡ nth xs n
nth_other [] x zero h = absurd (h refl)
nth_other [] x (suc n) h = refl
nth_other (y ∷ xs) x zero h = refl
nth_other (y ∷ xs) x (suc n) h = nth_other xs x n (λ e. h (ap suc e))

abbrev pub limit : ℕ
limit = 18446744073709551616

abbrev pub list_copy : ℕ → List ℕ → Result ℕ Error × List ℕ
list_copy file t =
    if leb (suc (length t)) limit
    then (ok_value (length t), t ++ file ∷ [])
    else (err_value (os_error 8), t)

abbrev pub stolen : Option ℕ → Result ℕ Error
stolen (some file) = ok_value file
stolen none = err_value (os_error 6)

abbrev pub list_steal : ℕ → List ℕ → Result ℕ Error × List ℕ
list_steal remote t = (stolen (nth t remote), t)

pub list_copy_lem :
    (file : ℕ) (t : List ℕ)
    → ((remote : ℕ) × (t' : List ℕ) × (list_copy file t ≡ (ok_value remote, t'))
        × IsUnsigned usize_size remote
        × (nth t remote ≡ none)
        × (nth t' remote ≡ some file)
        × ((other : ℕ) → other ≢ remote → nth t' other ≡ nth t other))
      ⊎ ((e : Error) × (t' : List ℕ) × (list_copy file t ≡ (err_value e, t')))
list_copy_lem file t = elim (lt_or_ge (length t) limit) [
  | inl small ↦ inl (
    length t,
    t ++ file ∷ [],
    rw (le→leb (suc (length t)) limit (omega arith)) refl,
    omega arith,
    nth_past t,
    nth_end t file,
    nth_other t file,
  )
  | inr full ↦ inr (os_error 8, t, rw (lt→leb (suc (length t)) limit (omega arith)) refl)
]

pub list_steal_lem :
    (remote file : ℕ) (t : List ℕ)
    → nth t remote ≡ some file
    → ((t' : List ℕ) × (list_steal remote t ≡ (ok_value file, t'))
        × ((other : ℕ) → other ≢ remote → nth t' other ≡ nth t other))
      ⊎ ((e : Error) × (t' : List ℕ) × (list_steal remote t ≡ (err_value e, t')))
list_steal_lem remote file t h = inl (t, ap (λ found. (stolen found, t)) h, λ other n. refl)

abbrev pub list_broker : HandleBroker
list_broker = record {
  Table = List ℕ;
  holds = nth;
  copy = list_copy;
  steal = list_steal;
  copy_lem = list_copy_lem;
  steal_lem = list_steal_lem;
}

pub seven-OnWindows : OnWindows list_broker handle-Law 7 tt
seven-OnWindows = record { no_fds = refl; handles_lem = omega arith; sockets_lem = omega arith }

-- ===== src/Common/Bytes.antt =====
-- The bytes of an unsigned integer in memory, on a little-endian machine.
use Prim.Native.Nat.{ℕ, zero, suc, ◌+◌, ◌*◌, ◌/◌, ◌%◌, ◌^◌, ◌<◌}
use mathlib.Core.Path.{◌≡◌, refl}
use mathlib.Core.List.{List, [], ◌∷◌}
use native.Mathlib.Omega.{arith}
use native.Mathlib.Nat.{pow-suc}
use crossmist.Common.Lists.{length, All}

-- The `size` bytes of `v`, the lowest first.
unfoldable pub le_bytes : ℕ → ℕ → List ℕ
le_bytes zero v = []
le_bytes (suc size) v = (v % 256) ∷ le_bytes size (v / 256)

-- The number that a run of bytes stands for.
unfoldable pub of_le_bytes : List ℕ → ℕ
of_le_bytes [] = 0
of_le_bytes (b ∷ bs) = b + 256 * of_le_bytes bs

pub length-le_bytes : (size v : ℕ) → length (le_bytes size v) ≡ size
unfolding le_bytes
length-le_bytes zero v = refl
length-le_bytes (suc size) v = omega (arith, length-le_bytes size (v / 256))

pub le_bytes-All : (size v : ℕ) → All (λ b. b < 256) (le_bytes size v)
unfolding le_bytes
le_bytes-All zero v = tt
le_bytes-All (suc size) v = (omega arith, le_bytes-All size (v / 256))

pub of_le_bytes-le_bytes : (size v : ℕ) → v < 256 ^ size → of_le_bytes (le_bytes size v) ≡ v
unfolding le_bytes of_le_bytes
of_le_bytes-le_bytes zero v h = omega arith
of_le_bytes-le_bytes (suc size) v h =
    omega (arith, of_le_bytes-le_bytes size (v / 256) (omega (arith, pow-suc 256 size)))

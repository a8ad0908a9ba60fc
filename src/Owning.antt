-- ===== src/Owning.antt =====
-- src/owning_ref.rs: a reference that owns what it points to, and the iterator that moves the
-- elements of a slice out one by one. The memory stays with somebody else; what moves is who runs
-- the destructors.
use crossmist.Common.{
  ℕ, zero, suc, ◌≤◌, ◌≡◌, refl, ap, Option, none, some, List, [], ◌∷◌, ◌++◌, length, arith,
}
use crossmist.Serde.{Serializer, serialize_each}

-- `OwningRef<'a, [T]>`: the elements whose destructors it will run.
pub record OwningSlice (T : Type 0) : Type 0 where
  pub elements : List T

module _ {T : Type 0} where
  -- `OwningRefIter::next`: the first element is taken, and the rest stays.
  unfoldable pub next : List T → Option T × OwningSlice T
  next [] = (none, record { elements = [] })
  next (head ∷ tail) = (some head, record { elements = tail })

  -- `Drop for OwningRef`: the destructors that run.
  unfoldable pub drop_rest : OwningSlice T → List T
  drop_rest r = r.elements

  unfoldable pub or_stop :
      Option T × OwningSlice T → (OwningSlice T → List T × OwningSlice T) → List T × OwningSlice T
  or_stop (none, r) again = ([], r)
  or_stop (some x, r) again = let (xs, r') = again r in (x ∷ xs, r')

  -- A loop over the iterator that is left after at most so many elements.
  unfoldable pub iterate : ℕ → OwningSlice T → List T × OwningSlice T
  unfolding or_stop
  iterate zero r = ([], r)
  iterate (suc n) r = or_stop (next r.elements) (iterate n)

  -- Each element is either moved out to the loop or dropped with the iterator, exactly once and in
  -- order, wherever the loop is left.
  pub iterate-drop :
      (n : ℕ) (xs : List T)
      → (iterate n (record { elements = xs })).0
          ++ drop_rest (iterate n (record { elements = xs })).1
        ≡ xs
  unfolding iterate next drop_rest
  iterate-drop zero xs = refl
  iterate-drop (suc n) [] = refl
  iterate-drop (suc n) (x ∷ xs) = ap (λ l. x ∷ l) (iterate-drop n xs)

  module _ (f : T → Serializer → Serializer) where
    unfoldable pub or_done :
        Option T × OwningSlice T
        → Serializer
        → (OwningSlice T → Serializer → Serializer × OwningSlice T)
        → Serializer × OwningSlice T
    or_done (none, r) s again = (s, r)
    or_done (some x, r) s again = again r (f x s)

    -- `for element in elements { s.serialize(element); }`, with as many rounds as there are
    -- elements and one more.
    unfoldable pub for_each : ℕ → OwningSlice T → Serializer → Serializer × OwningSlice T
    unfolding or_done
    for_each zero r s = (s, r)
    for_each (suc fuel) r s = or_done (next r.elements) s (for_each fuel)

    -- The loop of the default `serialize_slice` writes the elements one after the other, and leaves
    -- nothing to be dropped behind it.
    pub for_each-serialize_each :
        (fuel : ℕ) (xs : List T) (s : Serializer)
        → length xs ≤ fuel
        → for_each (suc fuel) (record { elements = xs }) s
          ≡ (serialize_each f xs s, record { elements = [] })
    unfolding for_each next serialize_each
    for_each-serialize_each fuel [] s h = refl
    for_each-serialize_each zero (x ∷ xs) s h = absurd (omega arith)
    for_each-serialize_each (suc fuel) (x ∷ xs) s h =
        for_each-serialize_each fuel xs (f x s) (omega arith)

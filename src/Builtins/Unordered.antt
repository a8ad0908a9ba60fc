-- ===== src/Builtins/Unordered.antt =====
-- The collections of src/builtins.rs whose order is not part of their value: `HashSet` and `HashMap`,
-- which are iterated in an order that differs between processes, and `BinaryHeap`.
--
-- What a collection holds is a list up to the order of its items, as an element of a quotient.
use mathlib.Core.List.{Perm}
use mathlib.Core.List.Perm
use mathlib.Core.Quot
use mathlib.Core.Quot.{Quot, Quot-set}
use crossmist.Common.{◌≡◌, sym, ap, ◌∙◌, List, [], ◌∷◌, map, length, All}
use crossmist.Serde.{Serializer, Object, Reader, ok, new, from, serialize, deserialize}
use crossmist.Serde.Format.{Format, ⊕-new, at}
use crossmist.Serde.Law.{Law, Reads}
use crossmist.Serde.RoundTrip.{exhausted, serialize-new}
use crossmist.Builtins.Scalars.{usize_size, IsUnsigned}
use crossmist.Builtins.Sequence.{Collection, sequence_object, Entry, map_object}
use crossmist.Builtins.Sequence.Transfer.{
  sequence_format, sequence-Law, sequence-Collects, entry_format, entry-Law, map-Law,
}

-- Items that may stand in a collection together: different ones for a set, entries with different
-- keys for a map, all for a heap.
abbrev pub AllApart : {T : Type 0} → (T → T → Type 0) → List T → Type 0
AllApart Apart [] = Unit
AllApart Apart (x ∷ xs) = All (Apart x) xs × AllApart Apart xs

-- A collection of the standard library, with its documented behaviour: it is iterated in some order,
-- `len` is the number of its items, and `collect` keeps the items of an iterator.
pub record Unordered (C T : Type 0) (Apart : T → T → Type 0) : Type 0 where
  pub coll : Collection C T
  pub len_lem : (c : C) → coll.len c ≡ length (coll.into_iter c)
  pub apart_lem : (c : C) → AllApart Apart (coll.into_iter c)
  pub collect_lem : (xs : List T) → AllApart Apart xs → Perm (coll.into_iter (coll.collect xs)) xs

abbrev pub Contents : Type 0 → Type 0
Contents T = Quot (λ (xs ys : List T). Perm xs ys)

abbrev pub contents : {C T : Type 0} {Apart : T → T → Type 0} → Unordered C T Apart → C → Contents T
contents U c = Quot.mk (U.coll.into_iter c)

-- Every item as it arrives.
unfoldable pub carried : {T : Type 0} → (T → T) → Contents T → Contents T
carried f = Quot.lift Quot-set (λ xs. Quot.mk (map f xs)) (λ xs ys p. Quot.sound (Perm.map f p))

module _ {T : Type 0} (Apart : T → T → Type 0) (f : Format T) where
  abbrev pub StaysApart : Type 0
  StaysApart = (x y : T) → f.Valid x → f.Valid y → Apart x y → Apart (f.carry x) (f.carry y)

  All-carry :
      StaysApart
      → (x : T) (ys : List T) → f.Valid x
      → All f.Valid ys
      → All (Apart x) ys
      → All (Apart (f.carry x)) (map f.carry ys)
  All-carry stays x [] valid valids h = tt
  All-carry stays x (y ∷ ys) valid (v, vs) (h, hs) =
      (stays x y valid v h, All-carry stays x ys valid vs hs)

  AllApart-carry :
      StaysApart
      → (xs : List T) → All f.Valid xs
      → AllApart Apart xs
      → AllApart Apart (map f.carry xs)
  AllApart-carry stays [] valids h = tt
  AllApart-carry stays (x ∷ xs) (v, vs) (h, hs) =
      (All-carry stays x xs v vs h, AllApart-carry stays xs vs hs)

-- A serializer that is turned into a deserializer for another collection.
collects :
    {R : Type 0} (r : Reader R) (s enc : Serializer) (w : R)
    → s ≡ enc
    → Reads r enc w
    → r (from s) ≡ ok (w, exhausted s)
collects r s enc w same reads =
    ap (λ (t : Serializer). r (at [] t)) (same ∙ sym (⊕-new enc))
    ∙ reads.off [] new
    ∙ ap (λ (t : Serializer). ok (w, exhausted t)) (sym same)

module _ {C C' T : Type 0} {Apart : T → T → Type 0} (U : Unordered C T Apart)
    (U' : Unordered C' T Apart) (f : Format T) where
  -- What the receiver collects holds what was sent, as it arrives.
  contents-carried :
      StaysApart Apart f
      → (c : C) → All f.Valid (U.coll.into_iter c)
      → contents U' (U'.coll.collect (map f.carry (U.coll.into_iter c)))
        ≡ carried f.carry (contents U c)
  unfolding carried
  contents-carried stays c valid = Quot.sound (
      U'.collect_lem (map f.carry (U.coll.into_iter c))
        (AllApart-carry Apart f stays (U.coll.into_iter c) valid (U.apart_lem c)))

  -- A set, or a heap, that is sent to another process, which may iterate its own collections in another
  -- order, arrives as one that holds the same items, each as it arrives there: the items are valid
  -- and not more than `usize` counts, and stay apart on the way.
  pub set_arrives :
      {o o' : Object T} (law : Law o o' f)
      → StaysApart Apart f
      → (c : C) → IsUnsigned usize_size (U.coll.len c)
      → All f.Valid (U.coll.into_iter c)
      → (c' : C') × (deserialize
            (sequence_object U'.coll o')
            (from (serialize (sequence_object U.coll o) c new))
          ≡ ok (c', exhausted (serialize (sequence_object U.coll o) c new)))
        × (contents U' c' ≡ carried f.carry (contents U c))
  set_arrives {o} {o'} law stays c fits valid = (
    U'.coll.collect (map f.carry (U.coll.into_iter c)),
    collects (deserialize (sequence_object U'.coll o')) (serialize (sequence_object U.coll o) c new)
        ((sequence_format U.coll f).encode c) (U'.coll.collect (map f.carry (U.coll.into_iter c)))
        (serialize-new (sequence-Law law U.coll) c)
        (sequence-Collects law U.coll U'.coll c (fits, U.len_lem c, valid)),
    contents-carried stays c valid,
  )

module _ {C C' K V : Type 0} {Apart : Entry K V → Entry K V → Type 0}
    (U : Unordered C (Entry K V) Apart) (U' : Unordered C' (Entry K V) Apart) {k k' : Object K}
    {v v' : Object V} {f : Format K} {g : Format V} (law : Law k k' f) (law_v : Law v v' g) where
  abbrev pub entries : Format (Entry K V)
  entries = entry_format U.coll law law_v

  -- A map that is sent to another process, which may iterate its own maps in another order, arrives
  -- as a map with the same entries up to their order, each with its key and value as they arrive
  -- there, and nothing is left to read. The entries are valid and not more than `usize` counts, and
  -- keys that differ still differ when they have arrived.
  pub map_arrives :
      StaysApart Apart entries
      → (c : C) → IsUnsigned usize_size (U.coll.len c)
      → All entries.Valid (U.coll.into_iter c)
      → (c' : C') × (deserialize
            (map_object U'.coll k' v')
            (from (serialize (map_object U.coll k v) c new))
          ≡ ok (c', exhausted (serialize (map_object U.coll k v) c new)))
        × (contents U' c' ≡ carried entries.carry (contents U c))
  map_arrives stays c fits valid = (
    U'.coll.collect (map entries.carry (U.coll.into_iter c)),
    collects (deserialize (map_object U'.coll k' v')) (serialize (map_object U.coll k v) c new)
        ((sequence_format U.coll entries).encode c)
        (U'.coll.collect (map entries.carry (U.coll.into_iter c)))
        (serialize-new (map-Law U.coll law law_v) c)
        (sequence-Collects (entry-Law U.coll law law_v) U.coll U'.coll c
          (fits, U.len_lem c, valid)),
    contents-carried U U' entries stays c valid,
  )

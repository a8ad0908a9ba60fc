-- ===== src/Builtins/Sequence/Transfer.antt =====
-- The formats of collections, and their laws.
use mathlib.Core.Path.{subst}
use crossmist.Common.{ℕ, ◌≡◌, refl, sym, ap, ◌∙◌, List, [], ◌∷◌, map, length, All}
use crossmist.Serde.{Serializer, Object, new, serialize, serialize_each}
use crossmist.Serde.Format.{Format, ◌⊕◌, ⊕-new}
use crossmist.Serde.Law.{
  Law, Writes, Writes-none, Writes-then, Reads, Reads-pure, Reads-bind, Reads-map,
}
use crossmist.Builtins.Scalars.{usize_size, IsUnsigned}
use crossmist.Builtins.Tuple.{tuple_format, tuple-Law}
use crossmist.Builtins.Sequence.{
  usize_format, usize-Law, Collection, read_times, sequence_serialize, sequence_deserialize,
  sequence_object, Entry, entry_object, entry_serialize, map_serialize, map_object, vec,
  boxed_slice_serialize, boxed_slice_object, array_object,
}

abbrev pub encode_each : {T : Type 0} → Format T → List T → Serializer
encode_each f [] = new
encode_each f (x ∷ xs) = f.encode x ⊕ encode_each f xs

-- The length and the items.
abbrev pub sequence_format : {C T : Type 0} → Collection C T → Format T → Format C
sequence_format coll f = record {
  Valid = λ v.
      IsUnsigned usize_size (coll.len v)
      × (coll.len v ≡ length (coll.into_iter v))
      × All f.Valid (coll.into_iter v);
  encode = λ v. usize_format.encode (coll.len v) ⊕ encode_each f (coll.into_iter v);
  carry = λ v. coll.collect (map f.carry (coll.into_iter v));
}

abbrev pub array_format : {T : Type 0} → ℕ → Format T → Format (List T)
array_format n f = record {
  Valid = λ xs. (length xs ≡ n) × All f.Valid xs;
  encode = encode_each f;
  carry = map f.carry;
}

loop-Writes :
    {T : Type 0} (f : Format T) (w : T → Serializer → Serializer)
    → ((x : T) → Writes (w x) (f.encode x))
    → (xs : List T) → Writes (serialize_each w xs) (encode_each f xs)
unfolding serialize_each
loop-Writes f w h [] = Writes-none
loop-Writes f w h (x ∷ xs) = Writes-then (h x) (loop-Writes f w h xs)

module _ {T : Type 0} {o o' : Object T} {f : Format T} (law : Law o o' f) where
  each-Writes : (xs : List T) → Writes (serialize_each (serialize o) xs) (encode_each f xs)
  each-Writes = loop-Writes f (serialize o) law.writes

  pub slice-Writes : (xs : List T) → Writes (o.serialize_slice xs) (encode_each f xs)
  slice-Writes xs = record { to = λ s. law.slices xs s ∙ (each-Writes xs).to s }

  pub times-Reads :
      (xs : List T)
      → All f.Valid xs
      → Reads (read_times (length xs) o') (encode_each f xs) (map f.carry xs)
  unfolding read_times
  times-Reads [] h = Reads-pure []
  times-Reads (x ∷ xs) (h, hs) =
      Reads-bind (law.reads x h) _ (Reads-map (times-Reads xs hs) (λ ys. f.carry x ∷ ys))

  module _ {C : Type 0} (coll : Collection C T) where
    sequence-Writes :
        (v : C) → Writes (sequence_serialize coll o v) ((sequence_format coll f).encode v)
    unfolding sequence_serialize
    sequence-Writes v = Writes-then (usize-Law.writes (coll.len v)) (each-Writes (coll.into_iter v))

    -- The receiver may collect the items in another way.
    pub sequence-Collects :
        {C' : Type 0} (coll' : Collection C' T) (v : C)
        → (sequence_format coll f).Valid v
        → Reads
            (sequence_deserialize coll' o')
            ((sequence_format coll f).encode v)
            (coll'.collect (map f.carry (coll.into_iter v)))
    unfolding sequence_deserialize
    sequence-Collects coll' v (fits, counted, valid) =
        Reads-bind (usize-Law.reads (coll.len v) fits) _
          (Reads-map (rw counted (times-Reads (coll.into_iter v) valid)) coll'.collect)

    pub sequence-Reads :
        (v : C)
        → (sequence_format coll f).Valid v
        → Reads
            (sequence_deserialize coll o')
            ((sequence_format coll f).encode v)
            ((sequence_format coll f).carry v)
    sequence-Reads v valid = sequence-Collects coll v valid

    pub sequence-Law :
        Law (sequence_object coll o) (sequence_object coll o') (sequence_format coll f)
    sequence-Law = record {
      writes = sequence-Writes;
      slices = λ xs s. refl;
      reads = sequence-Reads;
    }

  boxed_slice-Writes :
      (xs : List T) → Writes (boxed_slice_serialize o xs) ((sequence_format vec f).encode xs)
  unfolding boxed_slice_serialize
  boxed_slice-Writes xs = Writes-then (usize-Law.writes (length xs)) (slice-Writes xs)

  pub boxed_slice-Law : Law (boxed_slice_object o) (boxed_slice_object o') (sequence_format vec f)
  boxed_slice-Law = record {
    writes = boxed_slice-Writes;
    slices = λ xs s. refl;
    reads = sequence-Reads vec;
  }

  pub array-Law : (n : ℕ) → Law (array_object o n) (array_object o' n) (array_format n f)
  array-Law n = record {
    writes = slice-Writes;
    slices = λ xs s. refl;
    reads = λ xs (counted, valid). rw (← counted) (times-Reads xs valid);
  }

module _ {C K V : Type 0} (coll : Collection C (Entry K V)) {k k' : Object K} {v v' : Object V}
    {f : Format K} {g : Format V} (law : Law k k' f) (law_v : Law v v' g) where
  abbrev pub entry_format : Format (Entry K V)
  entry_format = tuple_format (K ∷ V ∷ []) (f, (g, tt))

  pub entry-Law : Law (entry_object coll k v) (entry_object coll k' v') entry_format
  entry-Law = tuple-Law (K ∷ V ∷ []) (k, (v, tt)) (k', (v', tt)) (f, (g, tt)) (law, (law_v, tt))

  entry-Writes : (x : Entry K V) → Writes (entry_serialize coll k v x) (entry_format.encode x)
  entry-Writes (key, (value, _)) =
      subst (Writes (entry_serialize coll k v (key, (value, tt))))
        (ap (λ (t : Serializer). f.encode key ⊕ t) (sym (⊕-new (g.encode value))))
        (Writes-then (law.writes key) (law_v.writes value))

  map-Writes :
      (m : C) → Writes (map_serialize coll k v m) ((sequence_format coll entry_format).encode m)
  unfolding map_serialize
  map-Writes m =
      Writes-then (usize-Law.writes (coll.len m))
        (loop-Writes entry_format (entry_serialize coll k v) entry-Writes (coll.into_iter m))

  pub map-Law :
      Law (map_object coll k v) (map_object coll k' v') (sequence_format coll entry_format)
  map-Law = record {
    writes = map-Writes;
    slices = λ xs s. refl;
    reads = sequence-Reads entry-Law coll;
  }

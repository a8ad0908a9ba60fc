-- ===== src/Serde/Law.antt =====
-- The contract of `Object`: the code of a type implements its format.
use crossmist.Common.{ℕ, ◌≡◌, sym, ap, ◌∙◌, List, ◌++◌, append-nil, append_assoc}
use crossmist.Serde.{
  Serializer, Deserializer, Outcome, Object, Reader, ok, and_then, ◌>>=◌, pure, new, serialize_each,
}
use crossmist.Serde.Format.{Format, ◌⊕◌, ⊕_assoc, ⊕-new, at}

-- `w` appends `c` to whatever the serializer holds.
pub record Writes (w : Serializer → Serializer) (c : Serializer) : Type 0 where
  pub to : (s : Serializer) → w s ≡ s ⊕ c

-- Where `c` is next, `r` takes exactly `c` and returns `a`.
pub record Reads {A : Type 0} (r : Reader A) (c : Serializer) (a : A) : Type 0 where
  pub off :
      (seen : List ℕ) (rest : Serializer)
      → r (at seen (c ⊕ rest)) ≡ ok (a, at (seen ++ c.bytes) rest)

-- `o` is the implementation in the sending process, `o'` that in the receiving one.
pub record Law {T : Type 0} (o o' : Object T) (f : Format T) : Type 0 where
  pub writes : (v : T) → Writes (o.serialize_self v) (f.encode v)
  pub slices :
      (xs : List T) (s : Serializer) → o.serialize_slice xs s ≡ serialize_each o.serialize_self xs s
  pub reads : (v : T) → f.Valid v → Reads o'.deserialize_self (f.encode v) (f.carry v)

pub Writes-none : Writes (λ s. s) new
Writes-none = record { to = λ s. sym (⊕-new s) }

pub Writes-then :
    {w w' : Serializer → Serializer} {c c' : Serializer}
    → Writes w c
    → Writes w' c'
    → Writes (λ s. w' (w s)) (c ⊕ c')
Writes-then {w} {c = c} {c' = c'} h h' = record {
  to = λ s. h'.to (w s) ∙ ap (λ t. t ⊕ c') (h.to s) ∙ ⊕_assoc s c c';
}

pub Reads-pure : {A : Type 0} (a : A) → Reads (pure a) new a
Reads-pure a = record { off = λ seen rest. rw append-nil }

module _ {A B : Type 0} {r : Reader A} {c : Serializer} {a : A} (h : Reads r c a) where
  pub Reads-bind :
      {c' : Serializer} {b : B} (k : A → Reader B) → Reads (k a) c' b → Reads (r >>= k) (c ⊕ c') b
  Reads-bind {c'} {b} k h' = record {
    off = λ seen rest.
        ap (λ (t : Serializer). (r >>= k) (at seen t)) (⊕_assoc c c' rest)
        ∙ ap (λ (p : Outcome (A × Deserializer)). and_then p (λ (x, d). k x d))
            (h.off seen (c' ⊕ rest))
        ∙ h'.off (seen ++ c.bytes) rest
        ∙ ap (λ (l : List ℕ). ok (b, at l rest)) (append_assoc seen c.bytes c'.bytes);
  }

  pub Reads-map : (g : A → B) → Reads (r >>= λ x. pure (g x)) c (g a)
  Reads-map g = record { off = λ seen rest. rw (h.off seen rest) }

-- A call that returns without a read of its own.
pub Reads-last :
    {A B : Type 0} {r : Reader A} {c : Serializer} {a : A} {b : B}
    → Reads r c a
    → (k : A → Reader B) → k a ≡ pure b
    → Reads (r >>= k) c b
Reads-last h k e = record { off = λ seen rest. rw (h.off seen rest) (rw e) }

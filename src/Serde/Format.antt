-- ===== src/Serde/Format.antt =====
-- What a serializable type promises: which bytes and resources stand for a value.
use crossmist.Common.{ℕ, ◌≡◌, List, ◌++◌, length, append_assoc, append-nil}
use crossmist.Serde.{Serializer, Deserializer, new}

-- The contents of one serializer behind those of another.
infixr 65 ◌⊕◌
abbrev pub ◌⊕◌ : Serializer → Serializer → Serializer
s ⊕ t = record {
  bytes = s.bytes ++ t.bytes;
  fds = s.fds ++ t.fds;
  handles = s.handles ++ t.handles;
  sockets = s.sockets ++ t.sockets;
}

pub ⊕_assoc : (s t u : Serializer) → (s ⊕ t) ⊕ u ≡ s ⊕ (t ⊕ u)
⊕_assoc s t u = λ i. record {
  bytes = append_assoc s.bytes t.bytes u.bytes i;
  fds = append_assoc s.fds t.fds u.fds i;
  handles = append_assoc s.handles t.handles u.handles i;
  sockets = append_assoc s.sockets t.sockets u.sockets i;
}

pub ⊕-new : (s : Serializer) → s ⊕ new ≡ s
⊕-new s = λ i. record {
  bytes = append-nil s.bytes i;
  fds = append-nil s.fds i;
  handles = append-nil s.handles i;
  sockets = append-nil s.sockets i;
}

-- A deserializer that has read `seen` and has `rest` before it.
abbrev pub at : List ℕ → Serializer → Deserializer
at seen rest = record {
  bytes = seen ++ rest.bytes;
  fds = rest.fds;
  handles = rest.handles;
  sockets = rest.sockets;
  pos = length seen;
}

-- The abstract view of a type: the values that can be sent, what stands for a value on the wire,
-- and what the receiving process gets for it.
pub record Format (T : Type 0) : Type 1 where
  pub Valid : T → Type 0
  pub encode : T → Serializer
  pub carry : T → T

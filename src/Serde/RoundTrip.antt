-- ===== src/Serde/RoundTrip.antt =====
-- `Serializer::serialize` and `Deserializer::deserialize` on one value.
use crossmist.Common.{◌≡◌, ap, ◌∙◌, sym, []}
use crossmist.Serde.{Serializer, Deserializer, Object, ok, new, from, serialize, deserialize}
use crossmist.Serde.Format.{Format, ⊕-new, at}
use crossmist.Serde.Law.{Law}

-- Everything of `s` has been read.
abbrev pub exhausted : Serializer → Deserializer
exhausted s = at s.bytes new

module _ {T : Type 0} {o o' : Object T} {f : Format T} (law : Law o o' f) where
  pub serialize-new : (v : T) → serialize o v new ≡ f.encode v
  serialize-new v = (law.writes v).to new

  pub deserialize-encode :
      (v : T)
      → f.Valid v
      → deserialize o' (from (f.encode v)) ≡ ok (f.carry v, exhausted (f.encode v))
  deserialize-encode v h =
      ap (λ (s : Serializer). deserialize o' (at [] s)) (sym (⊕-new (f.encode v)))
      ∙ (law.reads v h).off [] new

  -- A fresh serializer that is turned into a deserializer gives the value back, as the receiving
  -- process sees it, and nothing is left.
  pub deserialize-serialize :
      (v : T)
      → f.Valid v
      → deserialize o' (from (serialize o v new)) ≡ ok (f.carry v, exhausted (serialize o v new))
  deserialize-serialize v h = rw (serialize-new v) (deserialize-encode v h)

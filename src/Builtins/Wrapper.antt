-- ===== src/Builtins/Wrapper.antt =====
-- src/builtins.rs, the types that are sent as another type: `String`, `CString`, `OsString`,
-- `PathBuf`, `Duration`, `SystemTime`, `File` and the sockets.
use crossmist.Common.{◌≡◌, refl}
use crossmist.Serde.{
  Serializer, Outcome, Object, Reader, ok, and_then, ◌>>=◌, serialize, deserialize, serialize_each,
}
use crossmist.Serde.Format.{Format}
use crossmist.Serde.Law.{Law, Reads}

-- `s.serialize(into(self))` and `back(d.deserialize())`.
module _ {T U : Type 0} (into : T → U) (back : U → Outcome T) (o : Object U) where
  unfoldable pub wrapper_serialize : T → Serializer → Serializer
  wrapper_serialize v s = serialize o (into v) s

  unfoldable pub wrapper_deserialize : Reader T
  wrapper_deserialize = deserialize o >>= λ u d. and_then (back u) λ v. ok (v, d)

  abbrev pub wrapper_object : Object T
  wrapper_object = record {
    serialize_self = wrapper_serialize;
    serialize_slice = serialize_each wrapper_serialize;
    deserialize_self = wrapper_deserialize;
  }

-- What arrives is `recover v`.
abbrev pub wrapper_format : {T U : Type 0} → (T → U) → (T → T) → (T → Type 0) → Format U → Format T
wrapper_format into recover Valid f = record {
  Valid = λ v. f.Valid (into v) × Valid v;
  encode = λ v. f.encode (into v);
  carry = recover;
}

module _ {T U : Type 0} (into : T → U) (back : U → Outcome T) (recover : T → T) (Valid : T → Type 0)
    {o o' : Object U} {f : Format U} (law : Law o o' f)
    (inverse : (v : T) → Valid v → back (f.carry (into v)) ≡ ok (recover v)) where
  wrapper-Reads :
      (v : T)
      → (wrapper_format into recover Valid f).Valid v
      → Reads (wrapper_deserialize into back o') (f.encode (into v)) (recover v)
  unfolding wrapper_deserialize
  wrapper-Reads v (h, valid) = record {
    off = λ seen rest. rw ((law.reads (into v) h).off seen rest) (rw (inverse v valid));
  }

  pub wrapper-Law :
      Law
        (wrapper_object into back o)
        (wrapper_object into back o')
        (wrapper_format into recover Valid f)
  unfolding wrapper_serialize
  wrapper-Law = record {
    writes = λ v. record { to = λ s. (law.writes (into v)).to s };
    slices = λ xs s. refl;
    reads = wrapper-Reads;
  }

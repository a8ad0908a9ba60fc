-- ===== src/Windows/Transfer.antt =====
-- A value with handles, through the broker.
use mathlib.Core.Path.{subst, subst₂}
use crossmist.Common.{
  ℕ, ◌≡◌, ◌⊎◌, inl, inr, refl, sym, ap, ◌∙◌, List, [], ◌∷◌, ◌++◌, All, length, append-nil,
  drop-append, map_id,
}
use crossmist.Serde.{
  Serializer, Deserializer, Outcome, ok, and_then, Object, new, from, get_rest, deserialize,
}
use crossmist.Serde.Format.{Format, ◌⊕◌, at}
use crossmist.Serde.Law.{Law, Writes-then}
use crossmist.Serde.RoundTrip.{serialize-new, deserialize-encode}
use crossmist.Builtins.Sum.{Result, ok_value, err_value}
use crossmist.Builtins.Scalars.{IsUnsigned, usize_size}
use crossmist.Builtins.Sequence.{usize_format, usize-Law, vec}
use crossmist.Builtins.Sequence.Transfer.{encode_each, sequence_format, sequence-Law}
use crossmist.Builtins.Pod.{write-Writes}
use crossmist.Unix.Socket.{Error}
use crossmist.Windows.{
  HandleBroker, try_each, remotes_object, packed, with_sockets, with_handles,
  serialize_with_handles, got_sockets, got_handles, deserialize_with_handles,
}
use crossmist.Windows.Broker.{Holds, Holds-append, Copied, copy_each, steal_each}

abbrev remotes_format : Format (List ℕ)
remotes_format = sequence_format vec usize_format

remotes-Law : Law remotes_object remotes_object remotes_format
remotes-Law = sequence-Law usize-Law vec

-- Numbers are bytes alone.
bytes_alone :
    (xs : List ℕ)
    → encode_each usize_format xs ≡ record new { bytes = (encode_each usize_format xs).bytes }
bytes_alone [] = refl
bytes_alone (x ∷ xs) = ap (λ (s : Serializer). usize_format.encode x ⊕ s) (bytes_alone xs)

-- The bytes of a list of remote handles.
abbrev remotes_bytes : List ℕ → List ℕ
remotes_bytes xs = (remotes_format.encode xs).bytes

remotes_alone : (xs : List ℕ) → remotes_format.encode xs ≡ record new { bytes = remotes_bytes xs }
remotes_alone xs = ap (λ (s : Serializer). usize_format.encode (length xs) ⊕ s) (bytes_alone xs)

read_remotes :
    (seen xs tail : List ℕ)
    → IsUnsigned usize_size (length xs)
    → All (IsUnsigned usize_size) xs
    → deserialize remotes_object (at seen (record new { bytes = remotes_bytes xs ++ tail }))
      ≡ ok (xs, at (seen ++ remotes_bytes xs) (record new { bytes = tail }))
read_remotes seen xs tail len h =
    ap (λ (s : Serializer). deserialize remotes_object (at seen (s ⊕ record new { bytes = tail })))
      (sym (remotes_alone xs))
    ∙ (remotes-Law.reads xs (len, refl, h)).off seen (record new { bytes = tail })
    ∙ ap (λ ys. ok (ys, at (seen ++ remotes_bytes xs) (record new { bytes = tail }))) (map_id xs)

packed_bytes :
    (broker : HandleBroker) (s : Serializer) (handles sockets : List ℕ)
    → packed broker s handles sockets ≡ remotes_bytes handles ++ (remotes_bytes sockets ++ s.bytes)
unfolding packed
packed_bytes broker s handles sockets =
    ap (λ (m : Serializer). m.bytes)
      ((Writes-then (remotes-Law.writes handles)
          (Writes-then (remotes-Law.writes sockets) (write-Writes s.bytes))).to
        new)

rest_of : (seen tail : List ℕ) → get_rest (at seen (record new { bytes = tail })) ≡ tail
unfolding get_rest
rest_of seen tail = drop-append seen tail

module _ (broker : HandleBroker) {T : Type 0} {o o' : Object T} {f : Format T} (law : Law o o' f)
    (v : T) (valid : f.Valid v) where
  open broker use {Table, copy, steal}

  abbrev enc : Serializer
  enc = f.encode v

  -- The value uses no descriptors, and its handles and sockets can be counted.
  pub record OnWindows : Type 0 where
    pub no_fds : record enc { fds = [] } ≡ enc
    pub handles_lem : IsUnsigned usize_size (length enc.handles)
    pub sockets_lem : IsUnsigned usize_size (length enc.sockets)

  -- The bytes may be read as an object of another type too.
  module _ (on_windows : OnWindows) {R : Type 0} (r : Object R) (w : R) (left : Deserializer)
      (read_lem : deserialize r (from enc) ≡ ok (w, left)) where
    abbrev kept : Table → R × Deserializer → Outcome (Result R Error × Table)
    kept t (x, d) = ok (ok_value x, t)

    read_value :
        (seen : List ℕ) (t : Table)
        → got_sockets broker r enc.handles
            (ok_value enc.sockets, t)
            (at seen (record new { bytes = enc.bytes }))
          ≡ ok (ok_value w, t)
    unfolding got_sockets
    read_value seen t = rw (rest_of seen enc.bytes) (
        ap (λ (s : Serializer). and_then (deserialize r (from s)) (kept t)) on_windows.no_fds
        ∙ ap (λ (p : Outcome (R × Deserializer)). and_then p (kept t)) read_lem)

    module _ {t : Table} (c : Copied broker enc.handles t)
        (c' : Copied broker enc.sockets c.after) where
      held : Holds broker c'.after (c.remotes ++ c'.remotes) (enc.handles ++ enc.sockets)
      held = Holds-append broker c.held c'.keeps c'.fresh c'.held

      bytes : List ℕ
      bytes = remotes_bytes c.remotes ++ (remotes_bytes c'.remotes ++ enc.bytes)

      -- How the receiving process ends.
      abbrev Arrives : Outcome (Result R Error × Table) → Type 0
      Arrives out =
          ((t' : Table) × (out ≡ ok (ok_value w, t')))
          ⊎ ((e : Error) × (t' : Table) × (out ≡ ok (err_value e, t')))

      sockets-Arrives :
          (seen : List ℕ) (t₁ : Table)
          → Holds broker t₁ c'.remotes enc.sockets
          → Arrives (
              got_sockets broker r enc.handles
                (try_each steal c'.remotes t₁)
                (at seen (record new { bytes = enc.bytes })))
      sockets-Arrives seen t₁ h =
          elim (steal_each broker c'.remotes enc.sockets t₁ c'.length_lem (
            subst₂ (Holds broker t₁) (sym (append-nil c'.remotes)) (sym (append-nil enc.sockets))
              h)) [
                | inl (t₂, e, rest) ↦ inl (t₂, rw e (read_value seen t₂))
                | inr (x, t₂, e) ↦ inr (x, t₂, rw e (unfold got_sockets in refl))
              ]

      handles-Arrives :
          (seen : List ℕ)
          → Arrives (
              got_handles broker r
                (try_each steal c.remotes c'.after)
                (at seen (record new { bytes = remotes_bytes c'.remotes ++ enc.bytes })))
      unfolding got_handles
      handles-Arrives seen =
          elim (steal_each broker c.remotes enc.handles c'.after c.length_lem held) [
            | inl (t₁, e, rest) ↦
                rw (e, got_handles)
                  (rw
                    (read_remotes seen c'.remotes enc.bytes
                      (subst (IsUnsigned usize_size) (sym c'.length_lem) on_windows.sockets_lem)
                      c'.unsigned_lem)
                    (sockets-Arrives (seen ++ remotes_bytes c'.remotes) t₁ rest))
            | inr (x, t₁, e) ↦ inr (x, t₁, rw (e, got_handles) refl)
          ]

      message-Arrives : Arrives (deserialize_with_handles broker r bytes c'.after)
      unfolding deserialize_with_handles bytes
      message-Arrives =
          rw
            (read_remotes [] c.remotes (remotes_bytes c'.remotes ++ enc.bytes)
              (subst (IsUnsigned usize_size) (sym c.length_lem) on_windows.handles_lem)
              c.unsigned_lem)
            (handles-Arrives (remotes_bytes c.remotes))

      message_sent : serialize_with_handles broker o v t ≡ (ok_value bytes, c'.after)
      unfolding serialize_with_handles bytes
      message_sent = rw (serialize-new law v) (
          rw (c.copied_lem, with_handles)
            (rw (c'.copied_lem, with_sockets)
              (ap (λ (b : List ℕ). (ok_value b, c'.after))
                (packed_bytes broker enc c.remotes c'.remotes))))

    -- The sender has an error of the system, or the receiver has one or the object.
    pub through_broker_read :
        (t : Table)
        → ((bytes : List ℕ) × (t₁ : Table) × (serialize_with_handles broker o v t
              ≡ (ok_value bytes, t₁))
            × (((t₂ : Table) × (deserialize_with_handles broker r bytes t₁ ≡ ok (ok_value w, t₂)))
                ⊎ ((e : Error) × (t₂ : Table) × (deserialize_with_handles broker r bytes t₁
                      ≡ ok (err_value e, t₂)))))
          ⊎ ((e : Error) × (t₁ : Table) × (serialize_with_handles broker o v t ≡ (err_value e, t₁)))
    unfolding serialize_with_handles
    through_broker_read t = elim (copy_each broker enc.handles t) [
      | inr (x, t₁, e) ↦ inr (x, t₁, rw (serialize-new law v) (rw (e, with_handles) refl))
      | inl c ↦ elim (copy_each broker enc.sockets c.after) [
        | inr (x, t₂, e) ↦ inr (
          x,
          t₂,
          rw (serialize-new law v) (rw (c.copied_lem, with_handles) (rw (e, with_sockets) refl)),
        )
        | inl c' ↦ inl (bytes c c', c'.after, message_sent c c', message-Arrives c c')
      ]
    ]

  pub through_broker :
      OnWindows
      → (t : Table)
      → ((bytes : List ℕ) × (t₁ : Table) × (serialize_with_handles broker o v t
            ≡ (ok_value bytes, t₁))
          × (((t₂ : Table) × (deserialize_with_handles broker o' bytes t₁
                  ≡ ok (ok_value (f.carry v), t₂)))
              ⊎ ((e : Error) × (t₂ : Table) × (deserialize_with_handles broker o' bytes t₁
                    ≡ ok (err_value e, t₂)))))
        ⊎ ((e : Error) × (t₁ : Table) × (serialize_with_handles broker o v t ≡ (err_value e, t₁)))
  through_broker on_windows t =
      through_broker_read on_windows o' (f.carry v) _ (deserialize-encode law v valid) t

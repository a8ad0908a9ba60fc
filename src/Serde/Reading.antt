-- ===== src/Serde/Reading.antt =====
-- `Deserializer::read` on every branch.
use crossmist.Common.{
  ℕ, ◌+◌, ◌-◌, ◌≤◌, ◌<◌, ◌≡◌, ap, refl, ◌∙◌, true, List, ◌++◌, length, take, drop, arith, leb,
  le→leb, lt_or_ge, ◌⊎◌, inl, inr, lt→leb, length-append, take-append, drop-append, append_assoc,
  length-drop, length-take_le, drop-drop, take-append-drop,
}
use crossmist.Serde.{Serializer, Deserializer, ok, panicked, out_of_range, new, read, get_rest}
use crossmist.Serde.Format.{◌⊕◌, at}

-- The bytes that are next, in a deserializer that has read `seen`.
pub read-at :
    (seen chunk : List ℕ) (rest : Serializer)
    → read (length chunk) (at seen (record new { bytes = chunk } ⊕ rest))
      ≡ ok (chunk, at (seen ++ chunk) rest)
unfolding read
read-at seen chunk rest =
    let n = length chunk in
    let e : length seen + n - n ≡ length seen = omega arith in
    let fits : leb (length seen + n) (length (seen ++ (chunk ++ rest.bytes))) ≡ true =
      le→leb _ _
        (omega (arith, length-append seen (chunk ++ rest.bytes), length-append chunk rest.bytes)) in
    rw fits (simp (e, drop-append, take-append, append_assoc, length-append))

-- The position of a deserializer lies in its data.
abbrev pub IsWithin : Deserializer → Type 0
IsWithin d = d.pos ≤ length d.bytes

module _ (count : ℕ) (d : Deserializer) where
  read_past : length d.bytes < d.pos + count → read count d ≡ panicked out_of_range
  unfolding read
  read_past h = rw (lt→leb _ _ h)

  moved_on : Deserializer
  moved_on = record d { pos = d.pos + count }

  read_inside :
      d.pos + count ≤ length d.bytes → read count d ≡ ok (take count (drop d.pos d.bytes), moved_on)
  unfolding read moved_on
  read_inside h = let e : d.pos + count - count ≡ d.pos = omega arith in rw (le→leb _ _ h) (rw e)

  -- A read past the end of the data panics. Any other read returns exactly `count` bytes, which are
  -- the first of what was left before the call; the remainder is left after it, no resource is
  -- touched, and the position stays in the data.
  pub read_exact :
      ((length d.bytes < d.pos + count) × (read count d ≡ panicked out_of_range))
      ⊎ ((d.pos + count ≤ length d.bytes)
          × (chunk : List ℕ) × (d' : Deserializer) × (read count d ≡ ok (chunk, d'))
          × (length chunk ≡ count)
          × (chunk ++ get_rest d' ≡ get_rest d)
          × (d'.fds ≡ d.fds)
          × (d'.handles ≡ d.handles)
          × (d'.sockets ≡ d.sockets)
          × IsWithin d')
  unfolding moved_on get_rest
  read_exact = elim (lt_or_ge (length d.bytes) (d.pos + count)) [
    | inl past ↦ inl (past, read_past past)
    | inr h ↦ inr (
      h,
      take count (drop d.pos d.bytes),
      moved_on,
      read_inside h,
      length-take_le count (drop d.pos d.bytes) (omega (arith, length-drop d.pos d.bytes)),
      ap (λ l. take count (drop d.pos d.bytes) ++ l) (rw drop-drop)
          ∙ take-append-drop count (drop d.pos d.bytes),
      refl,
      refl,
      refl,
      h,
    )
  ]

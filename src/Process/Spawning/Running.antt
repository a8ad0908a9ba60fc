-- ===== src/Process/Spawning/Running.antt =====
-- `handle_entry` on the message that `spawn` sends.
use mathlib.Core.Path.{subst}
use crossmist.Common.{
  ℕ, ◌+◌, ◌%◌, ◌<◌, ◌≡◌, ◌⊎◌, inl, inr, refl, sym, ap, ◌∙◌, Bool, true, Option, some, List, [], ◌∷◌,
  ◌++◌, if◌then◌else◌, arith,
}
use crossmist.Serde.{Serializer, Object, new, from, deserialize}
use crossmist.Serde.Format.{Format, ◌⊕◌}
use crossmist.Serde.Law.{Law}
use crossmist.Builtins.Tuple.{Tuple, tuple_format}
use crossmist.Relocation.{
  address_space, ptr_object, ptr_format, ptr-Law, relocated, relocated-offset, to_offset-IsUnsigned,
}
use crossmist.Unix.Socket.{Error, Packet, SendSocket, RecvSocket, RecvFails}
use crossmist.Unix.Wire.{Splits}
use crossmist.Unix.Receiver.{received_object, gathered}
use crossmist.Channel.{send, recv}
use crossmist.Channel.Receiving.{recv-Gets-read, OnUnix}
use crossmist.Channel.Patience.{RecvPatience}
use crossmist.Channel.Patience.Receiving.{recv-ends}
use crossmist.Channel.Outcomes.{Gets-cases}
use crossmist.Process.Spawning.{
  fake_object, Exit, exited, panics, after_call, EntryPoint, call_with, entrypoint, read_entry,
  after_recv, handle_entry,
}

-- The same code in both processes, at an offset from their bases.
pub record IsAt (base base' entry entry' : ℕ) : Type 0 where
  pub offset : ℕ
  pub base_lem : base < address_space
  pub entry_lem : entry ≡ (base + offset) % address_space
  pub entry_lem' : entry' ≡ (base' + offset) % address_space

module _ {Args Ret : Type 0} {oa oa' : Object Args} {fa : Format Args} (law : Law oa oa' fa)
    (o : Object Ret) (func : Args → Ret) (is_unit : Bool) (out : SendSocket) (attempts : ℕ) where
  -- What the parent sends: `(entrypoint, args)`.
  abbrev pub message : ℕ → ℕ → Format (Tuple (ℕ ∷ Args ∷ []))
  message base base' = tuple_format (ℕ ∷ Args ∷ []) (ptr_format base base', (fa, tt))

  -- What the child does with its output.
  abbrev pub Ran : Args → out.Net → Exit × out.Net → Type 0
  Ran args net result = result ≡ (
      if is_unit then (exited, net) else (
        after_call (send out o attempts true (func args) net).0,
        (send out o attempts true (func args) net).1,
      ))

  module _ (base base' entry entry' : ℕ) (is_at : IsAt base base' entry entry')
      (entry_at : ℕ → Option (EntryPoint out))
      (found : entry_at entry' ≡ some (entrypoint out oa' o func is_unit attempts)) where
    arrives : relocated base base' entry ≡ entry'
    arrives =
        ap (relocated base base') is_at.entry_lem
        ∙ relocated-offset base base' is_at.offset is_at.base_lem
        ∙ sym is_at.entry_lem'

    read_entry-Ran :
        (args : Args) (net : out.Net)
        → fa.Valid args
        → Ran (fa.carry args) net (
            read_entry out base' entry_at
              (deserialize
                (ptr_object base')
                (from ((message base base').encode (entry, (args, tt)))))
              net)
    unfolding read_entry entrypoint
    read_entry-Ran args net valid =
        let ptr = (ptr_format base base').encode entry in
        let e =
          ((ptr-Law base base').reads entry
              (to_offset-IsUnsigned base entry, omega (arith, is_at.entry_lem))).off
            [] (fa.encode args ⊕ new) in
        rw (e, read_entry)
          (rw (arrives, found) (rw ((law.reads args valid).off ptr.bytes new, call_with) refl))

    -- The parent has sent the entry point of a function with valid arguments that use nothing but
    -- bytes and descriptors, and in both processes the entry point lies at the same offset from the
    -- base address. If there are more attempts than the kernel refuses calls, the child calls this
    -- function on these arguments as they arrive and sends what it returns, or nothing where the
    -- type of the output is `()`; or it panics before it has called anything, on an error with which
    -- the kernel has answered a call of `recvmsg`.
    pub handle_entry-Ran :
        (args : Args) (net : out.Net) (back : RecvSocket) (patient : RecvPatience back)
        (net' : back.Net) (ps later : List Packet)
        → fa.Valid args
        → OnUnix (message base base') (entry, (args, tt))
        → patient.patience net' < attempts
        → Splits
            ((message base base').encode (entry, (args, tt))).bytes
            ((message base base').encode (entry, (args, tt))).fds
            ps
        → back.incoming net' ≡ ps ++ later
        → ((handle_entry out base' entry_at back attempts net' net ≡ (panics, net))
            × (e : Error) × RecvFails back net' e (recv fake_object back attempts true net').1)
          ⊎ Ran (fa.carry args) net (handle_entry out base' entry_at back attempts net' net)
    unfolding handle_entry received_object
    handle_entry-Ran args net back patient net' ps later valid on_unix h splits inc =
        let m = (message base base').encode (entry, (args, tt)) in
        let d = from (gathered m.bytes m.fds) in
        elim (Gets-cases fake_object back d later net' (recv fake_object back attempts true net')
          (recv-Gets-read fake_object back m.bytes m.fds d refl later attempts true net' ps splits
            inc)
          (recv-ends fake_object back patient attempts true net' h)) [
            | inl (e, rest) ↦ inr (
                subst (λ output. Ran (fa.carry args) net (after_recv out base' entry_at output net))
                  (sym e)
                  (subst
                    (λ (s : Serializer).
                      Ran (fa.carry args) net (
                        read_entry out base' entry_at (deserialize (ptr_object base') (from s))
                          net))
                    (sym on_unix) (read_entry-Ran args net valid)))
            | inr (x, e, fails) ↦
                inl (ap (λ output. after_recv out base' entry_at output net) e, x, fails)
          ]

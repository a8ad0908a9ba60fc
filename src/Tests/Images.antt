-- ===== src/Tests/Images.antt =====
-- Programs loaded at different addresses, at concrete inputs.
use crossmist.Common.{
  ℕ, zero, suc, ◌*◌, ◌+◌, ◌-◌, ◌%◌, ◌<◌, ◌≡◌, ◌⊎◌, refl, ap, arith, true, false, Option, none, some,
  [], ◌∷◌, ◌==◌, if◌then◌else◌,
}
use crossmist.Common.Bytes.{le_bytes}
use crossmist.Serde.{Serializer, ok, new, from, serialize, deserialize}
use crossmist.Serde.RoundTrip.{exhausted}
use crossmist.Builtins.Tuple.{Tuple}
use crossmist.Builtins.Resource.{fd_object, fd_format, fd-Law}
use crossmist.Unix.Wire.{packet, last}
use crossmist.Relocation.Static.{
  StaticRef, static_ref_object, static_ref, get, StaticFn, static_fn_object, new_fn, static_once,
  statics_arrive,
}
use crossmist.Relocation.{address_space}
use crossmist.Relocation.Boxed.{Image, dyn_object, SameProgram, dyn_round_trip}
use crossmist.Unix.Socket.{Error, RecvFails}
use crossmist.Channel.{recv}
use crossmist.Process.Spawning.{fake_object, EntryPoint, entrypoint, handle_entry, panics}
use crossmist.Process.Spawning.Running.{IsAt, Ran, message, handle_entry-Ran}
use crossmist.Tests.Queue.{send_queue, recv_queue, recv_queue_patience}

-- Every type is that of descriptors.
abbrev SomeTypes : ℕ → Type 0
SomeTypes k = ℕ

abbrev loaded_at : ℕ → Image SomeTypes
loaded_at base = record {
  base = base;
  vtable = λ k. (base + 8 * k) % address_space;
  reader = λ k. (base + (8 * k + 4)) % address_space;
  vtable_at = λ address.
      if address == base % address_space
      then some 0
      else (if address == (base + 8) % address_space then some 1 else none);
  objects = λ k. fd_object;
}

two_types : (k : ℕ) → k < 2 → (loaded_at 4096).vtable_at ((4096 + 8 * k) % address_space) ≡ some k
two_types zero h = refl
two_types (suc zero) h = refl
two_types (suc (suc k)) h = absurd (omega arith)

abbrev one_program : SameProgram SomeTypes (loaded_at 18446744073709551000) (loaded_at 4096)
one_program = record {
  count = 2;
  vtable_offset = λ k. 8 * k;
  reader_offset = λ k. 8 * k + 4;
  base_lem = omega arith;
  vtable_a = λ k. refl;
  vtable_b = λ k. refl;
  reader_a = λ k. refl;
  reader_b = λ k. refl;
  vtable_at_lem = two_types;
}

dyn_round_trip_example :
    deserialize
      (dyn_object SomeTypes (loaded_at 4096))
      (from (serialize (dyn_object SomeTypes (loaded_at 18446744073709551000)) (1, 7) new))
    ≡ ok (
      (1, 7),
      exhausted (serialize (dyn_object SomeTypes (loaded_at 18446744073709551000)) (1, 7) new),
    )
dyn_round_trip_example =
    dyn_round_trip SomeTypes (loaded_at 18446744073709551000) (loaded_at 4096) one_program
      (λ k. fd_format) (λ k. fd-Law) 1 7 (omega arith) tt

-- A function that gives a descriptor back, as the entry point at address 5096 of the child.
abbrev pub give_back : ℕ → ℕ
give_back fd = fd

abbrev pub entries : ℕ → Option (EntryPoint send_queue)
entries address =
    if address == 5096
    then some (entrypoint send_queue fd_object fd_object give_back false 3)
    else none

pub entry-IsAt : IsAt 18446744073709551000 4096 384 5096
entry-IsAt = record { offset = 1000; base_lem = omega arith; entry_lem = refl; entry_lem' = refl }

abbrev a_message : Serializer
a_message =
    (message fd-Law fd_object give_back false send_queue 3 18446744073709551000 4096).encode
      (384, (7, tt))

handle_entry-Ran_example :
    ((handle_entry send_queue 4096 entries recv_queue 3
          (2, packet 1 a_message.bytes (7 ∷ []) ∷ [])
          (0, [])
        ≡ (panics, (0, [])))
      × (e : Error) × RecvFails recv_queue
          (2, packet 1 a_message.bytes (7 ∷ []) ∷ [])
          e
          (recv fake_object recv_queue 3 true (2, packet 1 a_message.bytes (7 ∷ []) ∷ [])).1)
    ⊎ Ran fd-Law fd_object give_back false send_queue 3 7
        (0, [])
        (handle_entry send_queue 4096 entries recv_queue 3
          (2, packet 1 a_message.bytes (7 ∷ []) ∷ [])
          (0, []))
unfolding le_bytes
handle_entry-Ran_example =
    handle_entry-Ran fd-Law fd_object give_back false send_queue 3 18446744073709551000 4096 384
      5096 entry-IsAt entries refl 7 (0, []) recv_queue recv_queue_patience
      (2, packet 1 a_message.bytes (7 ∷ []) ∷ []) (packet 1 a_message.bytes (7 ∷ []) ∷ []) [] tt
      refl (omega arith) (last a_message.bytes (7 ∷ []) (omega arith) (omega arith)) refl

-- Two processes of one program, whose constants and functions tell their distance from the base.
abbrev high : ℕ
high = 18446744073709551000

abbrev distance : ℕ → ℕ → ℕ
distance base address = (address + (address_space - base)) % address_space

abbrev constants : ℕ → ℕ → Option ℕ
constants base address = some (distance base address)

abbrev functions : ℕ → ℕ → Option (Tuple (ℕ ∷ []) → ℕ)
functions base address = some (λ (x, _). x + distance base address)

same_distance :
    (offset : ℕ)
    → distance high ((high + offset) % address_space)
      ≡ distance 4096 ((4096 + offset) % address_space)
same_distance offset = omega arith

statics_arrive_example :
    ((r : StaticRef) × (deserialize
          (static_ref_object 4096)
          (from (serialize (static_ref_object high) (static_ref 384) new))
        ≡ ok (r, exhausted (serialize (static_ref_object high) (static_ref 384) new)))
      × (get (constants 4096) r ≡ get (constants high) (static_ref 384)))
    × ((f : StaticFn) × (deserialize
            (static_fn_object 4096)
            (from (serialize (static_fn_object high) (new_fn 384) new))
          ≡ ok (f, exhausted (serialize (static_fn_object high) (new_fn 384) new)))
        × ((static_once (ℕ ∷ []) ℕ (functions 4096)).call_object_once f (2, tt)
            ≡ (static_once (ℕ ∷ []) ℕ (functions high)).call_object_once (new_fn 384) (2, tt)))
statics_arrive_example =
    statics_arrive high 4096 (omega arith) (ℕ ∷ []) ℕ (constants high) (constants 4096)
      (functions high) (functions 4096) 1000 (λ offset. ap some (same_distance offset))
      (λ offset. ap (λ (d : ℕ). some (λ (a : Tuple (ℕ ∷ [])). a.0 + d)) (same_distance offset))
      (2, tt)

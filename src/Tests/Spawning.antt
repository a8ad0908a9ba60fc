-- ===== src/Tests/Spawning.antt =====
-- Processes of src/platform/windows/subprocess.rs in a world where the calls succeed, but for copies of
-- handles into a place that is taken.
use crossmist.Windows.Remote.{windows_call}
use crossmist.Windows.Joining.{join}
use crossmist.Windows.Joining.Joined.{Untouched, Waited}
use crossmist.Tests.Images.{give_back, entry-IsAt}
use crossmist.Builtins.Scalars.{IsUnsigned, usize_size}
use crossmist.Channel.{blocking, Io, io_ok, tokio}
use crossmist.Unix.Socket.{connection_reset, Error, os_error}
use crossmist.Common.{
  sym, ap, ◌∙◌, length, drop, ℕ, suc, ◌+◌, ◌*◌, ◌≤◌, ◌<◌, ◌≡◌, ◌≢◌, ◌⊎◌, inl, inr, refl, true,
  false, ltb, lt_or_ge, Option, none, some, List, [], ◌∷◌, ◌++◌, All, if◌then◌else◌, arith,
}
use crossmist.Windows.Spawning.Child.{load_init_handles, spawn_child}
use crossmist.Windows.Entry.{entrypoint, crossmist_main}
use crossmist.Process.Spawning.{Exit, exited}
use crossmist.Builtins.Sequence.{sequence_deserialize, sequence_serialize, read_times}
use crossmist.Builtins.Pod.{pod_deserialize}
use crossmist.Builtins.Tuple.{
  tuple_object, tuple_deserialize, tuple_serialize, serialize_rev, field_writes,
}
use crossmist.Builtins.Wrapper.{wrapper_serialize, wrapper_deserialize}
use crossmist.Serde.{read, write, get_rest, serialize_each}
use crossmist.Relocation.{to_offset, of_offset}
use crossmist.Windows.Spawning.{
  spawn_suspended_in_job, done, failed, Broker, get_own_name, start_broker,
}
use crossmist.Common.Bytes.{le_bytes, of_le_bytes}
use crossmist.Start.{perform_sanity_checks}
use crossmist.Windows.{try_each, serialize_with_handles, deserialize_with_handles}
use crossmist.Windows.Pairing.{try_socketpair, socketpair}
use crossmist.Windows.Stream.{recv, send, stream_read, stream_write}
use crossmist.Tests.Entering.{
  entry_message, windows_entries, some_data, one_exit, signal_sent, seven-Counted,
}
use crossmist.Builtins.Resource.{push_handle, next_handle, handle_object, handle-Law}
use crossmist.Windows.Stream.Delivery.{frame}
use crossmist.Windows.Launching.{Parent, spawn}
use crossmist.Windows.Launching.Launched.{Launches, spawn-Tells}
use crossmist.Tests.Handles.{list_broker, seven-OnWindows}
use crossmist.Tests.Pairing.{rival_calls, start, fresh_after, fresh_after-lt}
use crossmist.Tests.Streams.{byte_writer, byte_reader, read_bytes, eight_bytes}
use crossmist.Builtins.Sum.{Result, ok_value, err_value}
use crossmist.Windows.Spawning.View.{
  InitData, View, absent, opens, closes, limits, creates, duplicates, injects, resumes,
}
use crossmist.Windows.Spawning.Calls.{SpawnCalls}
use crossmist.Windows.Spawning.Naming.{get_own_name-Names}
use crossmist.Windows.Spawning.Starting.{StartsOrNot, spawn_child-StartsOrNot}
use crossmist.Windows.Spawning.Loading.{BrokerOrNot, start_broker-BrokerOrNot}

-- The view, and the place of the next copy.
abbrev Desk : Type 0
Desk = View × ℕ

above : (n : ℕ) (ts : List ℕ) → All (λ t. t < fresh_after n ts) ts
above n [] = tt
above n (t ∷ ts) = (let k = fresh_after-lt (n + t) ts in omega arith, above (n + t) ts)

two_fresh : (m : ℕ) (ts : List ℕ) → All (λ t. t < m) ts → All (λ t. (m ≢ t) × (suc m ≢ t)) ts
two_fresh m [] h = tt
two_fresh m (t ∷ ts) (h, hs) =
    ((λ e. absurd (omega arith), λ e. absurd (omega arith)), two_fresh m ts hs)

abbrev made : ℕ → Desk → Result (ℕ × ℕ × ℕ) Error × Desk
made j (v, n) =
    let p = fresh_after 0 v.owned in
    (ok_value (p, suc p, suc p), (creates p (suc p) (suc p) j v, n))

abbrev make : List ℕ → Desk → Result (ℕ × ℕ × ℕ) Error × Desk
make [] d = (err_value (os_error 87), d)
make (j ∷ js) d = made j d

abbrev copy : ℕ → ℕ → Option ℕ → Desk → Result ℕ Error × Desk
copy h p (some taken) d = (err_value (os_error 5), d)
copy h p none (v, n) = (ok_value n, (duplicates h (v.pid_of p) n v, suc n))

copy_lem :
    (h p : ℕ) (place : Option ℕ) (d : Desk)
    → d.0.table (d.0.pid_of p) d.1 ≡ place
    → ((r : ℕ) × (d' : Desk) × (copy h p place d ≡ (ok_value r, d'))
        × (d'.0 ≡ duplicates h (d.0.pid_of p) r d.0)
        × (d.0.table (d.0.pid_of p) r ≡ none))
      ⊎ ((e : Error) × (d' : Desk) × (copy h p place d ≡ (err_value e, d')) × (d'.0 ≡ d.0))
copy_lem h p none (v, n) e = inl (n, (copy h p none (v, n)).1, refl, refl, e)
copy_lem h p (some taken) d e = inr (os_error 5, d, refl, refl)

abbrev program : List ℕ
program = b'a' ∷ b'.' ∷ b'e' ∷ []

abbrev file_name : ℕ → Desk → ℕ × List ℕ × Desk
file_name size d = if ltb 3 size then (3, program ++ 0 ∷ [], d) else (size, [], d)

file_name_view : (size : ℕ) (d : Desk) → (file_name size d).2.0 ≡ d.0
file_name_view size d = ground arith

file_name_lem :
    (size : ℕ) (d : Desk)
    → ((file_name size d).0 ≡ 0)
      ⊎ ((rest : List ℕ) × (3 < size)
          × (0 < 3)
          × ((file_name size d).0 ≡ 3)
          × ((file_name size d).1 ≡ program ++ 0 ∷ rest))
      ⊎ ((size ≤ 3) × ((file_name size d).0 ≡ size))
file_name_lem size d = elim (lt_or_ge 3 size) [
  | inl fits ↦
      let e : ltb 3 size ≡ true = ground arith in
      inr (inl ([], fits, omega arith, rw e refl, rw e refl))
  | inr long ↦ let e : ltb 3 size ≡ false = ground arith in inr (inr (long, rw e refl))
]

abbrev desk_calls : SpawnCalls
desk_calls = record {
  World = Desk;
  view = λ d. d.0;
  create_job =
      λ d. (ok_value (fresh_after 0 d.0.owned), (opens (fresh_after 0 d.0.owned) d.0, d.1));
  set_limits = λ j limit d. (ok_value tt, (limits j limit d.0, d.1));
  attrs_size = λ d. (48, d);
  init_attrs = λ size d. (ok_value tt, d);
  update_attrs = λ j d. (ok_value tt, d);
  delete_attrs = λ d. d;
  module_file_name = file_name;
  last_error = λ d. os_error 1;
  create_process = λ name cmd jobs d. make jobs d;
  duplicate = λ h p d. copy h p (d.0.table (d.0.pid_of p) d.1) d;
  current_process = 0;
  query_peb = λ p d. (ok_value p, d);
  peb_field = λ peb. 4096;
  read_memory = λ p peb d. (ok_value 8192, d);
  write_memory = λ p at info d. (ok_value tt, (injects (d.0.pid_of p) info d.0, d.1));
  resume_thread = λ t d. (1, (resumes t d.0, d.1));
  close = λ h d. (closes h d.0, d.1);
  image_base = λ pid. 8192;
  own_base = 4096;
  init_data_offset = 64;
  thread_pid = λ t. t;
  own_name = program;
  own_base_small = omega arith;
  create_job_lem =
      λ d. inl (fresh_after 0 d.0.owned, (opens (fresh_after 0 d.0.owned) d.0, d.1), refl, refl);
  set_limits_lem = λ j limit d. inl ((limits j limit d.0, d.1), refl, refl);
  attrs_size_lem = λ d. refl;
  init_attrs_lem = λ size d. inl (d, refl, refl);
  update_attrs_lem = λ j d. inl (d, refl, refl);
  delete_attrs_lem = λ d. refl;
  module_file_name_lem = file_name_view;
  module_name_lem = file_name_lem;
  create_process_lem = λ name cmd j d.
      let p = fresh_after 0 d.0.owned in
      inl (
        p,
        suc p,
        suc p,
        (made j d).1,
        refl,
        refl,
        two_fresh p d.0.owned (above 0 d.0.owned),
        λ e. absurd (omega arith),
        refl,
      );
  duplicate_lem = λ h p d. copy_lem h p (d.0.table (d.0.pid_of p) d.1) d refl;
  query_own_peb_lem = λ d. inl (0, d, refl, refl, refl);
  query_peb_lem = λ p d. inl (p, d, refl, refl, tt);
  read_memory_lem = λ p peb d. inl (8192, d, refl, refl, (refl, omega arith));
  write_memory_lem = λ p at info d h. inl ((injects (d.0.pid_of p) info d.0, d.1), refl, refl);
  resume_thread_lem = λ t d. inl (1, (resumes t d.0, d.1), refl, λ e. absurd (omega arith), refl);
  close_lem = λ h d. refl;
}

abbrev nothing_yet : InitData
nothing_yet = record { broker_process = 0; broker_pid = 0; broker_job = 0; child_socket = 0 }

-- The broker has the handles 3 and 4, and the socket is 5.
abbrev at_first : Desk
at_first = (
  record {
    owned = 5 ∷ 3 ∷ 4 ∷ [];
    names = λ h. h * 10;
    pid_of = λ h. 0;
    kills = λ h. false;
    job_of = λ q. 0;
    runs = λ q. absent;
    table = λ q r. none;
    injected = λ q. nothing_yet;
  },
  100,
)

abbrev broker : Broker
broker = record { process = 3; pid = 33; job = 4 }

spawn_child-StartsOrNot_example :
    StartsOrNot desk_calls at_first.0 broker 5 (spawn_child desk_calls 9 broker 5 at_first)
spawn_child-StartsOrNot_example = spawn_child-StartsOrNot desk_calls 9 broker 5 at_first

start_broker-BrokerOrNot_example :
    BrokerOrNot desk_calls at_first.0 (start_broker desk_calls 9 none at_first)
start_broker-BrokerOrNot_example = start_broker-BrokerOrNot desk_calls 9 at_first

get_own_name-Names_example :
    ((get_own_name desk_calls 9 at_first).0 ≡ done (program ++ 0 ∷ []))
    ⊎ ((e : Error) × ((get_own_name desk_calls 9 at_first).0 ≡ failed e))
get_own_name-Names_example = get_own_name-Names desk_calls 8 at_first (omega arith)

abbrev parent : Parent rival_calls desk_calls list_broker byte_writer byte_reader
parent = record {
  winsock = start;
  world = at_first;
  table = 5 ∷ [];
  to_child = [];
  from_child = frame (eight_bytes 0 ++ eight_bytes 0);
}

spawn-Tells_example :
    Launches rival_calls desk_calls list_broker byte_writer byte_reader handle_object
      18446744073709551000 384 9 tokio
      (λ s. ok_value tt)
      broker
      7
      parent
      (spawn rival_calls desk_calls list_broker byte_writer byte_reader handle_object
        18446744073709551000 384 9 tokio
        (λ s. ok_value tt)
        broker
        7
        true
        parent)
spawn-Tells_example =
    spawn-Tells rival_calls desk_calls list_broker byte_writer byte_reader handle_object
      18446744073709551000 384 9 tokio (λ s. ok_value tt) broker 7 true parent

-- `spawn` in this world.
abbrev launched : Io (ℕ × ℕ) × Parent rival_calls desk_calls list_broker byte_writer byte_reader
launched =
    spawn rival_calls desk_calls list_broker byte_writer byte_reader handle_object
      18446744073709551000 384 9 tokio (λ s. ok_value tt) broker 7 true parent

launched_ok :
    (launched.0 ≡ io_ok (26, 16))
    × (launched.1.table ≡ 5 ∷ 7 ∷ [])
    × (launched.1.to_child ≡ frame entry_message)
unfolding spawn socketpair spawn_child spawn_suspended_in_job get_own_name recv send le_bytes
    of_le_bytes serialize_with_handles deserialize_with_handles perform_sanity_checks try_socketpair
    stream_read sequence_deserialize pod_deserialize read read_times try_each tuple_deserialize
    tuple_serialize serialize_rev field_writes push_handle wrapper_serialize write stream_write
    to_offset sequence_serialize serialize_each
launched_ok = (refl, refl, refl)

-- The child: it gives the handle back.
abbrev child_end : Exit × List ℕ × List ℕ
child_end =
    crossmist_main list_broker byte_writer 4096 windows_entries byte_reader (λ t. t ++ 7 ∷ [])
      (ok_value tt) (load_init_handles some_data none) (frame entry_message ++ []) (5 ∷ []) []

child_ok :
    (child_end.0 ≡ exited)
    × (child_end.2
        ≡ frame (eight_bytes 0 ++ eight_bytes 0)
          ++ frame (eight_bytes 1 ++ (eight_bytes 2 ++ eight_bytes 0)))
unfolding crossmist_main load_init_handles recv send le_bytes of_le_bytes serialize_with_handles
    deserialize_with_handles try_socketpair stream_read sequence_deserialize pod_deserialize read
    read_times try_each tuple_deserialize tuple_serialize serialize_rev field_writes push_handle
    wrapper_serialize write stream_write to_offset sequence_serialize serialize_each
    wrapper_deserialize get_rest of_offset entrypoint next_handle
child_ok = (refl, refl)

-- What the child has sent behind the signal.
abbrev for_parent : List ℕ
for_parent =
    drop (length (send byte_writer list_broker blocking (tuple_object [] tt) tt (5 ∷ []) []).2)
      child_end.2
    ++ []

child_small : IsUnsigned usize_size (length child_end.2)
unfolding le_bytes
child_small = rw child_ok.1 (omega arith)

parent_small : IsUnsigned usize_size (length launched.1.to_child)
unfolding le_bytes
parent_small = rw launched_ok.2 (omega arith)

windows_call_example :
    Untouched one_exit 26 true 0 (
      join one_exit handle_object byte_reader list_broker tokio none 26 child_end.1 for_parent true
        0)
    ⊎ Waited one_exit 26 (some 7) 0 (
        join one_exit handle_object byte_reader list_broker tokio none 26 child_end.1 for_parent
          true 0)
    ⊎ (Waited one_exit 26 none 0 (
          join one_exit handle_object byte_reader list_broker tokio none 26 child_end.1 for_parent
            true 0)
        × ((read_bytes usize_size for_parent).0 ≡ err_value connection_reset))
windows_call_example =
    windows_call rival_calls desk_calls one_exit list_broker byte_writer byte_writer byte_reader
      byte_reader handle-Law handle-Law give_back 18446744073709551000 4096 384 5096 entry-IsAt
      windows_entries refl tokio 9 (λ s. ok_value tt) broker 7 tt seven-Counted tt seven-OnWindows
      parent launched.1 26 16 (ap (λ (r : Io (ℕ × ℕ)). (r, launched.1)) launched_ok.0) parent_small
      (frame entry_message ++ []) [] (sym (ap (λ b. b ++ []) launched_ok.2)) some_data (5 ∷ [])
      child_end.1 (λ t. t ++ 7 ∷ []) [] child_end.2
      (ap (λ t. t ++ 7 ∷ []) signal_sent ∙ sym launched_ok.1)
      (ap (λ (r : Exit). (r, child_end.1, child_end.2)) child_ok.0) child_small for_parent [] refl
      true 0

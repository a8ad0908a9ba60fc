-- ===== src/Tests/Entering.antt =====
-- A child on Windows at concrete inputs: its parent has sent it a function that gives a handle back.
use crossmist.Common.{
  ℕ, ◌≡◌, refl, ap, arith, false, Option, none, some, List, [], ◌∷◌, ◌++◌, ◌==◌, if◌then◌else◌,
}
use crossmist.Common.Bytes.{le_bytes}
use crossmist.Serde.{write, serialize_each}
use crossmist.Builtins.Sum.{ok_value}
use crossmist.Builtins.Sequence.{sequence_serialize}
use crossmist.Builtins.Tuple.{tuple_object, tuple_serialize, serialize_rev, field_writes}
use crossmist.Builtins.Wrapper.{wrapper_serialize}
use crossmist.Builtins.Resource.{push_handle, handle_object, handle-Law}
use crossmist.Relocation.{ptr_object, to_offset}
use crossmist.Channel.{blocking}
use crossmist.Windows.{try_each, serialize_with_handles}
use crossmist.Windows.Transfer.{OnWindows}
use crossmist.Windows.Spawning.View.{InitData}
use crossmist.Windows.Spawning.Child.{load_init_handles}
use crossmist.Windows.Stream.{stream_write, send}
use crossmist.Windows.Stream.Delivery.{frame}
use crossmist.Windows.Entry.{EntryPoint, entrypoint, crossmist_main}
use crossmist.Windows.Entry.Running.{message-Law, message-Valid, SignalsThenRan, crossmist_main-Ran}
use crossmist.Windows.Joining.{ProcessCalls}
use crossmist.Tests.Handles.{list_broker}
use crossmist.Tests.Images.{give_back, entry-IsAt}
use crossmist.Tests.Streams.{byte_writer, byte_reader, eight_bytes}

abbrev pub windows_entries : ℕ → Option (EntryPoint list_broker byte_writer)
windows_entries address =
    if address == 5096
    then some (entrypoint list_broker byte_writer handle_object handle_object give_back false)
    else none

abbrev pub some_data : InitData
some_data = record { broker_process = 20; broker_pid = 4; broker_job = 24; child_socket = 28 }

-- One handle, number 1 of the broker, no sockets, and the entry point 1000 bytes behind the base.
abbrev pub entry_message : List ℕ
entry_message =
    eight_bytes 1 ++ (eight_bytes 1 ++ (eight_bytes 0 ++ 232 ∷ 3 ∷ 0 ∷ 0 ∷ 0 ∷ 0 ∷ 0 ∷ 0 ∷ []))

entry_sent :
    serialize_with_handles list_broker
      (tuple_object (ℕ ∷ ℕ ∷ []) (ptr_object 18446744073709551000, (handle_object, tt)))
      (384, (7, tt))
      (5 ∷ [])
    ≡ (ok_value entry_message, 5 ∷ 7 ∷ [])
unfolding serialize_with_handles push_handle try_each le_bytes write sequence_serialize
    serialize_each tuple_serialize serialize_rev field_writes wrapper_serialize to_offset
entry_sent = refl

-- The signal takes no handle.
pub signal_sent :
    (send byte_writer list_broker blocking (tuple_object [] tt) tt (5 ∷ []) []).1 ≡ 5 ∷ []
unfolding send serialize_with_handles try_each stream_write le_bytes write sequence_serialize
    serialize_each tuple_serialize serialize_rev field_writes
signal_sent = refl

pub seven-Counted :
    OnWindows list_broker
      (message-Law handle-Law handle_object give_back false list_broker byte_writer
        18446744073709551000 4096 384 5096 entry-IsAt windows_entries refl)
      (384, (7, tt))
      (message-Valid handle-Law handle_object give_back false list_broker byte_writer
        18446744073709551000 4096 384 5096 entry-IsAt windows_entries refl 7 tt)
seven-Counted = record { no_fds = refl; handles_lem = omega arith; sockets_lem = omega arith }

crossmist_main-Ran_example :
    SignalsThenRan handle-Law handle_object give_back false list_broker byte_writer
      18446744073709551000 4096 384 5096 entry-IsAt windows_entries refl byte_reader 7 tt
      seven-Counted
      (5 ∷ [])
      []
      (crossmist_main list_broker byte_writer 4096 windows_entries byte_reader
        (λ t. t ++ 7 ∷ [])
        (ok_value tt)
        (load_init_handles some_data none)
        (frame entry_message ++ [])
        (5 ∷ [])
        [])
crossmist_main-Ran_example =
    crossmist_main-Ran handle-Law handle_object give_back false list_broker byte_writer
      18446744073709551000 4096 384 5096 entry-IsAt windows_entries refl byte_reader 7 tt
      seven-Counted some_data entry_message [] (5 ∷ []) (5 ∷ []) (5 ∷ 7 ∷ []) (λ t. t ++ 7 ∷ []) []
      (frame entry_message ++ []) entry_sent (omega arith) refl (ap (λ t. t ++ 7 ∷ []) signal_sent)

-- The process has exited with the code that is kept.
abbrev pub one_exit : ProcessCalls
one_exit = record {
  Processes = ℕ;
  wait = λ process p. (ok_value tt, p);
  exit_code = λ process p. (ok_value p, p);
  terminate = λ process p. (ok_value tt, 1);
}

-- ===== src/Lib.antt =====
-- Verification of crossmist, a library that runs functions in other processes and passes objects
-- between them. Paths are those of the repository.
--
-- The program. A value is written by its implementation of `Object` into a `Serializer`: bytes, and
-- beside them the operating-system resources that it owns. On Unix a channel sends the result as a
-- series of packets over a SOCK_SEQPACKET socket (`SingleObjectSender`), the other end puts them
-- together again (`SingleObjectReceiver`), makes a `Deserializer` of them and reads the value.
-- Around these two stand the blocking and asynchronous channels. A subprocess is the same program,
-- started again: it receives the address of a function and its arguments over such a channel, and sends
-- the result back. Addresses are sent as differences from a base address, since the program may lie
-- elsewhere in memory.
--
-- The files.
--   Common.*     lists, Boolean tests and little-endian bytes over the native numbers.
--   Serde.*      src/serde.rs: `Serializer`, `Deserializer`, the trait `Object` as a record of
--                functions. Serde.Format and Serde.Law state what an implementation of the trait
--                promises, apart from its code.
--   Owning       src/owning_ref.rs: the iterator that moves the elements of a slice out.
--   Builtins.*   src/builtins.rs and the slice part of src/unsized_builtins.rs: the implementations
--                for the standard types, one module for each macro or group. The data type `Shape`
--                of Builtins.Shape names the types that they build. Collections whose order does
--                not count stand in Builtins.Unordered, over a quotient.
--   Derive       crossmist-derive/src/lib.rs: the derived implementation for a struct.
--   Functions.*  src/fns.rs: function objects with bound values, and in Functions.Lambda the macro
--                `lambda!` on tokens. Functions.Reverse has the macro `reverse!`, on
--                expressions with their types.
--   Unix.*       src/platform/unix/internals.rs. `sendmsg` and `recvmsg` are fields of the records
--                `SendSocket` and `RecvSocket` of Unix.Socket, with the documented behaviour of
--                such sockets as their laws; Unix.Wire describes the packets of an object without
--                the code that makes or reads them.
--   Channel.*    src/asynchronous.rs, the channels, with the implementations of `blocking_write`
--                and `blocking_read` in src/blocking.rs, src/tokio.rs and src/smol.rs.
--   Start.*      src/imp.rs and src/platform/unix/entry.rs: `init` in the parent and in a child, with
--                the call of `fcntl` in the record `Descriptors`.
--   Process.*    src/asynchronous.rs, subprocesses on Unix: `join` and `kill` as functions in
--                Process, interleaved as steps of a relation in Process.Killing, the parent's side
--                of the start, `spawn` with `_spawn_child` of src/platform/unix/subprocess.rs, in
--                Process.Launching, the child's side, `handle_entry` and the closure that `spawn`
--                makes, in Process.Spawning, and all of them together in Process.Remote.
--   Relocation.* src/relocation.rs, and in Relocation.Boxed `Box<T>` and `Box<dyn Trait>` of
--                src/unsized_builtins.rs, which send addresses of vtables and functions.
--                Relocation.Static is src/static_ref.rs, with `StaticFn` of src/fns.rs.
--   Windows.*    src/platform/windows/internals.rs: messages whose handles are kept open by the
--                broker, whose part is the record `HandleBroker`; `socketpair` in Windows.Pairing,
--                and the framing of messages on a byte stream, with the code of the runtimes, in
--                Windows.Stream. Windows.Spawning is src/platform/windows/subprocess.rs: jobs, the
--                broker, the start of a child and what the child finds; Windows.Entry is
--                src/platform/windows/entry.rs and `handle_entry`, and Windows.Launching and
--                Windows.Joining `spawn`, `join` and `kill` there, together in Windows.Remote. The
--                calls of the system are records of functions with their documented behaviour, one
--                for each of them.
--   Tests.*      the code and the theorems at concrete inputs.
--
-- The state. A serializer and a deserializer are records that are passed along; the sender and the
-- receiver of an object are records too, and the kernel's part of a socket is a type `Net` of the
-- interface. A panic, an error of the kernel and undefined behaviour are results.
--
-- Numbers. A byte is a number below 256, an integer of `size` bytes a number below `256 ^ size`, and
-- `usize` has eight bytes. The machine is little-endian. Positions in buffers are natural numbers:
-- they stay below the length of a buffer, which fits `usize`. A descriptor is a number that names the
-- open file, not its index in a process; where a process opens and closes descriptors, in
-- Process.Launching, the number stands for both.
--
-- Fuel. The loop of `send_next` runs on as many rounds as there are bytes and descriptors left, and
-- one more, since each packet but the last takes one of them. The loop of `recv_next` runs on as many
-- rounds as there are packets to come, and one more. `blocking_write` and `blocking_read` retry as
-- often as they are told to; how often is enough depends on the kernel and is a hypothesis where a
-- theorem needs it (`SendPatience`, `RecvPatience`). `socketpair` on Windows tries again after each
-- connection of another process and each refusal for a full backlog or short buffers, whose number
-- is bounded by a hypothesis, and `get_own_name` doubles its buffer until the name fits: as
-- many attempts as there are of these to come, and one more, and as many as it takes to reach
-- the length of the name, are enough.
--
-- Ends of scope. `spawn` on Unix closes the ends of the channel and the descriptors of the arguments
-- as their owners are dropped. On Windows the ends and the process handle are closed; that the
-- sender closes its own handles and sockets, once they are copied into the broker, is not modelled.
--
-- Not modelled. `_spawn_child` on Windows takes the broker to be started already, and
-- `serialize_with_handles` and `deserialize_with_handles` start behind the `expect` that
-- `HANDLE_BROKER` is set: what they do without a broker, panic, is left out. Derived
-- implementations for enums, the attribute macros, the nightly variant of `Box<dyn Trait>`, the
-- runtimes behind the asynchronous streams and destructors of values that are never sent. What other
-- processes do to the broker's handles between the signal of a child and its message is a function
-- that `crossmist_main` takes.
pub mod Common
pub mod Serde
pub mod Owning
pub mod Builtins
pub mod Derive
pub mod Functions
pub mod Unix
pub mod Channel
pub mod Relocation
pub mod Windows
pub mod Start
pub mod Process
pub mod Tests

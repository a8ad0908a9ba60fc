-- ===== src/Builtins/Resource.antt =====
-- src/builtins.rs, `OwnedFd`, `OwnedHandle`, `OwnedSocket`, `File`, `UnixStream` and `TcpStream`: the
-- resource goes beside the bytes, not into them.
--
-- A resource is a number that names the open file, whatever its number in a process.
use crossmist.Common.{ℕ, ◌≡◌, refl, List, [], ◌∷◌, ◌++◌, append-nil}
use crossmist.Serde.{
  Serializer, Object, Reader, ok, panicked, mismatched_fd, mismatched_handle, mismatched_socket,
  new, serialize_each,
}
use crossmist.Serde.Format.{Format}
use crossmist.Serde.Law.{Law}
use crossmist.Builtins.Wrapper.{wrapper_object, wrapper_format, wrapper-Law}

-- `s.fds.push(self)`
unfoldable pub push_fd : ℕ → Serializer → Serializer
push_fd fd s = record s { fds = s.fds ++ fd ∷ [] }

unfoldable pub next_fd : List ℕ → Reader ℕ
next_fd [] d = panicked mismatched_fd
next_fd (fd ∷ fds) d = ok (fd, record d { fds = fds })

abbrev pub fd_object : Object ℕ
fd_object = record {
  serialize_self = push_fd;
  serialize_slice = serialize_each push_fd;
  deserialize_self = λ d. next_fd d.fds d;
}

unfoldable pub push_handle : ℕ → Serializer → Serializer
push_handle handle s = record s { handles = s.handles ++ handle ∷ [] }

unfoldable pub next_handle : List ℕ → Reader ℕ
next_handle [] d = panicked mismatched_handle
next_handle (handle ∷ handles) d = ok (handle, record d { handles = handles })

abbrev pub handle_object : Object ℕ
handle_object = record {
  serialize_self = push_handle;
  serialize_slice = serialize_each push_handle;
  deserialize_self = λ d. next_handle d.handles d;
}

unfoldable pub push_socket : ℕ → Serializer → Serializer
push_socket socket s = record s { sockets = s.sockets ++ socket ∷ [] }

unfoldable pub next_socket : List ℕ → Reader ℕ
next_socket [] d = panicked mismatched_socket
next_socket (socket ∷ sockets) d = ok (socket, record d { sockets = sockets })

abbrev pub socket_object : Object ℕ
socket_object = record {
  serialize_self = push_socket;
  serialize_slice = serialize_each push_socket;
  deserialize_self = λ d. next_socket d.sockets d;
}

-- `#[cfg(unix)]` or `#[cfg(windows)]`
pub data Platform : Type 0 where
  unix windows : Platform

-- The resource that a `File` is, and the one that a `TcpStream` is.
abbrev file_resource : Platform → Object ℕ
file_resource unix = fd_object
file_resource windows = handle_object

abbrev tcp_resource : Platform → Object ℕ
tcp_resource unix = fd_object
tcp_resource windows = socket_object

abbrev pub file_object : Platform → Object ℕ
file_object platform = wrapper_object (λ file. file) ok (file_resource platform)

abbrev pub unix_stream_object : Object ℕ
unix_stream_object = wrapper_object (λ stream. stream) ok fd_object

abbrev pub tcp_stream_object : Platform → Object ℕ
tcp_stream_object platform = wrapper_object (λ stream. stream) ok (tcp_resource platform)

abbrev pub fd_format : Format ℕ
fd_format = record {
  Valid = λ _. Unit;
  encode = λ fd. record new { fds = fd ∷ [] };
  carry = λ fd. fd;
}

abbrev pub handle_format : Format ℕ
handle_format = record {
  Valid = λ _. Unit;
  encode = λ handle. record new { handles = handle ∷ [] };
  carry = λ handle. handle;
}

abbrev pub socket_format : Format ℕ
socket_format = record {
  Valid = λ _. Unit;
  encode = λ socket. record new { sockets = socket ∷ [] };
  carry = λ socket. socket;
}

pub fd-Law : Law fd_object fd_object fd_format
unfolding push_fd next_fd
fd-Law = record {
  writes = λ fd. record { to = λ s. simp append-nil };
  slices = λ xs s. refl;
  reads = λ fd h. record { off = λ seen rest. simp append-nil };
}

pub handle-Law : Law handle_object handle_object handle_format
unfolding push_handle next_handle
handle-Law = record {
  writes = λ handle. record { to = λ s. simp append-nil };
  slices = λ xs s. refl;
  reads = λ handle h. record { off = λ seen rest. simp append-nil };
}

pub socket-Law : Law socket_object socket_object socket_format
unfolding push_socket next_socket
socket-Law = record {
  writes = λ socket. record { to = λ s. simp append-nil };
  slices = λ xs s. refl;
  reads = λ socket h. record { off = λ seen rest. simp append-nil };
}

abbrev file_resource_format : Platform → Format ℕ
file_resource_format unix = fd_format
file_resource_format windows = handle_format

abbrev tcp_resource_format : Platform → Format ℕ
tcp_resource_format unix = fd_format
tcp_resource_format windows = socket_format

file_resource-Law :
    (platform : Platform)
    → Law (file_resource platform) (file_resource platform) (file_resource_format platform)
file_resource-Law unix = fd-Law
file_resource-Law windows = handle-Law

tcp_resource-Law :
    (platform : Platform)
    → Law (tcp_resource platform) (tcp_resource platform) (tcp_resource_format platform)
tcp_resource-Law unix = fd-Law
tcp_resource-Law windows = socket-Law

abbrev same : ℕ → ℕ
same resource = resource

abbrev Always : ℕ → Type 0
Always _ = Unit

abbrev pub file_format : Platform → Format ℕ
file_format platform = wrapper_format same same Always (file_resource_format platform)

abbrev pub tcp_stream_format : Platform → Format ℕ
tcp_stream_format platform = wrapper_format same same Always (tcp_resource_format platform)

file_inverse : (platform : Platform) (v : ℕ) → ok ((file_resource_format platform).carry v) ≡ ok v
file_inverse unix v = refl
file_inverse windows v = refl

tcp_inverse : (platform : Platform) (v : ℕ) → ok ((tcp_resource_format platform).carry v) ≡ ok v
tcp_inverse unix v = refl
tcp_inverse windows v = refl

pub file-Law :
    (platform : Platform) → Law (file_object platform) (file_object platform) (file_format platform)
file-Law platform =
    wrapper-Law same ok same Always (file_resource-Law platform) λ v _. file_inverse platform v

pub tcp_stream-Law :
    (platform : Platform)
    → Law (tcp_stream_object platform) (tcp_stream_object platform) (tcp_stream_format platform)
tcp_stream-Law platform =
    wrapper-Law same ok same Always (tcp_resource-Law platform) λ v _. tcp_inverse platform v

pub unix_stream-Law :
    Law unix_stream_object unix_stream_object (wrapper_format same same Always fd_format)
unix_stream-Law = wrapper-Law same ok same Always fd-Law λ v _. refl

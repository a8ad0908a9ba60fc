-- ===== src/Channel/Patience.antt =====
-- A kernel that does not refuse forever: what `blocking_write` and `blocking_read` of
-- src/asynchronous.rs rely on to come to an end.
pub mod Sending
pub mod Receiving
use crossmist.Common.{ℕ, ◌≤◌, ◌<◌, ◌≡◌, Bool, true, refl, List}
use crossmist.Builtins.Sum.{Result, ok_value, err_value}
use crossmist.Unix.Socket.{
  Error, would_block, os_error, unexpected_cmsg, unterminated_data, unexpected_eof, not_returned,
  exit_failure, already_joined, invalid_filename, connection_reset, Message, SendSocket, RecvSocket,
}
use crossmist.Channel.{Io, io_err, is_would_block}

-- `patience` bounds how often the calls on this socket would still block.
pub record SendPatience (socket : SendSocket) : Type 0 where
  pub patience : socket.Net → ℕ
  pub refuses :
      (content rights : List ℕ) (dontwait : Bool) (net net' : socket.Net)
      → socket.sendmsg content rights dontwait net ≡ (err_value would_block, net')
      → patience net' < patience net
  pub keeps :
      (content rights : List ℕ) (dontwait : Bool) (net net' : socket.Net) (answer : Result ℕ Error)
      → socket.sendmsg content rights dontwait net ≡ (answer, net')
      → patience net' ≤ patience net

pub record RecvPatience (socket : RecvSocket) : Type 0 where
  pub patience : socket.Net → ℕ
  pub refuses :
      (capacity : ℕ) (dontwait : Bool) (net net' : socket.Net)
      → socket.recvmsg capacity dontwait net ≡ (err_value would_block, net')
      → patience net' < patience net
  pub keeps :
      (capacity : ℕ) (dontwait : Bool) (net net' : socket.Net) (answer : Result Message Error)
      → socket.recvmsg capacity dontwait net ≡ (answer, net')
      → patience net' ≤ patience net

pub would_block-of :
    (T : Type 0) (x : Error) → is_would_block {T = T} (io_err x) ≡ true → x ≡ would_block
unfolding is_would_block
would_block-of T would_block h = refl
would_block-of T (os_error n) h = cc
would_block-of T unexpected_cmsg h = cc
would_block-of T unterminated_data h = cc
would_block-of T unexpected_eof h = cc
would_block-of T not_returned h = cc
would_block-of T exit_failure h = cc
would_block-of T already_joined h = cc
would_block-of T invalid_filename h = cc
would_block-of T connection_reset h = cc

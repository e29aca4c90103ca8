-- ===== src/Client/Errors.antt =====
-- client.rs and client/read.rs: the errors of reading and of connecting. `E` stands for io::Error,
-- `D` for InvalidDnsNameError and `T` for TlsConfigError. `OpenStreamError` has one case, an
-- io::Error.
use tmi_rs.Prelude.{Bool, true, false}
use tmi_rs.Str.{Str}
use tmi_rs.Irc.Message.{IrcMessage}

-- What the library asks of io::ErrorKind.
pub data ErrorKind : Type 0 where
  unexpected_eof connection_aborted timed_out other_kind : ErrorKind

pub data RecvError (E : Type 0) : Type 0 where
  io : E → RecvError E
  parse : Str → RecvError E
  stream_closed : RecvError E

-- The guard of the second arm of `is_disconnect`.
is_lost : ErrorKind → Bool
is_lost other_kind = false
is_lost _ = true

-- `RecvError::is_disconnect`
unfoldable pub is_disconnect : {E : Type 0} → (E → ErrorKind) → RecvError E → Bool
unfolding is_lost
is_disconnect kind stream_closed = true
is_disconnect kind (io e) = is_lost (kind e)
is_disconnect kind (parse s) = false

pub data ConnectError (E D T : Type 0) : Type 0 where
  read : RecvError E → ConnectError E D T
  io : E → ConnectError E D T
  dns : D → ConnectError E D T
  tls : T → ConnectError E D T
  open_stream : E → ConnectError E D T
  timeout auth : ConnectError E D T
  welcome notice : IrcMessage → ConnectError E D T

-- `ConnectError::should_retry`
unfoldable pub should_retry : {E D T : Type 0} → ConnectError E D T → Bool
should_retry (open_stream e) = true
should_retry (ConnectError.io e) = true
should_retry _ = false

-- What an awaited call gives: a value, an error, or nothing in time. Both timeouts of a handshake,
-- around it and around a read in it, become `ConnectError::Timeout`.
pub data Awaited (E A : Type 0) : Type 0 where
  value : A → Awaited E A
  error : E → Awaited E A
  elapsed : Awaited E A

-- `Result<(), ConnectError>`
pub data Connected (E D T : Type 0) : Type 0 where
  ok : Connected E D T
  failed : ConnectError E D T → Connected E D T

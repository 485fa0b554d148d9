-- ===== src/Fd.antt =====
-- Descriptors: php8/php_eio.c, `php_eio_zval_to_fd`. The streams and sockets of PHP are parameters.
pub mod Laws
mod Tests
use pecl_eio.Base.{ℕ, Bool, true, false, not, ◌&&◌, Option, none, some, ◌==◌, if◌then◌else◌}
use pecl_eio.Base.Int.{ℤ, pos, negsuc, is_neg, to_int32}
use pecl_eio.Zend.{
  Zval, undef, null, long, string, object, resource, Exception, memory_stream, stream_invalid,
  not_a_stream, invalid_fd,
}

-- PHP_STREAM_AS_FD_FOR_SELECT, PHP_STREAM_AS_FD and PHP_STREAM_AS_STDIO
pub data As : Type 0 where
  for_select as_fd as_stdio : As

-- `in_memory` is `php_stream_is` of MEMORY or TEMP, `verified` that `php_stream_from_zval_no_verify`
-- finds the stream; `can_cast` and `cast` are `php_stream_can_cast` and `php_stream_cast`.
pub record Stream : Type 0 where
  pub in_memory : Bool
  pub verified : Bool
  pub can_cast : As → Bool
  pub cast : As → Option ℤ

pub record Socket : Type 0 where
  pub error : ℕ
  pub blocking : Bool
  pub bsd_socket : ℤ

-- `lval` is the word that a resource's value holds, read as an integer.
pub record FdEnv : Type 0 where
  pub stream_of : ℕ → Option Stream
  pub socket_of : ℕ → Option Socket
  pub einprogress : ℕ
  pub lval : ℕ → ℤ

abbrev pub minus_one : ℤ
minus_one = negsuc 0

-- A descriptor, and the exception that was thrown.
abbrev pub Fd : Type 0
Fd = ℤ × Option Exception

-- `php_stream_cast(…) != SUCCESS || file_desc < 0`
abbrev pub cast_to : Option ℤ → Fd
cast_to none = (minus_one, none)
cast_to (some z) = if is_neg (to_int32 z) then (minus_one, none) else (to_int32 z, none)

unfoldable pub stream_to_fd : FdEnv → ℕ → Stream → Fd
stream_to_fd env id st =
    if st.in_memory
    then (minus_one, some memory_stream)
    else if not st.verified
    then (minus_one, some stream_invalid)
    else if st.can_cast for_select
    then cast_to (st.cast for_select)
    else if st.can_cast as_fd
    then cast_to (st.cast as_fd)
    else if st.can_cast as_stdio
    then cast_to (st.cast as_stdio)
    else (to_int32 (env.lval id), none)

unfoldable pub socket_to_fd : FdEnv → Socket → Fd
socket_to_fd env sock =
    if sock.error == 0
    then (sock.bsd_socket, none)
    else if not sock.blocking && sock.error == env.einprogress
    then (sock.bsd_socket, none)
    else (minus_one, none)

-- `php_eio_zval_to_fd`, built with EIO_USE_SOCKETS
unfoldable pub zval_to_fd : FdEnv → Zval → Fd
unfolding stream_to_fd socket_to_fd
zval_to_fd env (resource at id) = elim (env.stream_of id) [
  | none ↦ (minus_one, some not_a_stream)
  | some st ↦ stream_to_fd env id st
]
zval_to_fd env (object i) = elim (env.socket_of i) [
  | none ↦ (minus_one, some invalid_fd)
  | some sock ↦ socket_to_fd env sock
]
zval_to_fd env (long z) =
    if is_neg (to_int32 z) then (minus_one, some invalid_fd) else (to_int32 z, none)
zval_to_fd env _ = (minus_one, some invalid_fd)

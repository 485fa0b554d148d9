-- ===== src/Config.antt =====
-- The limits and counters of libeio that PHP code sets and reads: php8/php_eio.c,
-- `eio_set_max_poll_time` and the functions of EIO_SET_INT_FUNCTION and EIO_GET_INT_FUNCTION.
use pecl_eio.Base.{ℕ, Option}
use pecl_eio.Process.{Process}
use pecl_eio.Base.Int.{ℤ, pos, to_uint}

-- What libeio was asked to keep to. The time is a `double`, given by its bits.
pub record Config : Type 0 where
  pub max_poll_time : ℕ
  pub max_poll_reqs : ℕ
  pub min_parallel : ℕ
  pub max_parallel : ℕ
  pub max_idle : ℕ

unfoldable pub eio_set_max_poll_time : ℕ → Config → Config
eio_set_max_poll_time seconds c = record c { max_poll_time = seconds }

-- `eio_func((unsigned int)num)`
unfoldable pub eio_set_max_poll_reqs : ℤ → Config → Config
eio_set_max_poll_reqs num c = record c { max_poll_reqs = to_uint 32 num }

unfoldable pub eio_set_min_parallel : ℤ → Config → Config
eio_set_min_parallel num c = record c { min_parallel = to_uint 32 num }

unfoldable pub eio_set_max_parallel : ℤ → Config → Config
eio_set_max_parallel num c = record c { max_parallel = to_uint 32 num }

unfoldable pub eio_set_max_idle : ℤ → Config → Config
eio_set_max_idle num c = record c { max_idle = to_uint 32 num }

-- The counters of libeio, `unsigned int` each.
pub record Counters : Type 0 where
  pub nthreads : ℕ
  pub nreqs : ℕ
  pub nready : ℕ
  pub npending : ℕ

-- `RETURN_LONG(eio_func())`
unfoldable pub eio_nthreads : Counters → ℤ
eio_nthreads c = pos c.nthreads

unfoldable pub eio_nreqs : Counters → ℤ
eio_nreqs c = pos c.nreqs

unfoldable pub eio_nready : Counters → ℤ
eio_nready c = pos c.nready

unfoldable pub eio_npending : Counters → ℤ
eio_npending c = pos c.npending

-- `eio_get_event_stream`: the stream of PHP on the first end of the pipe, or NULL. `from_fd` is
-- `php_stream_fopen_from_fd`.
unfoldable pub eio_get_event_stream : (Option ℕ → Option ℕ) → Process → Option ℕ
eio_get_event_stream from_fd p = from_fd p.fd0

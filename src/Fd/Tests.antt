-- ===== src/Fd/Tests.antt =====
-- A closed stream, and numbers that are and are not descriptors.
use pecl_eio.Base.{◌+◌, ◌*◌, ◌^◌, ◌≡◌, refl, true, false, none, some, arith, is_some}
use pecl_eio.Base.Int.{pos}
use pecl_eio.Zend.{long, resource}
use pecl_eio.Fd.{FdEnv, Stream, zval_to_fd, stream_to_fd}
use pecl_eio.Fd.Laws.{zval_to_fd-long, zval_to_fd-alias}

abbrev memory : Stream
memory = record { in_memory = true; verified = true; can_cast = λ a. false; cast = λ a. none }

abbrev env : FdEnv
env = record {
  stream_of = λ id. some memory;
  socket_of = λ i. none;
  einprogress = 115;
  lval = λ id. pos id;
}

memory_thrown : is_some (zval_to_fd env (resource 60 5)).1 ≡ true
unfolding zval_to_fd stream_to_fd
memory_thrown = refl

zval_to_fd-long_example : zval_to_fd env (long (pos 2)) ≡ (pos 2, none)
zval_to_fd-long_example = zval_to_fd-long env 2 (omega arith)

zval_to_fd-alias_example : zval_to_fd env (long (pos (1 + 3 * 2 ^ 32))) ≡ (pos 1, none)
zval_to_fd-alias_example = zval_to_fd-alias env 1 3 (omega arith)

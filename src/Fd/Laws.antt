-- ===== src/Fd/Laws.antt =====
-- What `php_eio_zval_to_fd` promises.
use pecl_eio.Base.{ℕ, ◌+◌, ◌*◌, ◌<◌, ◌^◌, ◌≡◌, refl, true, none, arith, is_some}
use pecl_eio.Base.Int.{pos, to_int32-pos, to_int32-alias}
use pecl_eio.Zend.{Zval, long, object, resource}
use pecl_eio.Fd.{FdEnv, minus_one, zval_to_fd}

-- Whatever value is converted to a descriptor, where an exception is thrown the descriptor is -1.
pub zval_to_fd-thrown :
    (env : FdEnv) (z : Zval)
    → is_some (zval_to_fd env z).1 ≡ true
    → (zval_to_fd env z).0 ≡ minus_one
unfolding zval_to_fd
zval_to_fd-thrown env (resource at id) h = ground arith
zval_to_fd-thrown env (object i) h = ground arith
zval_to_fd-thrown env (long z) h = ground arith
zval_to_fd-thrown env _ h = refl

-- A number below 2^31 is the descriptor of that number.
pub zval_to_fd-long :
    (env : FdEnv) (n : ℕ) → n < 2 ^ 31 → zval_to_fd env (long (pos n)) ≡ (pos n, none)
unfolding zval_to_fd
zval_to_fd-long env n h = rw (to_int32-pos n h) refl

-- A number that is a multiple of 2^32 above a number below 2^31 is taken for the descriptor of the
-- lower number, without an exception.
pub zval_to_fd-alias :
    (env : FdEnv) (n k : ℕ)
    → n < 2 ^ 31
    → zval_to_fd env (long (pos (n + k * 2 ^ 32))) ≡ (pos n, none)
unfolding zval_to_fd
zval_to_fd-alias env n k h = rw (to_int32-alias n k, to_int32-pos n h) refl

-- ===== src/Custom.antt =====
-- Custom requests, which run PHP code: php8/php_eio.c, `php_eio_custom_execute` and
-- `php_eio_res_cb_custom`, as built without ZTS and with ZEND_CHECK_STACK_LIMIT. The PHP code of
-- both callbacks is a parameter. `none` is the use of freed memory.
pub mod Release
pub mod Execution
pub mod Completion
pub mod Life
pub mod Whole
mod Tests
mod WholeTests
use pecl_eio.Base.{
  ℕ, Bool, true, false, not, ◌&&◌, Option, none, some, if◌then◌else◌, ◌>>=◌, write as write_at,
}
use pecl_eio.Base.Int.{ℤ, pos, negsuc}
use pecl_eio.Request.{EioReq}
use pecl_eio.Zend.{Zval, null, EioCbCustom, cb_custom, Block, zval, Php, add_ref, ptr_dtor, efree}
use pecl_eio.Callbacks.{as_cb_custom, free_eio_cb_custom}
use pecl_eio.Handles.{register_resource}
use pecl_eio.Handles.Resources
use pecl_eio.World.{World, Env, with_php, with_store}
use pecl_eio.Results.{data_param, drop_req}
use pecl_eio.Api.Control.{is_locked}

-- EG(stack_limit) and EG(stack_base)
pub record Stack : Type 0 where
  pub limit : ℕ
  pub base : ℕ

-- A call of the callback `execute`, and the value that it returns; `none` where it throws.
pub record ExecArgs : Type 0 where
  pub func : ℕ
  pub obj : Zval
  pub data_arg : Zval

abbrev pub Exec : Type 0
Exec = ExecArgs → World → Option (Option Zval × World)

-- A call of the callback with `$data`, `$result` and `$req`; it says whether it kept `$req`.
pub record CustomArgs : Type 0 where
  pub func : ℕ
  pub obj : Zval
  pub data_arg : Zval
  pub result : Zval
  pub req : ℕ

abbrev pub CustomUser : Type 0
CustomUser = CustomArgs → World → Option (Bool × World)

-- EIO_BUF_ZVAL_P(req), where it is not NULL
abbrev pub as_zval : Option Block → Option Zval
as_zval (some (zval z)) = some z
as_zval _ = none

abbrev pub with_req_at : ℕ → EioReq → World → World
with_req_at r q w = let s = w.store in with_store w (record s { reqs = write_at s.reqs r (some q) })

-- `eio_cb->locked = 1; EIO_RESULT(req) = -1;`
unfoldable pub lock : ℕ → EioReq → ℕ → EioCbCustom → World → World
lock r q a c w =
    let p = w.php in
    let locked = record p {
      blocks = write_at p.blocks a (some (cb_custom (record c { locked = true })));
    } in
    with_req_at r (record q { result = negsuc 0 }) (with_php w locked)

-- `if (!Z_ISUNDEF(retval))`: the value moves into a new block, which the request keeps.
unfoldable pub store_result : Env → ℕ → Option Zval → World → Option World
store_result env r none w = some w
store_result env r (some z) w = do
  q ← w.store.reqs r
  let p = w.php
  let b = env.buf_address p
  let stored = record p { blocks = write_at p.blocks b (some (zval z)) }
  some (with_req_at r (record q { buf = some b; result = pos 0 }) (with_php w stored))

module _ (env : Env) (exec : Exec) where
  -- `if (EXPECTED(pf->func_ptr))` of `php_eio_custom_execute`
  unfoldable pub run_exec : ℕ → EioCbCustom → World → Option World
  unfolding store_result
  run_exec r c w = elim c.func_exec.func_ptr [
    | none ↦ some w
    | some f ↦ (do
      let arg = data_param c.arg
      let args : ExecArgs = record { func = f; obj = c.func_exec.obj; data_arg = arg }
      (ret, w) ← exec args (with_php w (add_ref arg w.php))
      w ← store_result env r ret w
      p ← ptr_dtor arg w.php
      some (with_php w p))
  ]

  -- `php_eio_custom_execute`: `own` are the bounds of the thread's stack, and `stack` those that
  -- were set before.
  unfoldable pub custom_execute : Stack → ℕ → Stack × World → Option (Stack × World)
  unfolding run_exec lock
  custom_execute own r (stack, w) = do
    q ← w.store.reqs r
    elim q.cb_data [
      | none ↦ some (own, w)
      | some a ↦
          if q.cancelled
          then (free_eio_cb_custom (some a) w.php >>= λ p. some (own, with_php w p))
          else (do
            c ← as_cb_custom (w.php.blocks a)
            w ← run_exec r c (lock r q a c w)
            some (stack, w))
    ]

-- The parameter `$result`: the value itself, without a reference of its own.
unfoldable pub result_param : Option ℕ → Php → Option Zval
result_param none p = some null
result_param (some b) p = as_zval (p.blocks b)

-- `zval_ptr_dtor_nogc(EIO_BUF_ZVAL_P(req)); efree(EIO_BUF_ZVAL_P(req));`
unfoldable pub release_result : Option ℕ → Php → Option Php
release_result none p = some p
release_result (some b) p = do z ← as_zval (p.blocks b); p ← ptr_dtor z p; efree b p

module _ (env : Env) (user : CustomUser) where
  -- `if (EXPECTED(pf->func_ptr))` of `php_eio_res_cb_custom`
  unfoldable pub call_custom : ℕ → EioReq → EioCbCustom → World → Option World
  unfolding result_param
  call_custom r q c w = elim c.func.func_ptr [
    | none ↦ some w
    | some f ↦ (do
      let arg = data_param c.arg
      let w = with_php w (add_ref arg w.php)
      value ← result_param q.buf w.php
      (id, s) ← register_resource r Resources.Kind.req (env.handle_address w.store.handles) w.store
      let args : CustomArgs = record {
        func = f;
        obj = c.func.obj;
        data_arg = arg;
        result = value;
        req = id;
      }
      (kept, w) ← user args (with_store w s)
      p ← ptr_dtor arg w.php >>= ptr_dtor value
      s ← drop_req kept id w.store
      some (with_php (with_store w s) p))
  ]

  -- The rest of `php_eio_res_cb_custom`, for a callback object that is there.
  unfoldable pub complete_custom : ℕ → EioReq → ℕ → World → Option World
  unfolding call_custom release_result
  complete_custom r q a w = do
    c ← as_cb_custom (w.php.blocks a)
    w ← call_custom r q c w
    q ← w.store.reqs r
    p ← release_result q.buf w.php >>= free_eio_cb_custom (some a)
    some (with_php w p)

  -- `php_eio_free_eio_cb_custom(eio_cb); return 0;`
  abbrev pub free_custom : Option ℕ → World → Option World
  free_custom cb_data w = free_eio_cb_custom cb_data w.php >>= λ p. some (with_php w p)

  -- `php_eio_res_cb_custom`
  unfoldable pub res_cb_custom : ℕ → World → Option World
  unfolding complete_custom
  res_cb_custom r w = do
    q ← w.store.reqs r
    locked ← is_locked q.cb_data w.php
    if not locked && q.cancelled
        then free_custom q.cb_data w
        else elim q.cb_data [ none ↦ some w | some a ↦ complete_custom r q a w ]

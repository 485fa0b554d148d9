-- ===== src/Api/Control.antt =====
-- The functions on requests and groups that exist already, and the counters of libeio.
pub mod Cancelling
use pecl_eio.Base.{
  ℕ, Bool, true, false, Option, none, some, if◌then◌else◌, ◌>>=◌, write as write_at,
}
use pecl_eio.Base.Int.{ℤ, pos, negsuc, to_int32, to_uint}
use pecl_eio.Request.{EioReq, ReqType, Reqs}
use pecl_eio.Request
use pecl_eio.Zend.{Php, throw, wrong_resource}
use pecl_eio.Callbacks.{free_eio_cb, free_eio_cb_custom, as_cb_custom}
use pecl_eio.Handles.{Store, fetch_req, wrong_type}
use pecl_eio.Handles.Resources.{Kind}
use pecl_eio.Handles.Resources
use pecl_eio.World.{
  World, Env, Ret, Function, false_value, null_value, text, give, initialized, with_php,
}
use pecl_eio.Api.Paths.{start}

abbrev pub is_custom : ReqType → Bool
is_custom Request.ReqType.custom = true
is_custom _ = false

-- `EIO_CB_CUSTOM_IS_LOCKED`
unfoldable pub is_locked : Option ℕ → Php → Option Bool
is_locked none p = some false
is_locked (some a) p = do c ← as_cb_custom (p.blocks a); some c.locked

abbrev pub with_reqs : World → Reqs → World
with_reqs w m = let s = w.store in record w { store = record s { reqs = m } }

-- What is thrown where `php_eio_fetch_req` gives NULL: nothing if the resource has the right type.
abbrev pub unfetched : ℕ → Kind → World → World
unfetched id kind w =
    if wrong_type id kind w.store then with_php w (throw wrong_resource w.php) else w

-- `php_eio_fetch_req`, and an early return where it gives NULL.
unfoldable pub with_req : ℕ → Kind → Ret → (ℕ → Function) → Function
with_req id kind ret k w = do
  o ← fetch_req id kind w.store
  elim o [ none ↦ give ret (unfetched id kind w) | some r ↦ k r w ]

module _ (env : Env) where
  -- `eio_cancel(req); free(req->data); req->data = NULL;`
  unfoldable pub cancel_with : (Option ℕ → Php → Option Php) → ℕ → Function
  cancel_with free r w = do
    let m = env.cancel r w.store.reqs
    q ← m r
    p ← free q.cb_data w.php
    let done = write_at m r (some (record q { cb_data = none }))
    give null_value (record (with_reqs w done) { php = p })

  unfoldable pub cancel_custom : ℕ → EioReq → Function
  cancel_custom r q w = do
    locked ← is_locked q.cb_data w.php
    if locked then give null_value w else cancel_with free_eio_cb_custom r w

  unfoldable pub cancel_req : ℕ → Function
  cancel_req r w = do
    q ← w.store.reqs r
    if is_custom q.type then cancel_custom r q w else cancel_with free_eio_cb r w

  unfoldable pub eio_cancel : ℕ → Function
  unfolding with_req
  eio_cancel id = with_req id Resources.Kind.req null_value cancel_req

  unfoldable pub eio_get_last_error : ℕ → Function
  unfolding with_req
  eio_get_last_error id =
      with_req id Resources.Kind.req false_value
        λ r w. (do q ← w.store.reqs r; give (text (env.strerror q.errorno)) w)

  -- `grp->result = z`
  unfoldable pub set_result : ℕ → ℤ → World → Option World
  set_result r z w = do
    q ← w.store.reqs r
    some (with_reqs w (write_at w.store.reqs r (some (record q { result = z }))))

  unfoldable pub eio_grp_add : ℕ → ℕ → Function
  unfolding with_req set_result
  eio_grp_add zgrp zreq = start env (
      with_req zgrp Resources.Kind.grp null_value λ g.
        with_req zreq Resources.Kind.req null_value λ r w. (do
          w' ← set_result g (pos 0) w
          give null_value (with_reqs w' (env.grp_add g r w'.store.reqs))))

  unfoldable pub eio_grp_limit : ℕ → ℤ → Function
  unfolding with_req
  eio_grp_limit zgrp limit = start env (
      with_req zgrp Resources.Kind.grp null_value
        λ g w. give null_value (with_reqs w (env.grp_limit g (to_int32 limit) w.store.reqs)))

  unfoldable pub eio_grp_cancel : ℕ → Function
  unfolding with_req set_result
  eio_grp_cancel zgrp = start env (
      with_req zgrp Resources.Kind.grp null_value λ g w. (do
        w' ← set_result g (negsuc 0) w
        give null_value (with_reqs w' (env.grp_cancel g w'.store.reqs))))

-- ===== src/Api/Special.antt =====
-- The functions with neither a path nor a descriptor, and `eio_custom` and `eio_grp`.
use pecl_eio.Base.{Option, none, ◌>>=◌}
use pecl_eio.Base.Int.{ℤ, pos}
use pecl_eio.Zend.{Zval}
use pecl_eio.Callbacks.{new_eio_cb, new_eio_cb_custom}
use pecl_eio.Handles.Resources
use pecl_eio.World.{
  sync, nop, custom, group, busy, Env, Function, send, ret_resource, request, with_php,
}
use pecl_eio.Api.Paths.{start}

module _ (env : Env) where
  unfoldable pub eio_sync : ℤ → Option Zval → Option Zval → Function
  eio_sync pri zcb arg = start env (request env sync pri zcb arg)

  unfoldable pub eio_custom : Option Zval → ℤ → Option Zval → Option Zval → Function
  eio_custom zcb_exec pri zcb arg = start env λ w. (do
    (c, p) ← new_eio_cb_custom env.is_callable (env.cb_address w.php) zcb zcb_exec arg w.php
    ret_resource env Resources.Kind.req (send env custom pri c none (with_php w p)))

  unfoldable pub eio_busy : ℤ → ℤ → Option Zval → Option Zval → Function
  eio_busy delay pri zcb arg = start env (request env (busy delay) pri zcb arg)

  unfoldable pub eio_nop : ℤ → Option Zval → Option Zval → Function
  eio_nop pri zcb arg = start env (request env nop pri zcb arg)

  -- `eio_grp` gives a resource of the other kind, and no priority.
  unfoldable pub eio_grp : Option Zval → Option Zval → Function
  eio_grp zcb arg = start env λ w.
      let (c, p) = new_eio_cb env.is_callable (env.cb_address w.php) zcb arg w.php in
      ret_resource env Resources.Kind.grp (send env group (pos 0) c none (with_php w p))

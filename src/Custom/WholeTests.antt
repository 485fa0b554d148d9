-- ===== src/Custom/WholeTests.antt =====
-- A custom request from its making to its end.
use pecl_eio.Base.{◌≡◌, refl, true, none, some, arith, ◌>>=◌}
use pecl_eio.Base.Int.{pos}
use pecl_eio.Base.Returns.{Returns, result}
use pecl_eio.Request.{EioReq, Reqs}
use pecl_eio.Request
use pecl_eio.Zend.{add_ref, object, long, EioCbCustom, cb_custom, Php}
use pecl_eio.Callbacks.{
  copy_arg, import_object, import_closure, as_cb_custom, new_eio_cb_custom, import_second,
  store_cb_custom, import_func_info,
}
use pecl_eio.Handles.{target, register_resource, handle_ref, retain, new_handle}
use pecl_eio.Handles.Table.{find}
use pecl_eio.Handles.Resources.{lookup}
use pecl_eio.Process.{is_init}
use pecl_eio.World.{World, type_of, resource_id, send, ret_resource, bails}
use pecl_eio.World.Submission.{IsReady}
use pecl_eio.Api.Running.{Api, run}
use pecl_eio.Api.Safety.{run-Safe}
use pecl_eio.Api.Special.{eio_custom}
use pecl_eio.Results.Finishing.{destroyed}
use pecl_eio.Results.Life.{Ran, Over, after_run}
use pecl_eio.Custom.{custom_execute, res_cb_custom}
use pecl_eio.Custom.Whole.{custom_whole-Over}
use pecl_eio.Custom.Tests.{custom_cb, five, keeper, own, main_stack}
use pecl_eio.Examples.{
  env, env-IsEnv, env-Frees, world, world-IsReady, empty, no_fatal, live_request,
}

-- `eio_custom($execute, EIO_PRI_DEFAULT, $closure, $data)`
abbrev asked : World
asked = elim (eio_custom env (some (object 2)) (pos 0) (some (object 3)) (some (object 4)) world) [
  | none ↦ world
  | some (ret, w) ↦ w
]

abbrev made_php : Php
made_php =
    elim (new_eio_cb_custom env.is_callable (some 100) (some (object 3)) (some (object 2))
      (some (object 4)) empty) [ none ↦ empty | some (c, p) ↦ p ]

made_lem :
    new_eio_cb_custom env.is_callable
      (env.cb_address empty)
      (some (object 3))
      (some (object 2))
      (some (object 4))
      empty
    ≡ some (some 100, made_php)
unfolding new_eio_cb_custom import_second store_cb_custom import_func_info
made_lem = refl

asked_lem :
    eio_custom env (some (object 2)) (pos 0) (some (object 3)) (some (object 4)) world
    ≡ some (resource_id 0, asked)
unfolding eio_custom bails is_init send ret_resource register_resource handle_ref retain new_handle
    find new_eio_cb_custom import_second store_cb_custom import_func_info
asked_lem = refl

abbrev made_cb : EioCbCustom
made_cb = elim (as_cb_custom (made_php.blocks 100)) [ none ↦ custom_cb | some c ↦ c ]

made_at : made_php.blocks 100 ≡ some (cb_custom made_cb)
unfolding new_eio_cb_custom import_second store_cb_custom import_func_info
made_at = refl

unused : made_php.blocks 200 ≡ none
unfolding new_eio_cb_custom import_second store_cb_custom import_func_info copy_arg add_ref
    import_object import_closure
unused = refl

has_exec : made_cb.func_exec.func_ptr ≡ some 2
unfolding new_eio_cb_custom import_second store_cb_custom import_func_info
has_exec = refl

has_func : made_cb.func.func_ptr ≡ some 3
unfolding new_eio_cb_custom import_second store_cb_custom import_func_info
has_func = refl

asked_target : target asked.store 0 ≡ some 7
unfolding eio_custom bails is_init send ret_resource register_resource handle_ref retain new_handle
    find new_eio_cb_custom import_second store_cb_custom import_func_info lookup
asked_target = refl

asked_Ran : Ran asked.store.reqs asked.store.reqs
asked_Ran = record {
  hooks = record { hooks = λ k. refl; nulls = λ k. refl };
  same_content = λ k. refl;
}

asked_run :
    run env (Api.custom (some (object 2)) (pos 0) (some (object 3)) (some (object 4))) world
    ≡ some (resource_id 0, asked)
unfolding run
asked_run = asked_lem

asked_IsReady : IsReady env asked
unfolding eio_custom bails is_init send ret_resource register_resource handle_ref retain new_handle
    find new_eio_cb_custom import_second store_cb_custom import_func_info
asked_IsReady = record {
  inv =
      (result
        (run-Safe env env-IsEnv
          (Api.custom (some (object 2)) (pos 0) (some (object 3)) (some (object 4))) world
          world-IsReady)
        asked_run).1.0;
  few = omega arith;
  ready = refl;
  fresh = refl;
}

abbrev asked_req : EioReq
asked_req = record live_request { type = Request.ReqType.custom }

asked_live : asked.store.reqs 7 ≡ some asked_req
unfolding eio_custom bails is_init send ret_resource register_resource handle_ref retain new_handle
    find new_eio_cb_custom import_second store_cb_custom import_func_info type_of
asked_live = refl

custom_whole-Over_example : Returns (Over world asked 7 0) (
    (custom_execute env five own 7 (main_stack, after_run asked asked.store.reqs) >>= λ (after, w').
    res_cb_custom env keeper 7 w')
    >>= destroyed env 7)
custom_whole-Over_example =
    custom_whole-Over env env-IsEnv env-Frees five keeper (some (long (pos 5))) true own main_stack
      (some (object 2)) (pos 0) (some (object 3)) (some (object 4)) world asked 100 200 7 0 2 3
      made_php made_cb asked.store.reqs asked_req (λ x u. refl) (λ x u. refl) (λ i. refl)
      (λ p. refl) world-IsReady (no_fatal world refl) made_lem made_at unused has_exec has_func
      asked_lem asked_target asked_IsReady asked_Ran asked_live refl refl

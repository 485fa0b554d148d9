-- ===== src/Results/LifeTests.antt =====
-- A request from its making to its end.
use pecl_eio.Base.{◌≡◌, refl, true, none, some, arith, write, ◌>>=◌}
use pecl_eio.Base.Int.{pos}
use pecl_eio.Base.Returns.{Returns, result}
use pecl_eio.Zend.{object, Php}
use pecl_eio.Callbacks.{new_eio_cb, store_cb, import_func_info}
use pecl_eio.Handles.{target, register_resource, handle_ref, retain, new_handle}
use pecl_eio.Handles.Table.{find}
use pecl_eio.Handles.Resources.{lookup}
use pecl_eio.Request.{Reqs}
use pecl_eio.World.{Call, type_of, resource_id, request, send, ret_resource}
use pecl_eio.World.Submission.{request-Safe}
use pecl_eio.Results.Finishing.{destroyed}
use pecl_eio.Results.Life.{Ran, Over, after_run, request_life-Over}
use pecl_eio.World.{World}
use pecl_eio.World.Submission.{IsReady}
use pecl_eio.Results.{Value, result_value, value_of_type, res_cb}
use pecl_eio.Examples.{env, env-IsEnv, env-Frees, empty, world, world-IsReady, live_request}
use pecl_eio.Handles.{fetch_req}
use pecl_eio.Handles.Resources.{Kind}
use pecl_eio.Results.Cancelled.{CancelRuns}
use pecl_eio.Results.Tests.{buffers, keeper}

-- `eio_nop(EIO_PRI_DEFAULT, $closure, $data)`, which libeio then runs.
abbrev pub made_php : Php
made_php = (new_eio_cb env.is_callable (some 100) (some (object 3)) (some (object 4)) empty).1

abbrev pub asked : World
asked = elim (request env Call.nop (pos 0) (some (object 3)) (some (object 4)) world) [
  | none ↦ world
  | some (ret, w) ↦ w
]

pub made_lem :
    new_eio_cb env.is_callable (env.cb_address empty) (some (object 3)) (some (object 4)) empty
    ≡ (some 100, made_php)
unfolding new_eio_cb store_cb import_func_info
made_lem = refl

pub asked_lem :
    request env Call.nop (pos 0) (some (object 3)) (some (object 4)) world
    ≡ some (resource_id 0, asked)
unfolding request send ret_resource register_resource handle_ref retain new_handle find new_eio_cb
    store_cb import_func_info
asked_lem = refl

pub asked_target : target asked.store 0 ≡ some 7
unfolding request send ret_resource register_resource handle_ref retain new_handle find new_eio_cb
    store_cb import_func_info lookup
asked_target = refl

pub asked_IsReady : IsReady env asked
unfolding request send ret_resource register_resource handle_ref retain new_handle find new_eio_cb
    store_cb import_func_info
asked_IsReady = record {
  inv =
      (result
        (request-Safe env env-IsEnv Call.nop (pos 0) (some (object 3)) (some (object 4)) world
          world-IsReady)
        asked_lem).1.0;
  few = omega arith;
  ready = refl;
  fresh = refl;
}

-- libeio sets the result.
abbrev ran : Reqs
ran = write asked.store.reqs 7 (some (record live_request { result = pos 3 }))

asked_Ran : Ran asked.store.reqs ran
unfolding request send ret_resource register_resource handle_ref retain new_handle find new_eio_cb
    store_cb import_func_info type_of
asked_Ran = record {
  hooks = record { hooks = λ k. ground arith; nulls = λ k. ground arith };
  same_content = λ k. ground arith;
}

ran_value :
    result_value (record live_request { result = pos 3 }) buffers ≡ some (Value.number (pos 3))
unfolding result_value value_of_type
ran_value = refl

request_life-Over_example :
    Returns
      (Over world asked 7 0)
      (res_cb env (λ fd. true) buffers keeper 7 (after_run asked ran) >>= destroyed env 7)
request_life-Over_example =
    request_life-Over env env-IsEnv env-Frees (λ fd. true) buffers keeper true Call.nop (pos 0)
      (some (object 3)) (some (object 4)) world asked 100 7 0 made_php ran
      (record live_request { result = pos 3 }) (Value.number (pos 3)) world-IsReady made_lem
      asked_lem asked_target asked_IsReady asked_Ran refl refl ran_value (λ x u. refl)

asked_fetched : fetch_req 0 Kind.req asked.store ≡ some (some 7)
unfolding request send ret_resource register_resource handle_ref retain new_handle find new_eio_cb
    store_cb import_func_info lookup fetch_req
asked_fetched = refl

pub env-CancelRuns : CancelRuns env
env-CancelRuns = record {
  ran = λ r m. record {
    hooks = record { hooks = λ k. refl; nulls = λ k. refl };
    same_content = λ k. refl;
  };
}

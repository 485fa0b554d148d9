-- ===== src/Ledger/Tests.antt =====
-- One request that is made with a callback and then finished, or cancelled, in the ledger.
use pecl_eio.Base.{is_some, false, List, [], ℕ, ◌≡◌, refl, true, none, some, arith, ◌∙◌}
use pecl_eio.Base.Int.{pos}
use pecl_eio.Base.Returns.{Returns, returns, result}
use pecl_eio.Zend.{object, ptr_dtor, efree, add_ref}
use pecl_eio.Callbacks.{
  free_eio_cb, release_zval, func_info_free, import_object, import_closure, copy_arg, new_eio_cb,
  store_cb, import_func_info,
}
use pecl_eio.Handles.{
  call_destroy, destroy_hook, take_handle, unlink, release, register_resource, handle_ref, retain,
  new_handle,
}
use pecl_eio.Handles.Table.{find, del}
use pecl_eio.World.{resource_id, initialized, World, Call, request, send, ret_resource, type_of}
use pecl_eio.Api.Running.{Api, run}
use pecl_eio.Api.Special.{eio_nop}
use pecl_eio.Results.{
  Value, result_value, value_of_type, res_cb, call_back, release_params, result_effects, effects,
  drop_req,
}
use pecl_eio.Results.Tests.{buffers, keeper}
use pecl_eio.Results.LifeTests.{asked, asked_lem, asked_IsReady, env-CancelRuns}
use pecl_eio.Examples.{
  env, env-IsEnv, env-Frees, empty, world, world-IsReady, live_request, no_fatal,
}
use pecl_eio.Ledger.{Entry, data_in, Held, Room, Owned, memory}
use pecl_eio.Ledger.Calls.{run-Keeps}
use pecl_eio.Ledger.Requests.{request-Keeps}
use pecl_eio.Ledger.Calling.{Minds}
use pecl_eio.Ledger.Steps.{Op, exec, Fits, Habit}
use pecl_eio.Ledger.Groups.{GroupRuns}
use pecl_eio.Request.{Reqs}
use pecl_eio.Results.Life.{Ran}
use pecl_eio.Ledger.Leaks.{here, next, Reach, start-Owned, Reach-no_leak}

world_Room : Room env world.store
world_Room = record { ready = world-IsReady; makes = λ c. refl }

abbrev nop : Api
nop = Api.nop (pos 0) (some (object 3)) (some (object 4))

run-Keeps_example : Returns (λ out. Owned [] (memory empty) out.1) (run env nop world)
run-Keeps_example =
    run-Keeps env env-IsEnv nop refl world world_Room [] (memory empty) (start-Owned world refl)

asked_Owned : Owned [] (memory empty) asked
unfolding type_of
asked_Owned =
    result
      (request-Keeps env env-IsEnv Call.nop (pos 0) (some (object 3)) (some (object 4)) refl world
        world_Room [] (memory empty) (start-Owned world refl))
      asked_lem

same_Ran : (m : Reqs) → Ran m m
same_Ran m = record {
  hooks = record { hooks = λ k. refl; nulls = λ k. refl };
  same_content = λ k. refl;
}

pub env-GroupRuns : GroupRuns env
env-GroupRuns = record {
  cancels = λ g m. same_Ran m;
  adds = λ g r m. same_Ran m;
  limits = λ g n m. same_Ran m;
}

-- PHP code holds what it held.
abbrev pub Same : Held → Held → Type 0
Same u u' = u' ≡ u

pub Same-Habit : Habit Same
Same-Habit = record { nothing = λ u. refl; both = λ u v w d e. e ∙ d }

pub keeper-Minds : (g : List Entry) (r : ℕ) (w0 : World) → Minds env Same keeper g r w0
keeper-Minds g r w0 = record {
  nothing = λ u. refl;
  called = λ x w u a c from at k. returns (u, refl, k);
}

pub asked_live : asked.store.reqs 7 ≡ some live_request
unfolding request send ret_resource register_resource handle_ref retain new_handle find new_eio_cb
    store_cb import_func_info type_of
asked_live = refl

live_value : result_value live_request buffers ≡ some (Value.number (pos 0))
unfolding result_value value_of_type
live_value = refl

-- After `eio_nop`, which also initializes.
abbrev pub begun : World
begun = record asked { process = (initialized env world).process }

begun_lem :
    request env Call.nop (pos 0) (some (object 3)) (some (object 4)) (initialized env world)
    ≡ some (resource_id 0, begun)
unfolding request send ret_resource register_resource handle_ref retain new_handle find new_eio_cb
    store_cb import_func_info
begun_lem = refl

exec-nop : exec env (λ fd. true) (Op.call nop) world ≡ some begun
unfolding exec run eio_nop
exec-nop = rw (no_fatal world refl, begun_lem) refl

begun_reached : Reach env (λ fd. true) Same world begun
begun_reached = next (Op.call nop) here (refl, world_Room) exec-nop

-- The request is finished, and nothing is left.
abbrev pub finishing : Op
finishing = Op.finish buffers keeper 7

pub finishing-Fits : Fits env (λ fd. true) Same [] finishing begun
finishing-Fits = (
  asked_IsReady,
  tt,
  (live_request, Value.number (pos 0), asked_live, live_value),
  keeper-Minds [] 7 begun,
)

abbrev pub ended : World
ended = elim (exec env (λ fd. true) finishing begun) [ none ↦ world | some w ↦ w ]

pub exec-finishing : exec env (λ fd. true) finishing begun ≡ some ended
unfolding exec request send ret_resource register_resource handle_ref retain new_handle find
    new_eio_cb store_cb import_func_info type_of res_cb call_back release_params call_destroy
    result_value value_of_type result_effects effects free_eio_cb release_zval func_info_free
    ptr_dtor efree add_ref destroy_hook take_handle unlink release del import_object import_closure
    copy_arg drop_req
exec-finishing = refl

pub ended_bare : (r : ℕ) → data_in (ended.store.reqs r) ≡ none
unfolding exec request send ret_resource register_resource handle_ref retain new_handle find
    new_eio_cb store_cb import_func_info type_of res_cb call_back release_params call_destroy
    result_value value_of_type result_effects effects free_eio_cb release_zval func_info_free
    ptr_dtor efree add_ref destroy_hook take_handle unlink release del import_object import_closure
    copy_arg drop_req
ended_bare r = ground arith

pub ended_gone : is_some (ended.store.reqs 7) ≡ false
unfolding exec request send ret_resource register_resource handle_ref retain new_handle find
    new_eio_cb store_cb import_func_info type_of res_cb call_back release_params call_destroy
    result_value value_of_type result_effects effects free_eio_cb release_zval func_info_free
    ptr_dtor efree add_ref destroy_hook take_handle unlink release del import_object import_closure
    copy_arg drop_req
ended_gone = ground arith

Reach-no_leak_example :
    (u' : Held) × (u' ≡ memory empty)
    × ((i : ℕ) → ended.php.objs i ≡ u'.objs i)
    × ((k : ℕ) → ended.php.blocks k ≡ u'.blocks k)
Reach-no_leak_example =
    Reach-no_leak env (λ fd. true) Same env-IsEnv env-Frees env-CancelRuns env-GroupRuns Same-Habit
      (memory empty) world ended (start-Owned world refl)
      (next finishing begun_reached finishing-Fits exec-finishing) ended_bare

pub begun-Owned : Owned [] (memory empty) begun
begun-Owned = asked_Owned

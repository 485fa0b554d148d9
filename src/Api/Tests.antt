-- ===== src/Api/Tests.antt =====
-- Calls in one concrete surrounding.
use pecl_eio.Base.{ℕ, ◌+◌, ◌≡◌, refl, true, false, none, some, [], ◌∷◌, arith, if◌then◌else◌, write}
use pecl_eio.Base.Int.{ℤ, pos, negsuc, to_int32}
use pecl_eio.Base.Returns.{Returns}
use pecl_eio.Request.{libeio}
use pecl_eio.Zend.{null, object, long, cb, ptr_dtor, efree, invalid_callback}
use pecl_eio.Callbacks.{no_func, free_eio_cb, release_zval, func_info_free}
use pecl_eio.Fd.{zval_to_fd}
use pecl_eio.Handles.{Store, Handle, target, fetch_req}
use pecl_eio.Handles.Resources.{Resource, Kind, lookup, held}
use pecl_eio.Handles.Table.{find}
use pecl_eio.Handles.Inv.{Inv}
use pecl_eio.Handles.Steps.{start}
use pecl_eio.World.{World, Ret, Call, request, false_value, null_value, initialized}
use pecl_eio.World.Submission.{AnyOutcome, Outcome}
use pecl_eio.Api.Running.{Api, run}
use pecl_eio.Api.Safety.{run-Safe}
use pecl_eio.Api.Refusals.{run-nul, run-bad_fd, Refused, invalid_path, any_bad, descriptors}
use pecl_eio.Api.Submitting.{
  num_bytes_lem, within, write_request-Sends, Sends, object_made, request-invalid_callback,
}
use pecl_eio.Api.Descriptors.{num_bytes, write_request}
use pecl_eio.Api.Control.{
  unfetched, with_req, cancel_req, cancel_with, eio_cancel, eio_get_last_error, eio_grp_add,
  eio_grp_limit, eio_grp_cancel,
}
use pecl_eio.Api.Control.Cancelling.{eio_cancel-twice, stale_harmless, refused}
use pecl_eio.Examples.{
  env, env-IsEnv, env-Cancels, empty, world, world-IsReady, no_fatal, live_request,
}

-- `eio_stat("/a", EIO_PRI_DEFAULT, $closure)`
abbrev stat : Api
stat = Api.stat (47 ∷ 97 ∷ []) (pos 0) (some (object 3)) none

run-Safe_example : Returns (AnyOutcome world) (run env stat world)
run-Safe_example = run-Safe env env-IsEnv stat world world-IsReady

run-nul_example :
    run env (Api.rmdir (47 ∷ 0 ∷ []) (pos 0) none none) world ≡ invalid_path (initialized env world)
run-nul_example =
    run-nul env (Api.rmdir (47 ∷ 0 ∷ []) (pos 0) none none) world (no_fatal world refl) refl

-- `eio_close(-1)`
abbrev bad_close : Api
bad_close = Api.close (long (negsuc 0)) (pos 0) none none

minus_one_is_bad : any_bad env (descriptors bad_close) ≡ true
unfolding zval_to_fd to_int32
minus_one_is_bad = refl

num_bytes_lem_example :
    num_bytes false 5 (negsuc 2) ≡ (if false then pos 5 else within 5 (negsuc 2))
num_bytes_lem_example = num_bytes_lem false 5 (negsuc 2) (omega arith) (omega arith)

request-invalid_callback_example :
    Returns
      (λ (ret, w').
        Outcome none world (ret, w')
        × (w'.php.thrown ≡ invalid_callback ∷ [])
        × (w'.php.errors ≡ 0 + 1))
      (request env Call.nop (pos 0) (some null) none world)
request-invalid_callback_example =
    request-invalid_callback env env-IsEnv Call.nop (pos 0) null none world 100 world-IsReady refl
      refl

run-bad_fd_example : Returns (Refused world) (run env bad_close world)
run-bad_fd_example = run-bad_fd env bad_close world (no_fatal world refl) minus_one_is_bad

-- Two bytes at 300, which are copied to 200.
write_request-Sends_example :
    Returns
      (Sends env false 300 (104 ∷ 105 ∷ []) (pos 2) (object_made env none none world) 7 world)
      (write_request env false 300 (pos 1) (104 ∷ 105 ∷ []) (pos 2) (pos 0) (pos 0) none none world)
write_request-Sends_example =
    write_request-Sends env env-IsEnv false 300 (pos 1) (104 ∷ 105 ∷ []) (pos 2) (pos 0) (pos 0)
      none none world 7 world-IsReady refl

-- The resource 0, whose handle is at 50.
abbrev with_handle : Store → Handle → Store
with_handle s h = record s {
  handles = write (λ _. none) 50 (some h);
  resources = (0, record { ptr = some 50; kind = Kind.req }) ∷ [];
  next_id = 1;
}

abbrev stale_resource : Resource
stale_resource = record { ptr = some 50; kind = Kind.req }

-- Its request has ended.
abbrev stale_world : World
stale_world = record world {
  store =
      with_handle (start (λ _. none)) (record { req = none; refs = 1; orig_destroy = libeio 1 });
}

stale_world-Inv : Inv stale_world.store
unfolding held find
stale_world-Inv = record {
  counted = λ a. ground arith;
  alive = λ a. ground arith;
  linked = λ r a e. ground arith;
  owner = λ r a e. ground arith;
  hooked = λ r. refl;
  original = λ a. ground arith;
  callable = λ r. refl;
  closed = λ r e. refl;
  distinct = tt;
}

stale_target : target stale_world.store 0 ≡ none
unfolding lookup
stale_target = refl

-- The functions on groups throw a TypeError, since the resource is one of a request.
abbrev mistaken : World
mistaken = refused false (initialized env stale_world)

stale_harmless_example :
    (eio_cancel env 0 stale_world ≡ some (null_value, stale_world))
    × (eio_get_last_error env 0 stale_world ≡ some (false_value, stale_world))
    × (eio_grp_cancel env 0 stale_world ≡ some (null_value, mistaken))
    × ((limit : ℤ) → eio_grp_limit env 0 limit stale_world ≡ some (null_value, mistaken))
    × ((other : ℕ) → eio_grp_add env 0 other stale_world ≡ some (null_value, mistaken))
unfolding lookup
stale_harmless_example =
    stale_harmless env stale_world 0 stale_resource stale_world-Inv refl stale_target
      (no_fatal stale_world refl)

abbrev live_world : World
live_world = record world {
  store =
      record (with_handle (start (write (λ _. none) 7 (some live_request)))
        (record { req = some 7; refs = 2; orig_destroy = libeio 1 })) { table = (7, 50) ∷ [] };
  php = record empty {
    blocks = write (λ _. none) 100 (some (cb (record { func = no_func; arg = object 4 })));
  };
}

abbrev cancelled : Ret × World
cancelled = elim (eio_cancel env 0 live_world) [ none ↦ (null_value, live_world) | some out ↦ out ]

cancelled_lem : eio_cancel env 0 live_world ≡ some cancelled
unfolding eio_cancel with_req fetch_req cancel_req cancel_with free_eio_cb release_zval
    func_info_free ptr_dtor efree lookup
cancelled_lem = refl

eio_cancel-twice_example :
    Returns
      (λ again. again.1.php ≡ (unfetched 0 Kind.req cancelled.1).php)
      (eio_cancel env 0 cancelled.1)
eio_cancel-twice_example = eio_cancel-twice env env-Cancels 0 live_world cancelled cancelled_lem

-- ===== src/Handles/Tests.antt =====
-- A request that is registered, ended, and followed by another at the same address.
use pecl_eio.Base.{
  ℕ, ◌<◌, ◌≡◌, refl, true, false, none, some, arith, is_some, write, ◌==◌, if◌then◌else◌,
}
use pecl_eio.Base.Int.{pos}
use pecl_eio.Request
use pecl_eio.Base.Returns.{Returns}
use pecl_eio.Request.{EioReq, nop, libeio, Reqs, Libeio, Frees}
use pecl_eio.Handles.{
  Store, call_destroy, register_resource, handle_dtor, handles_reset, fetch_req, destroy_hook,
  take_handle, unlink, release, handle_ref, retain, new_handle, target,
}
use pecl_eio.Handles.Table.{find, del}
use pecl_eio.Handles.Resources.{Kind, lookup}
use pecl_eio.Handles.Destroying.{Destroyed, call_destroy-Destroyed}
use pecl_eio.Handles.Registering.{Registered, register_resource-Registered}
use pecl_eio.Handles.Releasing.{Released, handle_dtor-Released}
use pecl_eio.Handles.Resetting.{Reset, handles_reset-Reset}
use pecl_eio.Handles.Weak.{WeakReach, view, get}
use pecl_eio.Handles.Refinement.{Reach-refines}
use pecl_eio.Handles.Steps.{
  Step, create, finish, register, here, next, IsSafe, Reach-IsSafe, fetch_req-stale, fetch_req-live,
  start, start-IsSafe,
}

abbrev a_request : EioReq
a_request = record {
  type = nop;
  result = pos 0;
  size = 0;
  int1 = 0;
  errorno = 0;
  cancelled = false;
  cb_data = none;
  buf = none;
  destroy = libeio 1;
}

abbrev pub lib : Libeio
lib = record { destroy = λ f r m q. if r == q then none else m q }

pub lib-Frees : Frees lib
lib-Frees = record { frees = λ f r m q. refl }

abbrev one_request : Reqs
one_request = write (λ _. none) 7 (some a_request)

abbrev pub first : Store
first = start one_request

pub first-IsSafe : IsSafe first
first-IsSafe = start-IsSafe one_request (λ r. ground arith) (λ r. ground arith)

abbrev pub registered : Store
registered = elim (register_resource 7 Kind.req 50 first) [ none ↦ first | some (id, s) ↦ s ]

pub registered_lem : register_resource 7 Kind.req 50 first ≡ some (0, registered)
unfolding register_resource handle_ref retain new_handle find
registered_lem = refl

abbrev pub registering : Step lib first registered
registering = register 7 50 0 Kind.req a_request refl refl refl (omega arith) registered_lem

pub registered-IsSafe : IsSafe registered
registered-IsSafe = Reach-IsSafe lib lib-Frees first-IsSafe (next here registering)

abbrev ended : Store
ended = elim (call_destroy lib 7 registered) [ none ↦ first | some s ↦ s ]

ended_lem : call_destroy lib 7 registered ≡ some ended
unfolding register_resource handle_ref retain new_handle find call_destroy destroy_hook take_handle
    unlink release del
ended_lem = refl

finishing : Step lib registered ended
unfolding register_resource handle_ref retain new_handle find
finishing = finish 7 (record a_request { destroy = Request.Destroy.hook }) refl ended_lem

ended-IsSafe : IsSafe ended
ended-IsSafe = Reach-IsSafe lib lib-Frees registered-IsSafe (next here finishing)

-- libeio makes another request at the same address.
abbrev reused : Store
reused = record ended { reqs = write ended.reqs 7 (some a_request) }

reusing : Step lib ended reused
unfolding register_resource handle_ref retain new_handle find call_destroy destroy_hook take_handle
    unlink release del
reusing = create 7 a_request refl refl refl refl

fetch_req-live_example :
    Returns
      (λ o. (k : ℕ) → o ≡ some k → is_some (registered.reqs k) ≡ true)
      (fetch_req 0 Kind.req registered)
fetch_req-live_example =
    fetch_req-live lib lib-Frees first-IsSafe 0 Kind.req (next here registering)

ended_next : (0 < ended.next_id) × (target ended 0 ≡ none)
unfolding register_resource handle_ref retain new_handle find call_destroy destroy_hook take_handle
    unlink release del lookup
ended_next = (omega arith, refl)

fetch_req-stale_example : fetch_req 0 Kind.req reused ≡ some none
fetch_req-stale_example =
    fetch_req-stale lib lib-Frees ended-IsSafe 0 Kind.req (next here reusing) ended_next.0
      ended_next.1

registered_req : registered.reqs 7 ≡ some (record a_request { destroy = Request.Destroy.hook })
unfolding register_resource handle_ref retain new_handle find
registered_req = refl

pub registered_ready : registered.ready ≡ true
unfolding register_resource handle_ref retain new_handle find
registered_ready = refl

call_destroy-Destroyed_example : Returns (Destroyed 7 registered) (call_destroy lib 7 registered)
call_destroy-Destroyed_example =
    call_destroy-Destroyed lib lib-Frees registered registered-IsSafe.inv registered-IsSafe.few 7
      (record a_request { destroy = Request.Destroy.hook }) registered_req

register_resource-Registered_example :
    Returns (Registered 7 Kind.req first) (register_resource 7 Kind.req 50 first)
register_resource-Registered_example =
    register_resource-Registered first first-IsSafe.inv first-IsSafe.few 7 Kind.req 50 a_request
      refl refl refl

handle_dtor-Released_example : Returns (Released 0 registered) (handle_dtor 0 registered)
handle_dtor-Released_example =
    handle_dtor-Released registered registered-IsSafe.inv registered-IsSafe.few 0

handles_reset-Reset_example : Returns (Reset registered) (handles_reset registered)
handles_reset-Reset_example =
    handles_reset-Reset registered registered-IsSafe.inv registered-IsSafe.few registered_ready

Reach-refines_example :
    WeakReach (view first) (view registered)
    × ((id : ℕ) (kind : Kind) → fetch_req id kind registered ≡ some (get id kind (view registered)))
Reach-refines_example = Reach-refines lib lib-Frees first-IsSafe (next here registering)

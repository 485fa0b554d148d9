-- ===== src/Ledger/CallbacksTests.antt =====
-- PHP code in the callback of a request, that makes another request and has libeio finish a third.
use pecl_eio.Base.{Bool, List, [], ◌∷◌, ◌≡◌, refl, true, none, some, Option, length, ◌+◌, ◌<◌, ◌^◌}
use pecl_eio.Base.Int.{pos}
use pecl_eio.Request.{EioReq}
use pecl_eio.Callbacks.{new_eio_cb, store_cb, import_func_info}
use pecl_eio.Handles.{Store, register_resource, handle_ref, retain, new_handle}
use pecl_eio.Handles.Table.{find}
use pecl_eio.Handles.Inv.{Inv}
use pecl_eio.Handles.Resources.{Kind}
use pecl_eio.World.{World, Call, type_of, request, send, ret_resource}
use pecl_eio.Api.Running.{Api}
use pecl_eio.Results.{Args}
use pecl_eio.Results.Tests.{buffers, keeper}
use pecl_eio.Examples.{env}
use pecl_eio.Base.Returns
use pecl_eio.Base.Returns.{Returns, result}
use pecl_eio.Ledger.Steps.{Op}
use pecl_eio.Ledger.Tests.{begun}

-- The request 8 beside the request 7.
abbrev pair : World
pair = elim (request env Call.nop (pos 0) none none begun) [ none ↦ begun | some (ret, w) ↦ w ]

-- Where the callback of the request 7 is called.
abbrev called_store : Store
called_store =
    elim (register_resource 7 Kind.req (env.handle_address pair.store.handles) pair.store) [
      | none ↦ pair.store
      | some (id, s) ↦ s
    ]

abbrev other_request : EioReq
other_request = elim (called_store.reqs 8) [
  | none ↦ record {
    type = type_of Call.nop;
    result = pos 0;
    size = 0;
    int1 = 0;
    errorno = 0;
    cancelled = true;
    cb_data = none;
    buf = none;
    destroy = pecl_eio.Request.null;
  }
  | some q ↦ q
]

other_live : called_store.reqs 8 ≡ some other_request
unfolding request send ret_resource register_resource handle_ref retain new_handle find new_eio_cb
    store_cb import_func_info type_of
other_live = refl

abbrev nop : Op
nop = Op.call (Api.nop (pos 0) none none)

-- What has become of the request 8, and what the extension needs to be called again.
abbrev StillWaits : World → Type 0
StillWaits w =
    (w.store.reqs 8 ≡ some other_request)
    × (length w.store.resources + 3 < 2 ^ 32)
    × (w.store.ready ≡ true)
    × (w.store.handles (env.handle_address w.store.handles) ≡ none)

-- It makes a request, has libeio finish the request 8, and lets go of `$req`.
abbrev plan : Args → Bool × List Op
plan x = (true, nop ∷ Op.finish buffers keeper 8 ∷ Op.drop x.req ∷ [])

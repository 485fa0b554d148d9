-- ===== src/Results/Cancelled.antt =====
-- A request that is made, run and cancelled: libeio does not call its finish function.
use pecl_eio.Base.{
  ℕ, ◌≤◌, ◌≡◌, refl, false, Option, none, some, arith, ◌>>=◌, ◌∙◌, write as write_at,
}
use pecl_eio.Base.Int.{ℤ}
use pecl_eio.Base.Returns
use pecl_eio.Base.Returns.{Returns, returns}
use pecl_eio.Request.{is_live, EioReq, Reqs, Frees}
use pecl_eio.Zend.{Zval, EioCb, cb, Php}
use pecl_eio.Callbacks.{new_eio_cb, free_eio_cb}
use pecl_eio.Handles.{target, fetch_req}
use pecl_eio.Handles.Resources.{Kind}
use pecl_eio.Handles.Fetching.{fetch_same}
use pecl_eio.World.{World, Env, IsEnv, Call, resource_id, request}
use pecl_eio.World.Submission.{IsReady}
use pecl_eio.World.Running.{ran-StoreReady}
use pecl_eio.Api.Control.{is_custom, cancel_with, cancel_req, eio_cancel}
use pecl_eio.Results.Release.{Freed, cb_refs, free_eio_cb-Freed}
use pecl_eio.Results.Finishing.{Between, destroyed, destroyed-Finished}
use pecl_eio.Results.Life.{Ran, Over, after_run, request-Asked}

-- `eio_cancel` of libeio keeps types, callback objects and destroy functions.
pub record CancelRuns (env : Env) : Type 0 where
  pub ran : (r : ℕ) (m : Reqs) → Ran m (Env.cancel env r m)

module _ (env : Env) (cancels : CancelRuns env) where
  -- Freeing the object, and writing the request at `r` without it.
  cancel_with-Between :
      (w : World) (r a : ℕ) (c : EioCb) (q : EioReq)
      → IsReady env w
      → w.store.reqs r ≡ some q
      → q.cb_data ≡ some a
      → w.php.blocks a ≡ some (cb c)
      → ((i : ℕ) → cb_refs i c ≤ w.php.objs i)
      → Returns (λ out. Between (Freed a c) w r out.1) (cancel_with env free_eio_cb r w)
  unfolding cancel_with
  cancel_with-Between w r a c q ready live data_of is counted =
      let m = env.cancel r w.store.reqs in
      let d = cancels.ran r w.store.reqs in
      let (q', still) = is_live (m r) q (ground (arith, d.same_content r)) in
      let data' : q'.cb_data ≡ some a = ground (arith, d.same_content r) in
      let done = write_at m r (some (record q' { cb_data = none })) in
      let v =
        ran-StoreReady env w.store done
          (record {
            hooks = λ k. ground (arith, d.hooks.hooks k, still);
            nulls = λ k. ground (arith, d.hooks.nulls k, still);
          })
          ready in
      rw (still, data')
        (Returns.bind (free_eio_cb-Freed a c w.php is counted) λ p f. returns (record {
          released = f;
          inv = v.inv;
          few = ground (arith, v.few);
          others = λ k ne. refl;
          still = ground arith;
          same_reqs = λ k ne. ground (arith, d.same_content k);
        }))

  eio_cancel_lem :
      (w : World) (id r : ℕ) (q : EioReq)
      → fetch_req id Kind.req w.store ≡ some (some r)
      → w.store.reqs r ≡ some q
      → is_custom q.type ≡ false
      → eio_cancel env id w ≡ cancel_with env free_eio_cb r w
  unfolding eio_cancel cancel_req
  eio_cancel_lem w id r q fetched live plain = rw (fetched, live, plain) refl

  -- In a world that is ready, with allocators that return unused memory and a destroy function of
  -- libeio that frees exactly its request: where a function makes a request with a callback object,
  -- its resource is fetched as that request, the extension may be called again, and libeio runs the
  -- request, which is not custom, and cancels it, both without touching types, callback objects and
  -- destroy functions, then `eio_cancel` of the resource and after it the destroy function, with no
  -- call of the finish function in between, do not fault. Every reference count and every block of
  -- memory is as it was before the function was called; the request is gone, no resource stands for
  -- it, every resource beside the one that was made and the next one stands for what it stood for,
  -- and the handles are in order.
  pub cancelled_life-Over :
      IsEnv env
      → Frees env.lib
      → (call : Call) (pri : ℤ) (zcb arg : Option Zval) (w w1 : World) (a r id : ℕ) (p : Php)
        (m : Reqs) (q : EioReq)
      → IsReady env w
      → new_eio_cb env.is_callable (env.cb_address w.php) zcb arg w.php ≡ (some a, p)
      → request env call pri zcb arg w ≡ some (resource_id id, w1)
      → target w1.store id ≡ some r
      → fetch_req id Kind.req w1.store ≡ some (some r)
      → IsReady env w1
      → Ran w1.store.reqs m
      → m r ≡ some q
      → is_custom q.type ≡ false
      → Returns
          (Over w w1 r id)
          (eio_cancel env id (after_run w1 m) >>= λ (ret, w'). destroyed env r w')
  cancelled_life-Over is f call pri zcb arg w w1 a r id p m q ready made asked stands fetched again
        ran live plain =
      let d =
        request-Asked env is call pri zcb arg w w1 a r id p m q ready made asked stands ran live in
      rw
        (eio_cancel_lem (after_run w1 m) id r q
          (fetch_same id Kind.req w1.store (after_run w1 m).store refl refl ∙ fetched) live plain)
        (Returns.bind
          (cancel_with-Between (after_run w1 m) r a d.made q
            (ran-StoreReady env w1.store m ran.hooks again) live d.data_of d.is d.counted)
          λ (ret, w') e.
            Returns.mono (destroyed-Finished env f (Freed a d.made) (after_run w1 m) w' r e) d.over)

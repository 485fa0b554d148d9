-- ===== src/Results/SelfCancel.antt =====
-- A callback that cancels the request that it is called for.
use pecl_eio.Base.{
  ℕ, ◌≤◌, ◌≡◌, refl, Bool, true, false, Option, none, some, arith, ◌>>=◌, is_some, ◌∙◌, ap, sym,
  List, ◌∷◌, ==_self,
}
use pecl_eio.Base.Int.{ℤ}
use pecl_eio.Base.Returns
use pecl_eio.Base.Returns.{Returns, returns}
use pecl_eio.Request.{is_live, EioReq}
use pecl_eio.Zend.{EioCb, cb, Php, add_ref}
use pecl_eio.Callbacks.{free_eio_cb}
use pecl_eio.Callbacks.Balance.{add_ref-Takes}
use pecl_eio.Handles.{target, fetch_req}
use pecl_eio.Handles.Resources.{Kind, Resource, lookup}
use pecl_eio.Handles.Inv.{Inv}
use pecl_eio.Handles.Fetching.{fetch_req-target, is_of_kind}
use pecl_eio.Handles.Registering.{register_resource-Registered}
use pecl_eio.World.{World, Env, with_php, with_store}
use pecl_eio.World.Submission.{IsReady}
use pecl_eio.Api.Control.{is_custom, cancel_with, cancel_req, eio_cancel}
use pecl_eio.Api.Control.Cancelling.{Cancels}
use pecl_eio.Results.{
  Buffers, Value, result_value, User, data_param, call_back, release_params, res_cb,
}
use pecl_eio.Results.Release.{cb_refs, free_eio_cb-Freed, touches, result_effects_none}
use pecl_eio.Results.Completion.{res_cb_calls}

-- `function ($data, $result, $req) { eio_cancel($req); }`
abbrev pub canceller : Env → Bool → User
canceller env kept x u = eio_cancel env x.req u >>= λ (ret, u'). some (kept, u')

free_eio_cb-gone : (a : ℕ) (p : Php) → p.blocks a ≡ none → free_eio_cb (some a) p ≡ none
unfolding free_eio_cb
free_eio_cb-gone a p e = rw e refl

fetched :
    (w : World) (id r : ℕ)
    → Inv w.store
    → is_of_kind Kind.req (lookup id w.store.resources) ≡ true
    → target w.store id ≡ some r
    → fetch_req id Kind.req w.store ≡ some (some r)
fetched w id r v kind t = ground (arith, fetch_req-target w.store v id Kind.req)

module _ (env : Env) (cancels : Cancels env) where
  cancel_with-gone :
      (r a : ℕ) (c : EioCb) (w : World)
      → ((q : EioReq) → env.cancel r w.store.reqs r ≡ some q → q.cb_data ≡ some a)
      → is_some (env.cancel r w.store.reqs r) ≡ true
      → w.php.blocks a ≡ some (cb c)
      → ((i : ℕ) → cb_refs i c ≤ w.php.objs i)
      → Returns (λ out. out.1.php.blocks a ≡ none) (cancel_with env free_eio_cb r w)
  unfolding cancel_with
  cancel_with-gone r a c w data_of live is counted = by_req (env.cancel r w.store.reqs r) refl
    where
      by_req :
          (o : Option EioReq)
          → env.cancel r w.store.reqs r ≡ o
          → Returns (λ out. out.1.php.blocks a ≡ none) (cancel_with env free_eio_cb r w)
      by_req none e = absurd (ground arith)
      by_req (some q) e =
          let data_lem = data_of q e in
          rw (e, data_lem)
            (Returns.bind (free_eio_cb-Freed a c w.php is counted)
              λ p f. returns (ground (arith, f.blocks a)))

  eio_cancel-gone :
      (id r a : ℕ) (c : EioCb) (w : World)
      → Inv w.store
      → is_of_kind Kind.req (lookup id w.store.resources) ≡ true
      → target w.store id ≡ some r
      → (q : EioReq) → w.store.reqs r ≡ some q
      → is_custom q.type ≡ false
      → q.cb_data ≡ some a
      → w.php.blocks a ≡ some (cb c)
      → ((i : ℕ) → cb_refs i c ≤ w.php.objs i)
      → Returns (λ out. out.1.php.blocks a ≡ none) (eio_cancel env id w)
  unfolding eio_cancel cancel_req
  eio_cancel-gone id r a c w v kind t q live plain data_of is counted =
      rw (fetched w id r v kind t, live, plain)
        (cancel_with-gone r a c w (λ q' e. ground (arith, cancels.keeps r w.store.reqs r))
          (ground (arith, cancels.keeps r w.store.reqs r)) is counted)

registered_kind :
    (id : ℕ) (res : Resource) (rs rs' : List (ℕ × Resource))
    → rs' ≡ (id, res) ∷ rs
    → res.kind ≡ Kind.req
    → is_of_kind Kind.req (lookup id rs') ≡ true
unfolding lookup
registered_kind id res rs rs' e k = rw (e, ==_self id) (ground arith)

module _ (env : Env) (cancels : Cancels env) (cloexec : ℤ → Bool) (b : Buffers) (kept : Bool) where
  -- The registration, the call of PHP code, and what follows.
  call_back-faults :
      (w : World) (r a f : ℕ) (c : EioCb) (q : EioReq) (v : Value)
      → IsReady env w
      → w.store.reqs r ≡ some q
      → q.cb_data ≡ some a
      → is_custom q.type ≡ false
      → w.php.blocks a ≡ some (cb c)
      → ((i : ℕ) → cb_refs i c ≤ w.php.objs i)
      → touches q.type ≡ false
      → result_value q b ≡ some v
      → call_back env cloexec b (canceller env kept) r q a c f w ≡ none
  unfolding call_back release_params
  call_back-faults w r a f c q v ready live data_of plain is counted quiet value =
      let p = add_ref (data_param c.arg) w.php in
      let t = add_ref-Takes (data_param c.arg) w.php in
      rw (value, result_effects_none cloexec r q (with_php w p) quiet)
        (Returns.faults
          (register_resource-Registered w.store ready.inv (ground (arith, ready.few)) r Kind.req
            (env.handle_address w.store.handles) q ready.ready live ready.fresh)
          λ (id, s) d.
            let (q', live') = is_live (s.reqs r) q (ground (arith, d.same_reqs r)) in
            Returns.faults
              (Returns.bind
                (eio_cancel-gone env cancels id r a c (with_store (with_php w p) s) d.inv
                  (registered_kind id d.res w.store.resources s.resources
                    (d.resources ∙ ap (λ k. (k, d.res) ∷ w.store.resources) (sym d.id)) d.kind_lem)
                  (ground (arith, d.targets id, d.id)) q' live' (ground (arith, d.same_reqs r))
                  (ground (arith, d.same_reqs r)) (ground (arith, t.same_blocks a))
                  (λ i. omega (arith, t.refs i, counted i)))
                λ out gone. returns gone)
              λ out gone. rw (free_eio_cb-gone a out.1.php gone) refl)

  -- In a world that is ready, where libeio keeps the type and the callback object of a request that
  -- it cancels, for a live request that was not cancelled, that is neither custom, an open nor a
  -- write, and whose callback object holds a function and counted references, with buffers as long
  -- as the result says: if the PHP code of the callback cancels the request that it is called for,
  -- `php_eio_res_cb` faults, since it frees the callback object once more.
  pub res_cb-cancelled_inside :
      (w : World) (r a f : ℕ) (c : EioCb) (q : EioReq) (v : Value)
      → IsReady env w
      → w.store.reqs r ≡ some q
      → q.cb_data ≡ some a
      → q.cancelled ≡ false
      → is_custom q.type ≡ false
      → w.php.blocks a ≡ some (cb c)
      → c.func.func_ptr ≡ some f
      → ((i : ℕ) → cb_refs i c ≤ w.php.objs i)
      → touches q.type ≡ false
      → result_value q b ≡ some v
      → res_cb env cloexec b (canceller env kept) r w ≡ none
  res_cb-cancelled_inside w r a f c q v ready live data_of going plain is has_func counted quiet
        value =
      res_cb_calls env cloexec b (canceller env kept) kept w r a f c q live data_of going is
        has_func
      ∙ call_back-faults w r a f c q v ready live data_of plain is counted quiet value

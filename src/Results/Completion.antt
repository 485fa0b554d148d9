-- ===== src/Results/Completion.antt =====
-- A callback that leaves what it gets in peace: the request's callback object is freed, and nothing else
-- changes but for the resource that the callback may keep.
use pecl_eio.Base.{
  ℕ, ◌+◌, ◌^◌, ◌<◌, ◌≤◌, ◌≡◌, refl, Bool, true, false, none, some, arith, ◌==◌, if◌then◌else◌,
  ◌>>=◌, length, ◌∙◌, ap, ◌⊎◌, inl, inr, Bool-cases,
}
use pecl_eio.Base.Int.{ℤ}
use pecl_eio.Base.Returns
use pecl_eio.Base.Returns.{Returns, returns}
use pecl_eio.Request.{EioReq, content}
use pecl_eio.Zend.{EioCb, cb, add_ref}
use pecl_eio.Callbacks.{free_eio_cb}
use pecl_eio.Handles.{Store, target}
use pecl_eio.Handles.Resources.{Kind}
use pecl_eio.Handles.Inv.{Inv}
use pecl_eio.Handles.Registering.{Registered, register_resource-Registered}
use pecl_eio.World.{World, Env, with_php, with_store}
use pecl_eio.World.Submission.{IsReady}
use pecl_eio.Results.Release.{
  cb_refs, Freed, free_eio_cb-Freed, params-Freed, touches, result_effects_none, drop_req-Dropped,
}
use pecl_eio.Results.{
  Buffers, Value, result_value, Args, User, data_param, call_back, release_params, res_cb,
}

-- The outcome of a call of the callback object `c` at `a` for the request at `r`.
pub record Completed (w : World) (r a : ℕ) (c : EioCb) (kept : Bool) (w' : World) : Type 0 where
  pub freed : Freed a c w.php w'.php
  pub inv : Inv w'.store
  pub targets :
      (k : ℕ)
      → target w'.store k
        ≡ (if w.store.next_id == k then (if kept then some r else none) else target w.store k)
  pub same_reqs : (k : ℕ) → content (w'.store.reqs k) ≡ content (w.store.reqs k)
  pub same_length : length w'.store.resources ≡ length w.store.resources + 1

module _ (env : Env) (cloexec : ℤ → Bool) (b : Buffers) (user : User) (kept : Bool) where
  release_params-Completed :
      (w : World) (r a : ℕ) (c : EioCb) (id : ℕ) (s : Store)
      → w.php.blocks a ≡ some (cb c)
      → ((i : ℕ) → cb_refs i c ≤ w.php.objs i)
      → length w.store.resources + 3 < 2 ^ 32
      → Registered r Kind.req w.store (id, s)
      → Returns (Completed w r a c kept) (
          release_params env cloexec b user a
            (data_param c.arg)
            id
            (kept, with_store (with_php w (add_ref (data_param c.arg) w.php)) s))
  unfolding release_params
  release_params-Completed w r a c id s is counted few d =
      Returns.bind (params-Freed a c w.php is counted) λ p f.
        Returns.bind (drop_req-Dropped s kept id d.inv (ground (arith, d.length_lem))) λ t e.
          returns (record {
            freed = f;
            inv = e.inv;
            targets = λ k. ground (arith, e.targets k, d.targets k, d.id);
            same_reqs = λ k. ap (λ m. content (m k)) e.same_reqs ∙ d.same_reqs k;
            same_length = e.same_length ∙ d.length_lem;
          })

  call_back-Completed :
      (w : World) (r a f : ℕ) (c : EioCb) (q : EioReq) (v : Value)
      → IsReady env w
      → w.store.reqs r ≡ some q
      → w.php.blocks a ≡ some (cb c)
      → ((i : ℕ) → cb_refs i c ≤ w.php.objs i)
      → touches q.type ≡ false
      → result_value q b ≡ some v
      → ((x : Args) (u : World) → user x u ≡ some (kept, u))
      → Returns (Completed w r a c kept) (call_back env cloexec b user r q a c f w)
  unfolding call_back
  call_back-Completed w r a f c q v ready live is counted quiet value polite =
      let p = add_ref (data_param c.arg) w.php in
      rw (value, result_effects_none cloexec r q (with_php w p) quiet)
        (Returns.bind
          (register_resource-Registered w.store ready.inv (ground (arith, ready.few)) r Kind.req
            (env.handle_address w.store.handles) q ready.ready live ready.fresh)
          λ (id, s) d.
            rw (polite _ _) (release_params-Completed w r a c id s is counted ready.few d))

  pub res_cb_calls :
      (w : World) (r a f : ℕ) (c : EioCb) (q : EioReq)
      → w.store.reqs r ≡ some q
      → q.cb_data ≡ some a
      → q.cancelled ≡ false
      → w.php.blocks a ≡ some (cb c)
      → c.func.func_ptr ≡ some f
      → res_cb env cloexec b user r w ≡ call_back env cloexec b user r q a c f w
  unfolding res_cb
  res_cb_calls w r a f c q live data_of going is has_func = ground arith

  -- In a world that is ready, `php_eio_res_cb` of a live request that was not cancelled, that is
  -- neither an open nor a write, and whose callback object holds a function and counted references,
  -- does not fault, if the buffers are as long as the result says and PHP code leaves the state as
  -- it finds it. The callback object is freed with exactly the references that it held, no other
  -- block changes, nothing is thrown, the handles stay in order, a new resource stands for the
  -- request where PHP code keeps it and for nothing where it does not, and every other resource
  -- stands for what it stood for.
  pub res_cb-Completed :
      (w : World) (r a f : ℕ) (c : EioCb) (q : EioReq) (v : Value)
      → IsReady env w
      → w.store.reqs r ≡ some q
      → q.cb_data ≡ some a
      → q.cancelled ≡ false
      → w.php.blocks a ≡ some (cb c)
      → c.func.func_ptr ≡ some f
      → ((i : ℕ) → cb_refs i c ≤ w.php.objs i)
      → touches q.type ≡ false
      → result_value q b ≡ some v
      → ((x : Args) (u : World) → user x u ≡ some (kept, u))
      → Returns (Completed w r a c kept) (res_cb env cloexec b user r w)
  res_cb-Completed w r a f c q v ready live data_of going is has_func counted quiet value polite =
      rw (res_cb_calls w r a f c q live data_of going is has_func)
        (call_back-Completed w r a f c q v ready live is counted quiet value polite)

  freed_only :
      (w : World) (r a : ℕ) (c : EioCb) (q : EioReq)
      → w.store.reqs r ≡ some q
      → q.cb_data ≡ some a
      → w.php.blocks a ≡ some (cb c)
      → (q.cancelled ≡ true) ⊎ (c.func.func_ptr ≡ none)
      → res_cb env cloexec b user r w ≡ (free_eio_cb (some a) w.php >>= λ p. some (with_php w p))
  unfolding res_cb
  freed_only w r a c q live data_of is (inl cancelled) = rw (live, data_of, cancelled) refl
  freed_only w r a c q live data_of is (inr no_func) = elim (Bool-cases q.cancelled) [
    | inl e ↦ rw (live, data_of, e) refl
    | inr e ↦ rw (live, data_of, e, is, no_func) refl
  ]

  -- Where a live request was cancelled, or its callback object holds no function, and the
  -- references of the object are counted, `php_eio_res_cb` does not fault; it frees the callback
  -- object with exactly the references that it held, and changes no request and no resource.
  pub res_cb-quiet :
      (w : World) (r a : ℕ) (c : EioCb) (q : EioReq)
      → w.store.reqs r ≡ some q
      → q.cb_data ≡ some a
      → w.php.blocks a ≡ some (cb c)
      → ((i : ℕ) → cb_refs i c ≤ w.php.objs i)
      → (q.cancelled ≡ true) ⊎ (c.func.func_ptr ≡ none)
      → Returns
          (λ w'. Freed a c w.php w'.php × (w'.store ≡ w.store))
          (res_cb env cloexec b user r w)
  res_cb-quiet w r a c q live data_of is counted why =
      rw (freed_only w r a c q live data_of is why)
        (Returns.bind (free_eio_cb-Freed a c w.php is counted) λ p f. returns (f, refl))

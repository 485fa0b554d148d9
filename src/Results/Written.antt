-- ===== src/Results/Written.antt =====
-- The completion of a write, with PHP code that leaves the state as it finds it: the copy of the bytes
-- goes with the callback object.
use pecl_eio.Base.{
  ℕ, ◌+◌, ◌≤◌, ◌≡◌, ◌≢◌, refl, Bool, false, ◌||◌, none, some, arith, ◌==◌, if◌then◌else◌,
  write as write_at,
}
use pecl_eio.Base.Int.{ℤ, is_neg}
use pecl_eio.Base.Returns
use pecl_eio.Base.Returns.{Returns, returns}
use pecl_eio.Request.{EioReq, ReqType}
use pecl_eio.Zend.{Bytes, EioCb, cb, bytes, add_ref, efree}
use pecl_eio.Callbacks.Balance.{add_ref-Takes}
use pecl_eio.Handles.{target}
use pecl_eio.Handles.Resources.{Kind}
use pecl_eio.Handles.Inv.{Inv}
use pecl_eio.Handles.Registering.{register_resource-Registered}
use pecl_eio.World.{World, Env, with_php, with_store}
use pecl_eio.World.Submission.{IsReady}
use pecl_eio.World.Running.{ran-StoreReady}
use pecl_eio.Results.{
  Buffers, Value, result_value, value_of_type, result_effects, free_written, effects, Args, User,
  data_param, call_back, release_params, res_cb,
}
use pecl_eio.Results.Release.{cb_refs, refs_in-data_param, drop_req-Dropped}
use pecl_eio.Results.Completion.{res_cb_calls}
use pecl_eio.Results.Careful.{release_both}

-- The copy at `b` and the object `c` at `a` are freed, and the references of the object given back.
pub record WriteDone (w : World) (r a b : ℕ) (c : EioCb) (kept : Bool) (w' : World) : Type 0 where
  pub objs : (i : ℕ) → w.php.objs i ≡ w'.php.objs i + cb_refs i c
  pub blocks : (k : ℕ) → w'.php.blocks k ≡ (if a == k || b == k then none else w.php.blocks k)
  pub inv : Inv w'.store
  pub targets :
      (k : ℕ)
      → target w'.store k
        ≡ (if w.store.next_id == k then (if kept then some r else none) else target w.store k)

write_value :
    (q : EioReq) (buffers : Buffers)
    → q.type ≡ ReqType.write
    → is_neg q.result ≡ false
    → result_value q buffers ≡ some (Value.number q.result)
unfolding result_value value_of_type
write_value q buffers t e = rw (e, t) refl

-- The world once the copy at `b` is freed.
abbrev copy_freed : ℕ → ℕ → EioReq → World → World
copy_freed r b q w =
    let s = w.store in
    let p = w.php in
    with_php (with_store w (record s { reqs = write_at s.reqs r (some (record q { buf = none })) }))
      (record p { blocks = write_at p.blocks b none })

write_effects :
    (cloexec : ℤ → Bool) (r b : ℕ) (q : EioReq) (s : Bytes) (w : World)
    → q.type ≡ ReqType.write
    → is_neg q.result ≡ false
    → q.buf ≡ some b
    → w.php.blocks b ≡ some (bytes s)
    → result_effects cloexec r q w ≡ some (copy_freed r b q w)
unfolding result_effects free_written effects efree
write_effects cloexec r b q s w t e at is = rw (e, t, at, is) refl

module _ (env : Env) (cloexec : ℤ → Bool) (buffers : Buffers) (user : User) (kept : Bool) where
  call_back-WriteDone :
      (w : World) (r a b f : ℕ) (c : EioCb) (q : EioReq) (s : Bytes)
      → IsReady env w
      → w.store.reqs r ≡ some q
      → q.type ≡ ReqType.write
      → is_neg q.result ≡ false
      → q.buf ≡ some b
      → w.php.blocks b ≡ some (bytes s)
      → w.php.blocks a ≡ some (cb c)
      → ((i : ℕ) → cb_refs i c ≤ w.php.objs i)
      → ((x : Args) (u : World) → user x u ≡ some (kept, u))
      → Returns (WriteDone w r a b c kept) (call_back env cloexec buffers user r q a c f w)
  unfolding call_back release_params
  call_back-WriteDone w r a b f c q s ready live t e at copy is counted polite =
      let p = add_ref (data_param c.arg) w.php in
      let g = add_ref-Takes (data_param c.arg) w.php in
      let w1 = copy_freed r b q (with_php w p) in
      let apart : a ≢ b = λ same. ground arith in
      let v1 =
        ran-StoreReady env w.store w1.store.reqs
          (record { hooks = λ k. ground (arith, live); nulls = λ k. ground (arith, live) }) ready in
      rw
        (
          write_value q buffers t e,
          write_effects cloexec r b q s (with_php w p) t e at (ground (arith, g.same_blocks b)),
        )
        (Returns.bind
          (register_resource-Registered w1.store v1.inv (ground (arith, v1.few)) r Kind.req
            (env.handle_address w1.store.handles) (record q { buf = none }) v1.ready (ground arith)
            v1.fresh)
          λ (id, u) d. rw (polite _ _) (
            Returns.bind
              (release_both a c w1.php (record {
                is = ground (arith, g.same_blocks a, apart);
                counted = λ i. omega (arith, g.refs i, counted i, refs_in-data_param c.arg i);
              }))
              λ p' f'.
                Returns.bind
                  (drop_req-Dropped u kept id d.inv (ground (arith, d.length_lem, ready.few)))
                  λ u' h. returns (record {
                    objs = λ i. omega (arith, f'.0 i, g.refs i, refs_in-data_param c.arg i);
                    blocks = λ k. ground (arith, f'.1 k, g.same_blocks k);
                    inv = h.inv;
                    targets = λ k. ground (arith, h.targets k, d.targets k, d.id);
                  })))

  -- In a world that is ready, for a live write request that was not cancelled and did not fail,
  -- with a copy of the bytes that was written, whose callback object holds a function and counted
  -- references, and with PHP code that leaves the state as it finds it: `php_eio_res_cb` does not
  -- fault. It frees the copy and the callback object and no other block, gives back exactly the
  -- references of the object, keeps the handles in order, and makes one new resource, which stands
  -- for the request where PHP code keeps it and for nothing where it does not.
  pub res_cb-WriteDone :
      (w : World) (r a b f : ℕ) (c : EioCb) (q : EioReq) (s : Bytes)
      → IsReady env w
      → w.store.reqs r ≡ some q
      → q.cb_data ≡ some a
      → q.cancelled ≡ false
      → q.type ≡ ReqType.write
      → is_neg q.result ≡ false
      → q.buf ≡ some b
      → w.php.blocks b ≡ some (bytes s)
      → w.php.blocks a ≡ some (cb c)
      → c.func.func_ptr ≡ some f
      → ((i : ℕ) → cb_refs i c ≤ w.php.objs i)
      → ((x : Args) (u : World) → user x u ≡ some (kept, u))
      → Returns (WriteDone w r a b c kept) (res_cb env cloexec buffers user r w)
  res_cb-WriteDone w r a b f c q s ready live data_of going t e at copy is has_func counted polite =
      rw (res_cb_calls env cloexec buffers user kept w r a f c q live data_of going is has_func)
        (call_back-WriteDone w r a b f c q s ready live t e at copy is counted polite)

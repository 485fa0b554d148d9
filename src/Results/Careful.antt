-- ===== src/Results/Careful.antt =====
-- PHP code that may do anything but harm the callback object and the handles.
use pecl_eio.Base.{
  ℕ, ◌+◌, ◌≤◌, ◌≡◌, Bool, true, false, none, some, arith, ◌==◌, if◌then◌else◌, ◌>>=◌, length, ◌∙◌,
}
use pecl_eio.Base.Int.{ℤ}
use pecl_eio.Base.Returns
use pecl_eio.Base.Returns.{Returns, returns}
use pecl_eio.Request.{EioReq, content}
use pecl_eio.Zend.{EioCb, cb, Php, add_ref, ptr_dtor}
use pecl_eio.Callbacks.{free_eio_cb}
use pecl_eio.Callbacks.Balance.{refs_in, add_ref-Takes, ptr_dtor-Gives}
use pecl_eio.Handles.{target}
use pecl_eio.Handles.Resources.{Kind}
use pecl_eio.Handles.Inv.{Inv, Few}
use pecl_eio.Handles.Registering.{register_resource-Registered}
use pecl_eio.World.{World, Env, with_php, with_store}
use pecl_eio.World.Submission.{IsReady}
use pecl_eio.Results.{
  Buffers, Value, result_value, Args, User, data_param, call_back, release_params, res_cb,
}
use pecl_eio.Results.Release.{
  cb_refs, free_eio_cb-Freed, refs_in-data_param, drop_req-Dropped, touches, result_effects_none,
}
use pecl_eio.Results.Completion.{res_cb_calls}

-- The object `c` is at `a`, and it and the parameter `$data` hold references that are counted.
pub record Holds (a : ℕ) (c : EioCb) (p : Php) : Type 0 where
  pub is : p.blocks a ≡ some (cb c)
  pub counted : (i : ℕ) → cb_refs i c + refs_in i c.arg ≤ p.objs i

-- The state in which PHP code is called, in the world `w`, for the request at `r`.
pub record Entered (w : World) (r a : ℕ) (c : EioCb) (u : World) : Type 0 where
  pub inv : Inv u.store
  pub one_more : length u.store.resources ≡ length w.store.resources + 1
  pub ready : u.store.ready ≡ true
  pub stands : target u.store w.store.next_id ≡ some r
  pub same_reqs : (k : ℕ) → content (u.store.reqs k) ≡ content (w.store.reqs k)
  pub holds : Holds a c u.php

-- What PHP code has to leave in order.
pub record Left (a : ℕ) (c : EioCb) (out : Bool × World) : Type 0 where
  pub inv : Inv out.1.store
  pub few : Few out.1.store
  pub holds : Holds a c out.1.php

-- The object at `a` is freed, with its references and that of `$data`, from what PHP code left.
pub record Settled (a : ℕ) (c : EioCb) (w' : World) : Type 0 where
  pub inv : Inv w'.store
  pub left : Php
  pub objs : (i : ℕ) → left.objs i ≡ w'.php.objs i + (cb_refs i c + refs_in i c.arg)
  pub blocks : (k : ℕ) → w'.php.blocks k ≡ (if a == k then none else left.blocks k)

pub release_both :
    (a : ℕ) (c : EioCb) (p : Php)
    → Holds a c p
    → Returns
        (λ p'.
          ((i : ℕ) → p.objs i ≡ p'.objs i + (cb_refs i c + refs_in i c.arg))
          × ((k : ℕ) → p'.blocks k ≡ (if a == k then none else p.blocks k)))
        (free_eio_cb (some a) p >>= ptr_dtor (data_param c.arg))
release_both a c p h =
    Returns.bind (free_eio_cb-Freed a c p h.is (λ i. omega (arith, h.counted i))) λ q f.
      Returns.mono
        (ptr_dtor-Gives (data_param c.arg) q
          (λ i. omega (arith, f.objs i, h.counted i, refs_in-data_param c.arg i)))
        λ p' g. (
          λ i. omega (arith, f.objs i, g.refs i, refs_in-data_param c.arg i),
          λ k. ground (arith, f.blocks k, g.same_blocks k),
        )

module _ (env : Env) (cloexec : ℤ → Bool) (b : Buffers) (user : User) where
  release_params-Settled :
      (a id : ℕ) (c : EioCb) (out : Bool × World)
      → Left a c out
      → Returns (Settled a c) (release_params env cloexec b user a (data_param c.arg) id out)
  unfolding release_params
  release_params-Settled a id c (kept, u) l = Returns.bind (release_both a c u.php l.holds) λ p f.
      Returns.bind (drop_req-Dropped u.store kept id l.inv l.few)
        λ s d. returns (record { inv = d.inv; left = u.php; objs = f.0; blocks = f.1 })

  call_back-Settled :
      (w : World) (r a f : ℕ) (c : EioCb) (q : EioReq) (v : Value)
      → IsReady env w
      → w.store.reqs r ≡ some q
      → w.php.blocks a ≡ some (cb c)
      → ((i : ℕ) → cb_refs i c ≤ w.php.objs i)
      → touches q.type ≡ false
      → result_value q b ≡ some v
      → ((x : Args) (u : World) → Entered w r a c u → Returns (Left a c) (user x u))
      → Returns (Settled a c) (call_back env cloexec b user r q a c f w)
  unfolding call_back
  call_back-Settled w r a f c q v ready live is counted quiet value careful =
      let p = add_ref (data_param c.arg) w.php in
      let t = add_ref-Takes (data_param c.arg) w.php in
      rw (value, result_effects_none cloexec r q (with_php w p) quiet)
        (Returns.bind
          (register_resource-Registered w.store ready.inv (ground (arith, ready.few)) r Kind.req
            (env.handle_address w.store.handles) q ready.ready live ready.fresh)
          λ (id, s) d.
            Returns.bind
              (careful _ (with_store (with_php w p) s) (record {
                inv = d.inv;
                one_more = d.length_lem;
                ready = d.same_ready ∙ ready.ready;
                stands = ground (arith, d.targets w.store.next_id);
                same_reqs = d.same_reqs;
                holds = record {
                  is = ground (arith, t.same_blocks a);
                  counted = λ i. omega (arith, t.refs i, counted i, refs_in-data_param c.arg i);
                };
              }))
              λ out l. release_params-Settled a id c out l)

  -- In a world that is ready, for a live request that was not cancelled, that is neither an open
  -- nor a write, and whose callback object holds a function and counted references, with buffers as
  -- long as the result says, and PHP code that, called with a new resource for the request and
  -- handles in order, returns with the handles in order, with fewer than 2^32 - 2 resources, and
  -- with the callback object and its references in place: `php_eio_res_cb` does not fault. From the
  -- memory that PHP code left, exactly the callback object and its references and the reference of
  -- `$data` are given back, and the handles stay in order.
  pub res_cb-Settled :
      (w : World) (r a f : ℕ) (c : EioCb) (q : EioReq) (v : Value)
      → IsReady env w
      → w.store.reqs r ≡ some q
      → q.cb_data ≡ some a
      → q.cancelled ≡ false
      → w.php.blocks a ≡ some (cb c)
      → c.func.func_ptr ≡ some f
      → ((i : ℕ) → cb_refs i c ≤ w.php.objs i)
      → touches q.type ≡ false
      → result_value q b ≡ some v
      → ((x : Args) (u : World) → Entered w r a c u → Returns (Left a c) (user x u))
      → Returns (Settled a c) (res_cb env cloexec b user r w)
  res_cb-Settled w r a f c q v ready live data_of going is has_func counted quiet value careful =
      rw (res_cb_calls env cloexec b user true w r a f c q live data_of going is has_func)
        (call_back-Settled w r a f c q v ready live is counted quiet value careful)

-- ===== src/Custom/Completion.antt =====
-- The completion of a custom request, with PHP code that leaves the state as it finds it.
use pecl_eio.Base.{
  length, ap, ℕ, ◌+◌, ◌≤◌, ◌≡◌, refl, Bool, false, ◌||◌, Option, none, some, arith, ◌==◌,
  if◌then◌else◌, ◌>>=◌, ◌∙◌,
}
use pecl_eio.Base.Returns
use pecl_eio.Base.Returns.{Returns, returns}
use pecl_eio.Request.{is_live, content, EioReq}
use pecl_eio.Zend.{Zval, object, EioCbCustom, cb_custom, Php, add_ref, ptr_dtor}
use pecl_eio.Callbacks.Balance.{refs_in, add_ref-Takes, ptr_dtor-Gives}
use pecl_eio.Handles.{target}
use pecl_eio.Handles.Resources.{Kind}
use pecl_eio.Handles.Inv.{Inv}
use pecl_eio.Handles.Registering.{register_resource-Registered}
use pecl_eio.World.{World, Env}
use pecl_eio.World.Submission.{IsReady}
use pecl_eio.Results.{data_param}
use pecl_eio.Results.Release.{drop_req-Dropped}
use pecl_eio.Api.Control.{is_locked}
use pecl_eio.Custom.{
  CustomArgs, CustomUser, result_param, release_result, call_custom, complete_custom, res_cb_custom,
}
use pecl_eio.Custom.Release.{
  Releases, Releases-trans, Releases-same, nowhere, custom_refs, at_buf,
  free_eio_cb_custom-Releases, release_result-Releases,
}

-- The parameters `$data` and `$result` are given back: of the first a reference was taken, of the
-- second none.
params-Releases :
    (arg z : Zval) (p : Php)
    → ((i : ℕ) → refs_in i z ≤ p.objs i)
    → Returns (Releases (λ i. refs_in i z) nowhere p) (ptr_dtor arg (add_ref arg p) >>= ptr_dtor z)
params-Releases arg z p counted =
    let t = add_ref-Takes arg p in
    Returns.bind (ptr_dtor-Gives arg (add_ref arg p) (λ i. omega (arith, t.refs i))) λ q g.
      Returns.mono (ptr_dtor-Gives z q (λ i. omega (arith, counted i, t.refs i, g.refs i))) λ r h.
        record {
          objs = λ i. omega (arith, t.refs i, g.refs i, h.refs i);
          blocks = λ k. ground (arith, t.same_blocks k, g.same_blocks k, h.same_blocks k);
          errors = ground (arith, t.same_errors, g.same_errors, h.same_errors);
          thrown = ground (arith, t.same_thrown, g.same_thrown, h.same_thrown);
          warnings = ground (arith, t.same_warnings, g.same_warnings, h.same_warnings);
        }

-- What the call of the callback of the request at `r`, with the result `z`, leaves.
pub record Called (w : World) (r : ℕ) (q : EioReq) (z : Zval) (kept : Bool) (w' : World)
    : Type 0 where
  pub released : Releases (λ i. refs_in i z) nowhere w.php w'.php
  pub inv : Inv w'.store
  pub targets :
      (k : ℕ)
      → target w'.store k
        ≡ (if w.store.next_id == k then (if kept then some r else none) else target w.store k)
  pub same_reqs : (k : ℕ) → content (w'.store.reqs k) ≡ content (w.store.reqs k)
  pub same_length : length w'.store.resources ≡ length w.store.resources + 1
  pub still : EioReq
  pub at_r : w'.store.reqs r ≡ some still
  pub same_buf : still.buf ≡ q.buf

module _ (env : Env) (user : CustomUser) (kept : Bool) where
  -- PHP code that leaves the state as it finds it.
  abbrev pub Polite : Type 0
  Polite = (x : CustomArgs) (u : World) → user x u ≡ some (kept, u)

  call_custom-Called :
      (w : World) (r f : ℕ) (q : EioReq) (c : EioCbCustom) (z : Zval)
      → Polite
      → IsReady env w
      → w.store.reqs r ≡ some q
      → c.func.func_ptr ≡ some f
      → result_param q.buf (add_ref (data_param c.arg) w.php) ≡ some z
      → ((i : ℕ) → refs_in i z ≤ w.php.objs i)
      → Returns (Called w r q z kept) (call_custom env user r q c w)
  unfolding call_custom
  call_custom-Called w r f q c z polite v live has_func value counted =
      rw (has_func, call_custom)
        (rw value (
          Returns.bind
            (register_resource-Registered w.store v.inv (ground (arith, v.few)) r Kind.req
              (env.handle_address w.store.handles) q v.ready live v.fresh)
            λ (id, s) d.
              let (q', live') = is_live (s.reqs r) q (ground (arith, d.same_reqs r)) in
              rw (polite _ _) (
                Returns.bind (params-Releases (data_param c.arg) z w.php counted) λ p e.
                  Returns.bind
                    (drop_req-Dropped s kept id d.inv (ground (arith, d.length_lem, v.few)))
                    λ t g. returns (record {
                      released = e;
                      inv = g.inv;
                      targets = λ k. ground (arith, g.targets k, d.targets k, d.id);
                      same_reqs = λ k. ap (λ m. content (m k)) g.same_reqs ∙ d.same_reqs k;
                      same_length = g.same_length ∙ d.length_lem;
                      still = q';
                      at_r = ap (λ m. m r) g.same_reqs ∙ live';
                      same_buf = ground (arith, d.same_bufs r);
                    }))))

result_param-same :
    (o : Option ℕ) (p p' : Php)
    → ((k : ℕ) → p'.blocks k ≡ p.blocks k)
    → result_param o p' ≡ result_param o p
unfolding result_param
result_param-same none p p' h = refl
result_param-same (some b) p p' h = rw (h b) refl

-- The block of the result is not that of the callback object.
result_apart :
    (o : Option ℕ) (p : Php) (z : Zval) (a : ℕ) (c : EioCbCustom)
    → result_param o p ≡ some z
    → p.blocks a ≡ some (cb_custom c)
    → at_buf o a ≡ false
unfolding result_param
result_apart none p z a c e h = refl
result_apart (some b) p z a c e h = ground arith

-- What the completion of a custom request leaves. The reference that the request holds to its
-- result `z` is given back twice.
pub record Completed (w : World) (r a : ℕ) (q : EioReq) (c : EioCbCustom) (z : Zval) (kept : Bool)
    (w' : World) : Type 0 where
  pub released :
      Releases
        (λ i. refs_in i z + refs_in i z + custom_refs i c)
        (λ k. at_buf q.buf k || a == k)
        w.php
        w'.php
  pub inv : Inv w'.store
  pub targets :
      (k : ℕ)
      → target w'.store k
        ≡ (if w.store.next_id == k then (if kept then some r else none) else target w.store k)
  pub same_reqs : (k : ℕ) → content (w'.store.reqs k) ≡ content (w.store.reqs k)
  pub same_length : length w'.store.resources ≡ length w.store.resources + 1

module _ (env : Env) (user : CustomUser) (kept : Bool) where
  complete_custom-Completed :
      (w : World) (r a f : ℕ) (q : EioReq) (c : EioCbCustom) (z : Zval)
      → Polite env user kept
      → IsReady env w
      → w.store.reqs r ≡ some q
      → w.php.blocks a ≡ some (cb_custom c)
      → c.func.func_ptr ≡ some f
      → result_param q.buf w.php ≡ some z
      → ((i : ℕ) → refs_in i z + refs_in i z + custom_refs i c ≤ w.php.objs i)
      → Returns (Completed w r a q c z kept) (complete_custom env user r q a w)
  unfolding complete_custom
  complete_custom-Completed w r a f q c z polite v live is has_func value counted =
      let t = add_ref-Takes (data_param c.arg) w.php in
      rw is (
        Returns.bind
          (call_custom-Called env user kept w r f q c z polite v live has_func
            (result_param-same q.buf w.php _ t.same_blocks ∙ value) (λ i. omega (arith, counted i)))
          λ w1 d.
            let same = result_param-same q.buf w.php w1.php (λ k. d.released.blocks k) ∙ value in
            let apart = result_apart q.buf w.php z a c value is in
            rw (d.at_r, d.same_buf)
              (Returns.bind
                (Returns.bind
                  (release_result-Releases q.buf z w1.php same
                    (λ i. omega (arith, counted i, d.released.objs i)))
                  λ p e.
                    Returns.mono
                      (free_eio_cb_custom-Releases a c p
                        (ground (arith, e.blocks a, d.released.blocks a))
                        (λ i. omega (arith, counted i, d.released.objs i, e.objs i)))
                      λ p' g. Releases-trans e g)
                λ p' g. returns (record {
                  released =
                      Releases-same (λ i. omega arith) (λ k. refl) (Releases-trans d.released g);
                  inv = d.inv;
                  targets = d.targets;
                  same_reqs = d.same_reqs;
                  same_length = d.same_length;
                })))

  res_cb_custom_calls :
      (w : World) (r a : ℕ) (q : EioReq) (c : EioCbCustom)
      → w.store.reqs r ≡ some q
      → q.cb_data ≡ some a
      → w.php.blocks a ≡ some (cb_custom c)
      → q.cancelled ≡ false
      → res_cb_custom env user r w ≡ complete_custom env user r q a w
  unfolding res_cb_custom is_locked
  res_cb_custom_calls w r a q c live data_of is going = ground arith

  -- In a world that is ready, for a live custom request that was not cancelled and whose callback
  -- object holds a function, with PHP code that leaves the state as it finds it, and where the
  -- result has at least two references beside those of the callback object: the completion does not
  -- fault, frees the callback object with its references and the block of the result, gives the
  -- reference of the request to its result back twice, keeps the handles in order, and makes one
  -- new resource, which stands for the request where PHP code keeps it and for nothing where it
  -- does not.
  pub res_cb_custom-Completed :
      (w : World) (r a f : ℕ) (q : EioReq) (c : EioCbCustom) (z : Zval)
      → Polite env user kept
      → IsReady env w
      → w.store.reqs r ≡ some q
      → q.cb_data ≡ some a
      → q.cancelled ≡ false
      → w.php.blocks a ≡ some (cb_custom c)
      → c.func.func_ptr ≡ some f
      → result_param q.buf w.php ≡ some z
      → ((i : ℕ) → refs_in i z + refs_in i z + custom_refs i c ≤ w.php.objs i)
      → Returns (Completed w r a q c z kept) (res_cb_custom env user r w)
  res_cb_custom-Completed w r a f q c z polite v live data_of going is has_func value counted =
      rw (res_cb_custom_calls w r a q c live data_of is going)
        (complete_custom-Completed w r a f q c z polite v live is has_func value counted)

release_result-none :
    (o : Option ℕ) (j : ℕ) (p : Php)
    → result_param o p ≡ some (object j)
    → p.objs j ≡ 0
    → release_result o p ≡ none
unfolding release_result result_param ptr_dtor
release_result-none none j p is zero_refs = cc
release_result-none (some b) j p is zero_refs = rw (is, zero_refs) refl

-- In a world that is ready, for a live custom request that was not cancelled, whose callback object
-- holds a function, and whose result is an object with one reference, that of the request: with PHP
-- code that leaves the state as it finds it, the completion faults, since it releases an object
-- that is freed.
pub res_cb_custom-over_released :
    (env : Env) (user : CustomUser) (kept : Bool) (w : World) (r a f j : ℕ) (q : EioReq)
    (c : EioCbCustom)
    → Polite env user kept
    → IsReady env w
    → w.store.reqs r ≡ some q
    → q.cb_data ≡ some a
    → q.cancelled ≡ false
    → w.php.blocks a ≡ some (cb_custom c)
    → c.func.func_ptr ≡ some f
    → result_param q.buf w.php ≡ some (object j)
    → w.php.objs j ≡ 1
    → res_cb_custom env user r w ≡ none
unfolding complete_custom
res_cb_custom-over_released env user kept w r a f j q c polite v live data_of going is has_func
      value only =
    let t = add_ref-Takes (data_param c.arg) w.php in
    rw (res_cb_custom_calls env user kept w r a q c live data_of is going, complete_custom)
      (rw is (
        Returns.faults
          (call_custom-Called env user kept w r f q c (object j) polite v live has_func
            (result_param-same q.buf w.php _ t.same_blocks ∙ value) (λ i. ground arith))
          λ w1 d.
            let same = result_param-same q.buf w.php w1.php (λ k. d.released.blocks k) ∙ value in
            rw
              (
                d.at_r,
                d.same_buf,
                release_result-none q.buf j w1.php same (ground (arith, d.released.objs j)),
              )
              refl))

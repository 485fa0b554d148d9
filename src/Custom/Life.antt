-- ===== src/Custom/Life.antt =====
-- A custom request from its execution to its completion.
use pecl_eio.Base.{
  length, ◌+◌, ap, ◌<◌, ◌^◌, ℕ, ◌≤◌, ◌≡◌, refl, Bool, true, false, Option, none, some, arith, ◌==◌,
  if◌then◌else◌, ◌>>=◌, ◌∙◌,
}
use pecl_eio.Base.Returns
use pecl_eio.Base.Returns.{Returns, returns}
use pecl_eio.Request.{EioReq}
use pecl_eio.Zend.{Zval, null, EioCbCustom, cb_custom, zval, Php}
use pecl_eio.Callbacks.Balance.{refs_in}
use pecl_eio.Handles.{Store}
use pecl_eio.Handles.Inv.{Inv}
use pecl_eio.World.{World, Env}
use pecl_eio.World.Submission.{IsReady, StoreReady}
use pecl_eio.World.Running.{ran-StoreReady}
use pecl_eio.Results.Finishing.{Between}
use pecl_eio.Handles.{target}
use pecl_eio.Custom.{Stack, Exec, CustomUser, custom_execute, res_cb_custom, result_param}
use pecl_eio.Custom.Release.{Releases, custom_refs, at_buf}
use pecl_eio.Custom.Execution.{
  Executed, ReturnsOnly, ret_refs, at_ret, stored_req, custom_execute-Executed,
}
use pecl_eio.Custom.Completion.{Completed, Polite, res_cb_custom-Completed}

-- To change a request but for its destroy function keeps the handles in order.
changed-IsReady :
    (env : Env) (s t : Store) (r : ℕ) (q q' : EioReq)
    → StoreReady env s
    → s.reqs r ≡ some q
    → q'.destroy ≡ q.destroy
    → ((k : ℕ) → t.reqs k ≡ (if r == k then some q' else s.reqs k))
    → t ≡ record s { reqs = t.reqs }
    → StoreReady env t
changed-IsReady env s t r q q' v live same m e = rw e (
    ran-StoreReady env s t.reqs
      (record { hooks = λ k. ground (arith, m k); nulls = λ k. ground (arith, m k) }) v)

abbrev ret_value : Option Zval → Zval
ret_value none = null
ret_value (some z) = z

kept_value :
    (b : ℕ) (ret : Option Zval) (q : EioReq) (p : Php)
    → q.buf ≡ none
    → ((z : Zval) → ret ≡ some z → p.blocks b ≡ some (zval z))
    → result_param (stored_req b ret q).buf p ≡ some (ret_value ret)
unfolding result_param
kept_value b none q p e h = rw e refl
kept_value b (some z) q p e h = rw (h z refl) refl

value_refs : (ret : Option Zval) (i : ℕ) → refs_in i (ret_value ret) ≡ ret_refs i ret
value_refs none i = refl
value_refs (some z) i = refl

same_destroy : (b : ℕ) (ret : Option Zval) (q : EioReq) → (stored_req b ret q).destroy ≡ q.destroy
same_destroy b none q = refl
same_destroy b (some z) q = refl

same_data : (b : ℕ) (ret : Option Zval) (q : EioReq) → (stored_req b ret q).cb_data ≡ q.cb_data
same_data b none q = refl
same_data b (some z) q = refl

same_cancelled :
    (b : ℕ) (ret : Option Zval) (q : EioReq) → (stored_req b ret q).cancelled ≡ q.cancelled
same_cancelled b none q = refl
same_cancelled b (some z) q = refl

buf_at :
    (b : ℕ) (ret : Option Zval) (q : EioReq) (k : ℕ)
    → q.buf ≡ none
    → at_buf (stored_req b ret q).buf k ≡ at_ret b ret k
buf_at b none q k e = rw e refl
buf_at b (some z) q k e = refl

at_ret_only : (b : ℕ) (ret : Option Zval) (k : ℕ) → at_ret b ret k ≡ true → b ≡ k
at_ret_only b none k h = cc
at_ret_only b (some z) k h = ground arith

-- Both halves together.
both :
    (w w' w'' : World) (r a b : ℕ) (q : EioReq) (c : EioCbCustom) (ret : Option Zval) (kept : Bool)
    → ((i : ℕ) → ret_refs i ret ≡ 0)
    → q.buf ≡ none
    → w.php.blocks b ≡ none
    → Executed w r a b q c ret w'
    → Completed w' r a (stored_req b ret q) (record c { locked = true }) (ret_value ret) kept w''
    → Releases (λ i. custom_refs i c) (λ k. a == k) w.php w''.php
both w w' w'' r a b q c ret kept scalar no_buf unused x d = record {
  objs = λ i. omega (arith, x.objs i, d.released.objs i, scalar i, value_refs ret i);
  blocks = λ k.
      ground (arith, d.released.blocks k, x.others k, buf_at b ret q k no_buf, at_ret_only b ret k);
  errors = d.released.errors ∙ x.same_errors;
  thrown = d.released.thrown ∙ x.same_thrown;
  warnings = ground (arith, d.released.warnings, x.same_warnings);
}

between :
    (w w' w'' : World) (r a b : ℕ) (q : EioReq) (c : EioCbCustom) (ret : Option Zval) (kept : Bool)
    → ((i : ℕ) → ret_refs i ret ≡ 0)
    → q.buf ≡ none
    → w.php.blocks b ≡ none
    → length w.store.resources + 3 < 2 ^ 32
    → Executed w r a b q c ret w'
    → Completed w' r a (stored_req b ret q) (record c { locked = true }) (ret_value ret) kept w''
    → Between (Releases (λ i. custom_refs i c) (λ k. a == k)) w r w''
between w w' w'' r a b q c ret kept scalar no_buf unused few x d = record {
  released = both w w' w'' r a b q c ret kept scalar no_buf unused x d;
  inv = d.inv;
  few = ground (arith, d.same_length, ap (λ s. length s.resources) x.same_store, few);
  others = λ k ne.
      ground
        (arith, d.targets k, ap (λ s. s.next_id) x.same_store, ap (λ s. target s k) x.same_store);
  still = ground (arith, d.same_reqs r, x.request r);
  same_reqs = λ k ne. ground (arith, d.same_reqs k, x.request k);
}

-- The request after both halves.
pub custom_life-Between :
    (env : Env) (exec : Exec) (user : CustomUser) (ret : Option Zval) (kept : Bool)
    (own stack : Stack) (w : World) (r a b f g : ℕ) (q : EioReq) (c : EioCbCustom)
    → ReturnsOnly env exec ret
    → Polite env user kept
    → ((i : ℕ) → ret_refs i ret ≡ 0)
    → ((p : Php) → env.buf_address p ≡ b)
    → w.php.blocks b ≡ none
    → IsReady env w
    → w.store.reqs r ≡ some q
    → q.cb_data ≡ some a
    → q.cancelled ≡ false
    → q.buf ≡ none
    → w.php.blocks a ≡ some (cb_custom c)
    → c.func_exec.func_ptr ≡ some f
    → c.func.func_ptr ≡ some g
    → ((i : ℕ) → custom_refs i c ≤ w.php.objs i)
    → Returns
        (Between (Releases (λ i. custom_refs i c) (λ k. a == k)) w r)
        (custom_execute env exec own r (stack, w) >>= λ (after, w'). res_cb_custom env user r w')
custom_life-Between env exec user ret kept own stack w r a b f g q c calm polite scalar place unused
      v live data_of going no_buf is has_exec has_func counted =
    Returns.bind
      (custom_execute-Executed env exec ret own stack w r a b f q c calm place (ground arith) live
        data_of going is has_exec)
      λ (after, w') (same, x).
        Returns.mono
          (res_cb_custom-Completed env user kept w' r a g (stored_req b ret q)
            (record c { locked = true }) (ret_value ret) polite
            (changed-IsReady env w.store w'.store r q (stored_req b ret q) v live
              (same_destroy b ret q) x.request x.same_store)
            (ground (arith, x.request r)) (same_data b ret q ∙ data_of)
            (same_cancelled b ret q ∙ going) x.locked has_func
            (kept_value b ret q w'.php no_buf x.stored)
            (λ i. omega (arith, counted i, x.objs i, scalar i, value_refs ret i)))
          λ w'' d.
            between w w' w'' r a b q c ret kept scalar no_buf unused (ground (arith, v.few)) x d

-- In a world that is ready, for a live custom request that was not cancelled, has no result yet,
-- and whose callback object holds both functions and counted references, with an allocator whose
-- place for the result is unused, and PHP code that changes nothing but that the first callback
-- returns a value without references or nothing: execution and then completion do not fault, give
-- back exactly the references of the callback object, free exactly this object among the blocks
-- that were there, and keep the handles in order.
pub custom_life-Releases :
    (env : Env) (exec : Exec) (user : CustomUser) (ret : Option Zval) (kept : Bool)
    (own stack : Stack) (w : World) (r a b f g : ℕ) (q : EioReq) (c : EioCbCustom)
    → ReturnsOnly env exec ret
    → Polite env user kept
    → ((i : ℕ) → ret_refs i ret ≡ 0)
    → ((p : Php) → env.buf_address p ≡ b)
    → w.php.blocks b ≡ none
    → IsReady env w
    → w.store.reqs r ≡ some q
    → q.cb_data ≡ some a
    → q.cancelled ≡ false
    → q.buf ≡ none
    → w.php.blocks a ≡ some (cb_custom c)
    → c.func_exec.func_ptr ≡ some f
    → c.func.func_ptr ≡ some g
    → ((i : ℕ) → custom_refs i c ≤ w.php.objs i)
    → Returns
        (λ w''. Releases (λ i. custom_refs i c) (λ k. a == k) w.php w''.php × Inv w''.store)
        (custom_execute env exec own r (stack, w) >>= λ (after, w'). res_cb_custom env user r w')
custom_life-Releases env exec user ret kept own stack w r a b f g q c calm polite scalar place
      unused v live data_of going no_buf is has_exec has_func counted =
    Returns.mono
      (custom_life-Between env exec user ret kept own stack w r a b f g q c calm polite scalar place
        unused v live data_of going no_buf is has_exec has_func counted)
      λ w'' d. (d.released, d.inv)

-- ===== src/Custom/Whole.antt =====
-- A custom request from `eio_custom` to the end that libeio puts to it.
use pecl_eio.Base.{ℕ, ◌≡◌, refl, sym, ap, Bool, false, Option, none, some, arith, ◌==◌, ◌>>=◌, ◌∙◌}
use pecl_eio.Base.Int.{ℤ}
use pecl_eio.Base.Returns
use pecl_eio.Base.Returns.{Returns, returns, result}
use pecl_eio.Request.{EioReq, Reqs, content, Frees}
use pecl_eio.Zend.{Zval, EioCbCustom, cb_custom, Php}
use pecl_eio.Callbacks.{new_eio_cb_custom}
use pecl_eio.Callbacks.Lifetime.{Restored}
use pecl_eio.Callbacks.Storing.{StoredCustom, new_eio_cb_custom-Stored}
use pecl_eio.Handles.{target}
use pecl_eio.Handles.Resources.{Kind}
use pecl_eio.Handles.Destroying.{without}
use pecl_eio.World.{
  World, Env, IsEnv, Call, type_of, resource_id, send, ret_resource, with_php, bails, initialized,
}
use pecl_eio.World.Submission.{IsReady, send-Outcome}
use pecl_eio.World.Running.{ran-StoreReady}
use pecl_eio.Api.Special.{eio_custom}
use pecl_eio.Results.Finishing.{destroyed, destroyed-Finished}
use pecl_eio.Results.Life.{Ran, Over, after_run, content_type}
use pecl_eio.Custom.{Stack, Exec, CustomUser, custom_execute, res_cb_custom}
use pecl_eio.Custom.Release.{Releases, custom_refs}
use pecl_eio.Custom.Execution.{ReturnsOnly, ret_refs}
use pecl_eio.Custom.Completion.{Polite}
use pecl_eio.Custom.Life.{custom_life-Between}

-- The memory after the object was released, where it was made.
Releases-Restored :
    (p p1 p' : Php) (a : ℕ) (c : EioCbCustom) (s : StoredCustom p a p1)
    → s.made ≡ c
    → p.blocks a ≡ none
    → Releases (λ i. custom_refs i c) (λ k. a == k) p1 p'
    → Restored p p'
Releases-Restored p p1 p' a c s same unused d = record {
  objs = λ i. omega (arith, d.objs i, s.objs i, ap (custom_refs i) same);
  blocks = λ k. ground (arith, d.blocks k, s.blocks k);
  errors = d.errors ∙ s.errors;
  thrown = d.thrown ∙ s.thrown;
  warnings = d.warnings ∙ s.warnings;
}

same_php_stored : (p q q' : Php) (a : ℕ) → q' ≡ q → StoredCustom p a q → StoredCustom p a q'
same_php_stored p q q' a e s = rw e s

module _ (env : Env) (is : IsEnv env) where
  eio_custom_lem :
      (zcb_exec : Option Zval) (pri : ℤ) (zcb arg : Option Zval) (w : World) (a : ℕ) (p : Php)
      → bails env w ≡ false
      → new_eio_cb_custom env.is_callable (env.cb_address w.php) zcb zcb_exec arg w.php
        ≡ some (some a, p)
      → eio_custom env zcb_exec pri zcb arg w
        ≡ ret_resource env Kind.req
            (send env Call.custom pri (some a) none (with_php (initialized env w) p))
  unfolding eio_custom
  eio_custom_lem zcb_exec pri zcb arg w a p ok made = rw (ok, made) refl

  module _ (f : Frees env.lib) (exec : Exec) (user : CustomUser) (ret : Option Zval)
      (kept : Bool) where
    -- In a world that is ready, with allocators that return unused memory, a destroy function of
    -- libeio that frees exactly its request, and where the initialization reports no fatal error:
    -- where `eio_custom` makes a request with a callback object that holds both functions, the
    -- place for the result is unused, the extension may be called again, libeio keeps types,
    -- callback objects and destroy functions and does not cancel the request or give it a buffer,
    -- and PHP code changes nothing but that the function to execute returns a value without
    -- references or nothing, then the execution, the completion and the destroy function of the
    -- request do not fault. Every reference count and every block of memory is as it was before
    -- `eio_custom` was called; the request is gone, no resource stands for it, every resource
    -- beside the two that were made stands for what it stood for, and the handles are in order.
    pub custom_whole-Over :
        (own stack : Stack) (zcb_exec : Option Zval) (pri : ℤ) (zcb arg : Option Zval)
        (w w1 : World) (a b r id g h : ℕ) (p : Php) (c : EioCbCustom) (m : Reqs) (q : EioReq)
        → ReturnsOnly env exec ret
        → Polite env user kept
        → ((i : ℕ) → ret_refs i ret ≡ 0)
        → ((p : Php) → env.buf_address p ≡ b)
        → IsReady env w
        → bails env w ≡ false
        → new_eio_cb_custom env.is_callable (env.cb_address w.php) zcb zcb_exec arg w.php
          ≡ some (some a, p)
        → p.blocks a ≡ some (cb_custom c)
        → p.blocks b ≡ none
        → c.func_exec.func_ptr ≡ some g
        → c.func.func_ptr ≡ some h
        → eio_custom env zcb_exec pri zcb arg w ≡ some (resource_id id, w1)
        → target w1.store id ≡ some r
        → IsReady env w1
        → Ran w1.store.reqs m
        → m r ≡ some q
        → q.cancelled ≡ false
        → q.buf ≡ none
        → Returns (Over w w1 r id) (
            (custom_execute env exec own r (stack, after_run w1 m) >>= λ (after, w').
            res_cb_custom env user r w')
            >>= destroyed env r)
    custom_whole-Over own stack zcb_exec pri zcb arg w w1 a b r id g h p c m q calm polite scalar
          place ready ok made at_a unused has_exec has_func asked stands again ran live going
          no_buf =
        let ((inv, d), same_php) =
          result
            (send-Outcome env is (with_php (initialized env w) p) Kind.req Call.custom pri (some a)
              none ready)
            (sym (eio_custom_lem zcb_exec pri zcb arg w a p ok made) ∙ asked) in
        let (address, stored) =
          new_eio_cb_custom-Stored env.is_callable (env.cb_address w.php) zcb zcb_exec arg w.php p a
            made in
        let s = same_php_stored w.php p w1.php a same_php stored in
        let same : s.made ≡ c = ground (arith, s.blocks a, ap (λ p. p.blocks a) same_php) in
        let at_r : d.entry.at ≡ r = ground (arith, d.stands) in
        let carries : content (m r) ≡ some (type_of d.entry.call, some a) =
          ran.same_content r ∙ ap (λ k. content (w1.store.reqs k)) (sym at_r) ∙ d.carries in
        Returns.bind
          (custom_life-Between env exec user ret kept own stack (after_run w1 m) r a b g h q c calm
            polite scalar place (ap (λ p. p.blocks b) same_php ∙ unused)
            (ran-StoreReady env w1.store m ran.hooks again) live
            (content_type (m r) q live carries).1 going no_buf
            (ap (λ p. p.blocks a) same_php ∙ at_a) has_exec has_func
            (λ i. omega (arith, s.objs i, ap (custom_refs i) same)))
          λ w2 e.
            Returns.mono
              (destroyed-Finished env f (Releases (λ i. custom_refs i c) (λ k. a == k))
                (after_run w1 m) w2 r e)
              λ w' z. record {
                restored =
                    Releases-Restored w.php w1.php w'.php a c s same (is.fresh_cb w.php a address)
                      z.released;
                inv = z.inv;
                ended = ground (arith, z.gone r);
                forgotten = z.forgotten;
                others = λ k ne nx. z.others k nx ∙ ap (without r) (d.others k ne);
              }

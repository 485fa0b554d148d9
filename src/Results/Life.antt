-- ===== src/Results/Life.antt =====
-- A request from the call that makes it to the end that libeio puts to it, with PHP code that leaves
-- the state as it finds it.
use pecl_eio.Base.{
  ℕ, ◌≡◌, ◌≢◌, ◌≤◌, refl, sym, ap, Bool, false, Option, none, some, arith, ◌>>=◌, ◌∙◌,
}
use pecl_eio.Base.Int.{ℤ}
use pecl_eio.Base.Returns
use pecl_eio.Base.Returns.{Returns, returns, result}
use pecl_eio.Request.{EioReq, Reqs, ReqType, content, Frees}
use pecl_eio.Zend.{Zval, EioCb, cb, Php}
use pecl_eio.Callbacks.{new_eio_cb}
use pecl_eio.Callbacks.Lifetime.{Restored}
use pecl_eio.Callbacks.Storing.{Stored, new_eio_cb-Stored}
use pecl_eio.Handles.{target}
use pecl_eio.Handles.Resources.{Kind}
use pecl_eio.Handles.Inv.{Inv}
use pecl_eio.Handles.Destroying.{without}
use pecl_eio.World.{
  World, Env, IsEnv, Call, type_of, resource_id, send, ret_resource, request, with_php, with_store,
}
use pecl_eio.World.Submission.{IsReady, Sent, send-Outcome}
use pecl_eio.World.Running.{SameHooks, ran-StoreReady}
use pecl_eio.Results.{Buffers, Value, result_value, Args, User, res_cb}
use pecl_eio.Results.Release.{cb_refs, Freed, touches}
use pecl_eio.Results.Finishing.{Finished, destroyed, finish-Finished}

-- libeio may change the requests, but not their types, callback objects and destroy functions.
pub record Ran (m m' : Reqs) : Type 0 where
  pub hooks : SameHooks m m'
  pub same_content : (k : ℕ) → content (m' k) ≡ content (m k)

abbrev pub after_run : World → Reqs → World
after_run w m = with_store w (record w.store { reqs = m })

-- Nothing is left of the request at `r`, which the resource `id` stood for.
pub record Over (w w1 : World) (r id : ℕ) (w' : World) : Type 0 where
  pub restored : Restored w.php w'.php
  pub inv : Inv w'.store
  pub ended : content (w'.store.reqs r) ≡ none
  pub forgotten : (k : ℕ) → target w'.store k ≢ some r
  pub others :
      (k : ℕ) → k ≢ id → k ≢ w1.store.next_id → target w'.store k ≡ without r (target w.store k)

-- What is known of the request once libeio ran it, and what is left when it is finished.
pub record Asked (w w1 : World) (a r id : ℕ) (m : Reqs) (q : EioReq) : Type 0 where
  pub made : EioCb
  pub data_of : q.cb_data ≡ some a
  pub is : w1.php.blocks a ≡ some (cb made)
  pub counted : (i : ℕ) → cb_refs i made ≤ w1.php.objs i
  pub over : (w' : World) → Finished (Freed a made) (after_run w1 m) r w' → Over w w1 r id w'

pub content_type :
    (o : Option EioReq) (q : EioReq) {t : ReqType}
    → {d : Option ℕ} → o ≡ some q
    → content o ≡ some (t, d)
    → (q.type ≡ t) × (q.cb_data ≡ d)
content_type o q is same = (ground arith, ground arith)

-- The memory after the object `c` was freed, where it was made.
Freed-Restored :
    (p p1 p' : Php) (a : ℕ) (s : Stored p a p1)
    → p.blocks a ≡ none
    → Freed a s.made p1 p'
    → Restored p p'
Freed-Restored p p1 p' a s unused f = record {
  objs = λ i. omega (arith, f.objs i, s.objs i);
  blocks = λ k. ground (arith, f.blocks k, s.blocks k);
  errors = f.errors ∙ s.errors;
  thrown = f.thrown ∙ s.thrown;
  warnings = f.warnings ∙ s.warnings;
}

same_memory : (p q q' : Php) (a : ℕ) → q' ≡ q → Stored p a q → Stored p a q'
same_memory p q q' a e s = rw e s

module _ (env : Env) (is : IsEnv env) where
  request_lem :
      (call : Call) (pri : ℤ) (zcb arg : Option Zval) (w : World) (c : Option ℕ) (p : Php)
      → new_eio_cb env.is_callable (env.cb_address w.php) zcb arg w.php ≡ (c, p)
      → request env call pri zcb arg w
        ≡ ret_resource env Kind.req (send env call pri c none (with_php w p))
  unfolding request
  request_lem call pri zcb arg w c p made = rw made refl

  request-Sent :
      (call : Call) (pri : ℤ) (zcb arg : Option Zval) (w w1 : World) (c : Option ℕ) (p : Php)
      (id : ℕ)
      → IsReady env w
      → new_eio_cb env.is_callable (env.cb_address w.php) zcb arg w.php ≡ (c, p)
      → request env call pri zcb arg w ≡ some (resource_id id, w1)
      → Sent c (with_php w p) (resource_id id, w1)
  request-Sent call pri zcb arg w w1 c p id v made e =
      result (send-Outcome env is (with_php w p) Kind.req call pri c none v)
        (sym (request_lem call pri zcb arg w c p made) ∙ e)

  pub request-Asked :
      (call : Call) (pri : ℤ) (zcb arg : Option Zval) (w w1 : World) (a r id : ℕ) (p : Php)
      (m : Reqs) (q : EioReq)
      → IsReady env w
      → new_eio_cb env.is_callable (env.cb_address w.php) zcb arg w.php ≡ (some a, p)
      → request env call pri zcb arg w ≡ some (resource_id id, w1)
      → target w1.store id ≡ some r
      → Ran w1.store.reqs m
      → m r ≡ some q
      → Asked w w1 a r id m q
  request-Asked call pri zcb arg w w1 a r id p m q ready made asked stands ran live =
      let ((inv, d), same_php) =
        request-Sent call pri zcb arg w w1 (some a) p id ready made asked in
      let (place, stored) =
        new_eio_cb-Stored env.is_callable (env.cb_address w.php) zcb arg w.php p a made in
      let s = same_memory w.php p w1.php a same_php stored in
      let at_r : d.entry.at ≡ r = ground (arith, d.stands) in
      let carries : content (m r) ≡ some (type_of d.entry.call, some a) =
        ran.same_content r ∙ ap (λ k. content (w1.store.reqs k)) (sym at_r) ∙ d.carries in
      record {
        made = s.made;
        data_of = (content_type (m r) q live carries).1;
        is = ground (arith, s.blocks a);
        counted = λ i. omega (arith, s.objs i);
        over = λ w' e. record {
          restored = Freed-Restored w.php w1.php w'.php a s (is.fresh_cb w.php a place) e.released;
          inv = e.inv;
          ended = ground (arith, e.gone r);
          forgotten = e.forgotten;
          others = λ k ne nx. e.others k nx ∙ ap (without r) (d.others k ne);
        };
      }

  module _ (f : Frees env.lib) (cloexec : ℤ → Bool) (b : Buffers) (user : User) (kept : Bool) where
    -- In a world that is ready, with allocators that return unused memory and a destroy function of
    -- libeio that frees exactly its request: where a function makes a request, other than an open
    -- or a write, with a callback object, and the extension may be called again, and libeio runs
    -- the request without touching types, callback objects and destroy functions, and the buffers
    -- are as long as the result says, and the PHP code of the callback leaves the state as it finds
    -- it, then the finish function of the request (whether it was cancelled or not, with a callback
    -- or without) and after it the destroy function do not fault. Every reference count and every
    -- block of memory is as it was before the function was called; the request is gone, no resource
    -- stands for it, every resource beside the two that were made stands for what it stood for, and
    -- the handles are in order.
    pub request_life-Over :
        (call : Call) (pri : ℤ) (zcb arg : Option Zval) (w w1 : World) (a r id : ℕ) (p : Php)
        (m : Reqs) (q : EioReq) (v : Value)
        → IsReady env w
        → new_eio_cb env.is_callable (env.cb_address w.php) zcb arg w.php ≡ (some a, p)
        → request env call pri zcb arg w ≡ some (resource_id id, w1)
        → target w1.store id ≡ some r
        → IsReady env w1
        → Ran w1.store.reqs m
        → m r ≡ some q
        → touches q.type ≡ false
        → result_value q b ≡ some v
        → ((x : Args) (u : World) → user x u ≡ some (kept, u))
        → Returns
            (Over w w1 r id)
            (res_cb env cloexec b user r (after_run w1 m) >>= destroyed env r)
    request_life-Over call pri zcb arg w w1 a r id p m q v ready made asked stands again ran live
          quiet value polite =
        let d = request-Asked call pri zcb arg w w1 a r id p m q ready made asked stands ran live in
        Returns.mono
          (finish-Finished env f cloexec b user kept (after_run w1 m) r a d.made q v
            (ran-StoreReady env w1.store m ran.hooks again) live d.data_of d.is d.counted quiet
            value polite)
          d.over

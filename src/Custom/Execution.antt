-- ===== src/Custom/Execution.antt =====
-- The execution of a custom request, with PHP code that leaves the state as it finds it but for
-- the value that it returns; and the execution followed by the completion.
use pecl_eio.Base.{
  ℕ, ◌+◌, ◌≡◌, ◌≢◌, refl, Bool, true, false, Option, none, some, arith, ◌==◌, if◌then◌else◌, ◌>>=◌,
  ==_self, write as write_at,
}
use pecl_eio.Base.Int.{pos, negsuc}
use pecl_eio.Base.Returns
use pecl_eio.Base.Returns.{Returns, returns}
use pecl_eio.Request.{EioReq}
use pecl_eio.Zend.{Zval, EioCbCustom, cb_custom, zval, Php, add_ref, ptr_dtor}
use pecl_eio.Callbacks.Balance.{refs_in, Takes, Takes-trans, add_ref-Takes, ptr_dtor-Gives}
use pecl_eio.World.{World, Env, with_php}
use pecl_eio.Results.{data_param}
use pecl_eio.Custom.{Stack, ExecArgs, Exec, lock, store_result, run_exec, custom_execute}

-- The references that a returned value holds.
abbrev pub ret_refs : ℕ → Option Zval → ℕ
ret_refs i none = 0
ret_refs i (some z) = refs_in i z

abbrev pub take_ret : Option Zval → Php → Php
take_ret none p = p
take_ret (some z) p = add_ref z p

take_ret-Takes : (ret : Option Zval) (p : Php) → Takes (λ i. ret_refs i ret) p (take_ret ret p)
take_ret-Takes none p = ground arith
take_ret-Takes (some z) p = add_ref-Takes z p

-- The request, and the memory, once the value `ret` is stored at `b`.
abbrev pub stored_req : ℕ → Option Zval → EioReq → EioReq
stored_req b none q = record q { result = negsuc 0 }
stored_req b (some z) q = record q { buf = some b; result = pos 0 }

abbrev pub at_ret : ℕ → Option Zval → ℕ → Bool
at_ret b none k = false
at_ret b (some z) k = b == k

-- What the execution leaves.
pub record Executed (w : World) (r a b : ℕ) (q : EioReq) (c : EioCbCustom) (ret : Option Zval)
    (w' : World) : Type 0 where
  pub objs : (i : ℕ) → w'.php.objs i ≡ w.php.objs i + ret_refs i ret
  pub locked : w'.php.blocks a ≡ some (cb_custom (record c { locked = true }))
  pub stored : (z : Zval) → ret ≡ some z → w'.php.blocks b ≡ some (zval z)
  pub others : (k : ℕ) → k ≢ a → at_ret b ret k ≡ false → w'.php.blocks k ≡ w.php.blocks k
  pub same_errors : w'.php.errors ≡ w.php.errors
  pub same_thrown : w'.php.thrown ≡ w.php.thrown
  pub same_warnings : w'.php.warnings ≡ w.php.warnings
  pub request :
      (k : ℕ) → w'.store.reqs k ≡ (if r == k then some (stored_req b ret q) else w.store.reqs k)
  pub same_store : w'.store ≡ record w.store { reqs = w'.store.reqs }

module _ (env : Env) (exec : Exec) (ret : Option Zval) where
  -- PHP code that changes nothing and returns `ret`, with a reference of its own.
  abbrev pub ReturnsOnly : Type 0
  ReturnsOnly = (x : ExecArgs) (u : World) → exec x u ≡ some (ret, with_php u (take_ret ret u.php))

  -- What follows the call of PHP code.
  abbrev exec_done : ℕ → Zval → Option Zval × World → Option World
  exec_done r arg (o, w) = do
    w ← store_result env r o w
    p ← ptr_dtor arg w.php
    some (with_php w p)

  run_exec_calls :
      (r f : ℕ) (c : EioCbCustom) (w : World)
      → ReturnsOnly
      → c.func_exec.func_ptr ≡ some f
      → run_exec env exec r c w
        ≡ exec_done r
            (data_param c.arg)
            (ret, with_php w (take_ret ret (add_ref (data_param c.arg) w.php)))
  unfolding run_exec
  run_exec_calls r f c w calm has_func =
      let arg = data_param c.arg in
      ground (
        arith,
        calm (record { func = f; obj = c.func_exec.obj; data_arg = arg })
            (with_php w (add_ref arg w.php)),
      )

  -- T is the state in which PHP code has returned.
  exec_done-Executed :
      (w : World) (r a b : ℕ) (q : EioReq) (c : EioCbCustom) (o : Option Zval) (arg : Zval)
      (p : Php)
      → env.buf_address p ≡ b
      → a ≢ b
      → Takes (λ i. refs_in i arg + ret_refs i o) (lock r q a c w).php p
      → Returns (Executed w r a b q c o) (exec_done r arg (o, with_php (lock r q a c w) p))
  unfolding store_result lock
  exec_done-Executed w r a b q c none arg p place apart t =
      Returns.bind (ptr_dtor-Gives arg p (λ i. omega (arith, t.refs i))) λ p' g. returns (record {
        objs = λ i. omega (arith, t.refs i, g.refs i);
        locked = ground (arith, t.same_blocks a, g.same_blocks a);
        stored = λ z e. cc;
        others = λ k n m. ground (arith, t.same_blocks k, g.same_blocks k);
        same_errors = ground (arith, t.same_errors, g.same_errors);
        same_thrown = ground (arith, t.same_thrown, g.same_thrown);
        same_warnings = ground (arith, t.same_warnings, g.same_warnings);
        request = λ k. refl;
        same_store = refl;
      })
  exec_done-Executed w r a b q c (some z) arg p place apart t =
      rw (==_self r, place)
        (Returns.bind
          (ptr_dtor-Gives arg (record p { blocks = write_at p.blocks b (some (zval z)) })
            (λ i. omega (arith, t.refs i)))
          λ p' g. returns (record {
            objs = λ i. omega (arith, t.refs i, g.refs i);
            locked = ground (arith, t.same_blocks a, g.same_blocks a);
            stored = λ y e. ground (arith, g.same_blocks b);
            others = λ k n m. ground (arith, t.same_blocks k, g.same_blocks k);
            same_errors = ground (arith, t.same_errors, g.same_errors);
            same_thrown = ground (arith, t.same_thrown, g.same_thrown);
            same_warnings = ground (arith, t.same_warnings, g.same_warnings);
            request = λ k. ground arith;
            same_store = refl;
          }))

  run_exec-Executed :
      (w : World) (r a b f : ℕ) (q : EioReq) (c : EioCbCustom)
      → ReturnsOnly
      → ((p : Php) → env.buf_address p ≡ b)
      → a ≢ b
      → c.func_exec.func_ptr ≡ some f
      → Returns (Executed w r a b q c ret) (run_exec env exec r c (lock r q a c w))
  run_exec-Executed w r a b f q c calm place apart has_func =
      let arg = data_param c.arg in
      let p = (lock r q a c w).php in
      rw (run_exec_calls r f c (lock r q a c w) calm has_func) (
        exec_done-Executed w r a b q c ret arg (take_ret ret (add_ref arg p)) (place _) apart
          (Takes-trans (add_ref-Takes arg p) (take_ret-Takes ret (add_ref arg p))))

  custom_execute_runs :
      (own stack : Stack) (w : World) (r a : ℕ) (q : EioReq) (c : EioCbCustom)
      → w.store.reqs r ≡ some q
      → q.cb_data ≡ some a
      → q.cancelled ≡ false
      → w.php.blocks a ≡ some (cb_custom c)
      → custom_execute env exec own r (stack, w)
        ≡ (run_exec env exec r c (lock r q a c w) >>= λ w. some (stack, w))
  unfolding custom_execute
  custom_execute_runs own stack w r a q c live data_of going is = ground arith

  -- For a live custom request that was not cancelled and whose callback object holds a function to
  -- execute, with a place for the result other than that of the object, and PHP code that changes
  -- nothing but that it may return a value with a reference of its own: the execution does not
  -- fault and restores the bounds of the stack; it locks the callback object; a value that is
  -- returned moves into a new block that the request keeps, with the result 0, and without a value
  -- the result is -1; every other block, count and request stays as it was, and so do exceptions
  -- and warnings.
  pub custom_execute-Executed :
      (own stack : Stack) (w : World) (r a b f : ℕ) (q : EioReq) (c : EioCbCustom)
      → ReturnsOnly
      → ((p : Php) → env.buf_address p ≡ b)
      → a ≢ b
      → w.store.reqs r ≡ some q
      → q.cb_data ≡ some a
      → q.cancelled ≡ false
      → w.php.blocks a ≡ some (cb_custom c)
      → c.func_exec.func_ptr ≡ some f
      → Returns
          (λ (after, w'). (after ≡ stack) × Executed w r a b q c ret w')
          (custom_execute env exec own r (stack, w))
  custom_execute-Executed own stack w r a b f q c calm place apart live data_of going is has_func =
      rw (custom_execute_runs own stack w r a q c live data_of going is) (
        Returns.bind (run_exec-Executed w r a b f q c calm place apart has_func)
          λ w' d. returns (refl, d))

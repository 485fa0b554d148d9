-- ===== src/Api/Safety.antt =====
-- No function of the extension faults, whatever PHP code passes: each either makes one request and
-- returns a resource for it, or makes none.
use pecl_eio.Base.{true, arith, Bool-cases, inl, inr, ℕ, ◌≡◌, refl, Option, none, some, ◌>>=◌}
use pecl_eio.Base.Int.{ℤ, pos}
use pecl_eio.Base.Returns
use pecl_eio.Base.Returns.{Returns, returns}
use pecl_eio.Zend.{Zval, Php, Exception, Warning}
use pecl_eio.Handles.Resources.{Kind}
use pecl_eio.World.{
  World, bails, Env, IsEnv, Function, true_value, initialized, with_php, throwing, give, send,
  ret_resource, Call,
}
use pecl_eio.Callbacks.{new_eio_cb, new_eio_cb_custom}
use pecl_eio.Callbacks.Lifetime.{new_eio_cb_custom-Created}
use pecl_eio.Fd.{zval_to_fd}
use pecl_eio.World.Submission.{
  IsReady, AnyOutcome, Safe, request-Safe, send-Safe, with_fd-Safe, check_path-Safe,
  parse_path-Safe, if-Safe, give-Safe_false,
}
use pecl_eio.Api.Paths.{start, refuse}
use pecl_eio.Api.Descriptors.{with_fds}
use pecl_eio.Api.Special
use pecl_eio.Api.Running.{Api, run}
use pecl_eio.Api.Closing.{Closed, is_eio_custom, run-Closed}

give-Safe_true : {env : Env} → Safe env (give true_value)
give-Safe_true w v = returns (none, (v.inv, (refl, λ k. refl)))

module _ (env : Env) (is : IsEnv env) where
  start-Safe : (f : Function) → Safe env f → Safe env (start env f)
  start-Safe f h w v = elim (Bool-cases (bails env w)) [
    | inl e ↦ rw e (returns (none, (v.inv, (refl, λ k. refl))))
    | inr e ↦ rw e (h (initialized env w) v)
  ]

  throwing-Safe :
      (e : Option Exception) (f : Function) → Safe env f → Safe env (λ w. f (throwing env e w))
  throwing-Safe none f h w v = h w v
  throwing-Safe (some e) f h w v = h (throwing env (some e) w) v

  refuse-Safe : (m : Warning) → Safe env (refuse m)
  refuse-Safe m w v = returns (none, (v.inv, (refl, λ k. refl)))

  custom-Safe :
      (w : World) (pri : ℤ) (r : Option (Option ℕ × Php))
      → IsReady env w
      → Returns (λ _. Unit {0}) r
      → Returns (AnyOutcome w) (
          r >>= λ (c, p).
          ret_resource env Kind.req (send env Call.custom pri c none (with_php w p)))
  custom-Safe w pri r v ok =
      Returns.bind ok λ (c, p) _. send-Safe env is (with_php w p) Kind.req Call.custom pri c none v

  -- Making the callback object of `eio_custom` never faults.
  custom_object :
      (zcb zcb_exec arg : Option Zval) (p : Php) (o : Option ℕ)
      → ((a : ℕ) → o ≡ some a → p.blocks a ≡ none)
      → Returns (λ _. Unit {0}) (new_eio_cb_custom env.is_callable o zcb zcb_exec arg p)
  unfolding new_eio_cb_custom
  custom_object zcb zcb_exec arg p none h = returns tt
  custom_object zcb zcb_exec arg p (some a) h =
      Returns.mono (new_eio_cb_custom-Created p a (h a refl) env.is_callable zcb zcb_exec arg)
        λ _ _. tt

  grp-Safe : (zcb arg : Option Zval) → Safe env (Special.eio_grp env zcb arg)
  unfolding Special.eio_grp
  grp-Safe zcb arg = start-Safe _ λ w v.
      let (c, p) = new_eio_cb env.is_callable (env.cb_address w.php) zcb arg w.php in
      send-Safe env is (with_php w p) Kind.grp Call.group (pos 0) c none v

  with_fds-Safe :
      (zfd zfd2 : Zval) (k : ℤ → ℤ → Function)
      → ((fd fd2 : ℤ) → Safe env (k fd fd2))
      → Safe env (with_fds env zfd zfd2 k)
  unfolding with_fds
  with_fds-Safe zfd zfd2 k h w v =
      throwing-Safe (zval_to_fd env.fds zfd).1 _
        (throwing-Safe (zval_to_fd env.fds zfd2).1 _ (
          if-Safe _ _ _ give-Safe_false (h (zval_to_fd env.fds zfd).0 (zval_to_fd env.fds zfd2).0)))
        w v

  is_closed : Closed env (Safe env)
  is_closed = record {
    start = start-Safe;
    check_path = check_path-Safe;
    parse_path = parse_path-Safe;
    branch = if-Safe;
    give_false = give-Safe_false;
    give_true = give-Safe_true;
    refuse = refuse-Safe;
    with_fd = with_fd-Safe env is;
    with_fds = with_fds-Safe;
    request = λ call pri zcb arg plain. request-Safe env is call pri zcb arg;
    grp = grp-Safe;
  }

  by_custom : (c : Api) → is_eio_custom c ≡ true → Safe env (run env c)
  unfolding run Special.eio_custom
  by_custom (Api.custom x0 x1 x2 x3) h = start-Safe _ λ w v.
      custom-Safe w x1 _ v
        (custom_object x2 x0 x3 w.php (env.cb_address w.php) (λ a e. is.fresh_cb w.php a e))
  by_custom _ h = absurd (ground arith)

  -- In a world that is ready, and with allocators that return unused memory, each of the forty
  -- functions that make requests (all but `eio_write`) returns without a fault, whatever its
  -- parameters: either it makes exactly one request, and the new resource that it returns stands
  -- for that request, which has the type of the call that was made and carries a callback object or
  -- none; or it makes none, which includes a fatal error of the initialization, and no request
  -- changes. Every other resource stands for what it stood for, and the handles stay in order.
  pub run-Safe : (c : Api) → Safe env (run env c)
  run-Safe c = run-Closed env (Safe env) is_closed c (by_custom c)

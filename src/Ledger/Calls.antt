-- ===== src/Ledger/Calls.antt =====
-- Every function that makes requests, but `eio_custom` and `eio_write`, keeps the ledger.
use pecl_eio.Base.{
  ◌≡◌, refl, Bool, true, false, Option, none, some, Bool-cases, inl, inr, if◌then◌else◌, ◌||◌,
}
use pecl_eio.Base.Int.{ℤ, pos, is_neg}
use pecl_eio.Base.Returns.{returns}
use pecl_eio.Zend.{Bytes, Zval, Exception}
use pecl_eio.Handles.Resources.{Kind}
use pecl_eio.World.{
  Env, IsEnv, Call, Function, bails, initialized, give, false_value, with_fd, type_of, use_fd,
  check_path, parse_path, throwing, has_nul,
}
use pecl_eio.Fd.{zval_to_fd}
use pecl_eio.Api.Paths.{start}
use pecl_eio.Api.Descriptors.{with_fds}
use pecl_eio.Api.Special.{eio_grp}
use pecl_eio.Api.Running.{Api, run}
use pecl_eio.Api.Closing.{Closed, run-Closed, is_eio_custom}
use pecl_eio.Ledger.{Keeps}
use pecl_eio.Ledger.Requests.{asked-Owned, request-Keeps}

module _ (env : Env) (is : IsEnv env) where
  start-Keeps : (f : Function) → Keeps env f → Keeps env (start env f)
  start-Keeps f h w room g u v = elim (Bool-cases (bails env w)) [
    | inl e ↦ rw e (returns v)
    | inr e ↦ rw e (h (initialized env w) room g u v)
  ]

  check_path-Keeps : (path : Bytes) (f : Function) → Keeps env f → Keeps env (check_path path f)
  unfolding check_path
  check_path-Keeps path f h w room g u v = elim (Bool-cases (has_nul path)) [
    | inl e ↦ rw e (returns v)
    | inr e ↦ rw e (h w room g u v)
  ]

  parse_path-Keeps : (path : Bytes) (f : Function) → Keeps env f → Keeps env (parse_path path f)
  unfolding parse_path
  parse_path-Keeps path f h w room g u v = elim (Bool-cases (has_nul path)) [
    | inl e ↦ rw e (returns v)
    | inr e ↦ rw e (h w room g u v)
  ]

  refused : Keeps env (give false_value)
  refused w room g u v = returns v

  branch-Keeps :
      (b : Bool) (f g : Function) → Keeps env f → Keeps env g → Keeps env (if b then f else g)
  branch-Keeps true f g hf hg = hf
  branch-Keeps false f g hf hg = hg

  throwing-Keeps :
      (e : Option Exception) (f : Function) → Keeps env f → Keeps env (λ w. f (throwing env e w))
  throwing-Keeps none f h w room g u v = h w room g u v
  throwing-Keeps (some e) f h w room g u v = h (throwing env (some e) w) room g u v

  use_fd-Keeps :
      (k : ℤ → Function)
      → ((fd : ℤ) → Keeps env (k fd))
      → (r : ℤ × Option Exception) → Keeps env (use_fd env k r)
  unfolding use_fd
  use_fd-Keeps k h (fd, e) =
      throwing-Keeps e (λ w. use_fd_at fd w)
        λ w room g u v. elim (Bool-cases (is_neg fd)) [
          | inl e1 ↦ rw e1 (returns v)
          | inr e2 ↦ rw e2 (h fd w room g u v)
        ]
    where
      use_fd_at : ℤ → Function
      use_fd_at fd w = if is_neg fd then give false_value w else k fd w

  with_fd-Keeps :
      (zfd : Zval) (k : ℤ → Function)
      → ((fd : ℤ) → Keeps env (k fd))
      → Keeps env (with_fd env zfd k)
  unfolding with_fd
  with_fd-Keeps zfd k h = use_fd-Keeps k h (zval_to_fd env.fds zfd)

  with_fds-Keeps :
      (zfd zfd2 : Zval) (k : ℤ → ℤ → Function)
      → ((fd fd2 : ℤ) → Keeps env (k fd fd2))
      → Keeps env (with_fds env zfd zfd2 k)
  unfolding with_fds
  with_fds-Keeps zfd zfd2 k h =
      let (fd, e) = zval_to_fd env.fds zfd in
      let (fd2, e2) = zval_to_fd env.fds zfd2 in
      throwing-Keeps e _ (
        throwing-Keeps e2 _
          (branch-Keeps (is_neg fd || is_neg fd2) (give false_value) (k fd fd2) refused (h fd fd2)))

  grp-Keeps : (zcb arg : Option Zval) → Keeps env (eio_grp env zcb arg)
  unfolding eio_grp type_of
  grp-Keeps zcb arg =
      start-Keeps _
        λ w room g u v. asked-Owned env is w Kind.grp Call.group (pos 0) zcb arg g u room refl v

  closed : Closed env (Keeps env)
  closed = record {
    start = start-Keeps;
    check_path = check_path-Keeps;
    parse_path = parse_path-Keeps;
    branch = branch-Keeps;
    give_false = refused;
    give_true = λ w room g u v. returns v;
    refuse = λ m w room g u v. returns v;
    with_fd = with_fd-Keeps;
    with_fds = with_fds-Keeps;
    request = request-Keeps env is;
    grp = grp-Keeps;
  }

  -- With allocators that return unused memory, in a world where the extension is ready, libeio has
  -- memory for a request, and a ledger accounts for every reference and every block that PHP code
  -- does not hold, also while callbacks are being called: each of the functions that make requests,
  -- but `eio_custom` and `eio_write`, returns without a fault, whatever its parameters, and a
  -- ledger accounts for all that the same PHP code does not hold: a new callback object is carried
  -- by exactly one request, and a call that makes no request holds no reference and no block.
  pub run-Keeps : (c : Api) → is_eio_custom c ≡ false → Keeps env (run env c)
  run-Keeps c other = run-Closed env (Keeps env) closed c (λ e. cc)

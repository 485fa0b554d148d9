-- ===== src/World/Submission.antt =====
-- What every request that the extension makes has in common.
use pecl_eio.Base.{
  ℕ, ◌+◌, ◌<◌, ◌^◌, ◌≡◌, ◌≢◌, refl, true, false, Bool, Option, none, some, List, ◌∷◌, arith,
  if◌then◌else◌, write, length, Bool-cases, inl, inr,
}
use pecl_eio.Base.Int.{ℤ, is_neg}
use pecl_eio.Base.Returns
use pecl_eio.Base.Returns.{Returns, returns}
use pecl_eio.Request.{EioReq, content, buf_in, libeio}
use pecl_eio.Handles.{Store, target}
use pecl_eio.Handles.Resources.{Kind}
use pecl_eio.Handles.Inv.{Inv}
use pecl_eio.Handles.Registering.{register_resource-Registered}
use pecl_eio.Zend.{Bytes, Zval, Exception}
use pecl_eio.Callbacks.{new_eio_cb}
use pecl_eio.World.{
  Call, type_of, Submitted, World, Env, IsEnv, Ret, false_value, true_value, null_value, bailout,
  resource_id, text, Function, send, ret_resource, request, with_fd, use_fd, check_path, parse_path,
  throwing, with_php, has_nul,
}
use pecl_eio.Fd.{zval_to_fd}

-- The extension may be called: its handles are in order, its table is open, there are fewer than
-- 2^32 - 3 resources, and the address of the next handle is not in use.
pub record StoreReady (env : Env) (s : Store) : Type 0 where
  pub inv : Inv s
  pub few : length s.resources + 3 < 2 ^ 32
  pub ready : s.ready ≡ true
  pub fresh : s.handles (env.handle_address s.handles) ≡ none

abbrev pub IsReady : Env → World → Type 0
IsReady env w = StoreReady env w.store

-- What has happened to the requests between two states.
abbrev pub Unchanged : World → World → Type 0
Unchanged w w' = (w'.submitted ≡ w.submitted) × ((k : ℕ) → w'.store.reqs k ≡ w.store.reqs k)

-- A function either makes exactly one request, of the call that the entry names, and returns a
-- resource that stands for it and did not exist before, the request with the type of that call and with the
-- callback object `cb`; or it makes none and touches no request.
-- In both cases the handles stay in order, and every other resource stands for what it did.
pub record Made (cb : Option ℕ) (s : Store) (log : List Submitted) (id : ℕ) (w' : World)
    : Type 0 where
  pub entry : Submitted
  pub asked : w'.submitted ≡ entry ∷ log
  pub was_free : s.reqs entry.at ≡ none
  pub carries : content (w'.store.reqs entry.at) ≡ some (type_of entry.call, cb)
  pub stands : target w'.store id ≡ some entry.at
  pub new : id ≡ s.next_id
  pub others : (k : ℕ) → k ≢ id → target w'.store k ≡ target s k

abbrev pub Outcome : Option ℕ → World → Ret × World → Type 0
Outcome cb w (resource_id id, w') = Inv w'.store × Made cb w.store w.submitted id w'
Outcome cb w (false_value, w') = Inv w'.store × Unchanged w w'
Outcome cb w (true_value, w') = Inv w'.store × Unchanged w w'
Outcome cb w (null_value, w') = Inv w'.store × Unchanged w w'
Outcome cb w (bailout, w') = Inv w'.store × Unchanged w w'
Outcome cb w (text s, w') = Inv w'.store × Unchanged w w'

-- Such an outcome, with the values of PHP as they were.
abbrev pub Sent : Option ℕ → World → Ret × World → Type 0
Sent cb w out = Outcome cb w out × (out.1.php ≡ w.php)

module _ (env : Env) where
  -- Where libeio makes a request, before any resource stands for it.
  pub send-requested :
      (call : Call) (pri : ℤ) (cb buf : Option ℕ) (w : World) (r : ℕ)
      → env.new_request call w.store ≡ some r
      → ((send env call pri cb buf w).1.php ≡ w.php)
        × (buf_in ((send env call pri cb buf w).1.store.reqs r) ≡ buf)
        × (content ((send env call pri cb buf w).1.store.reqs r) ≡ some (type_of call, cb))
        × ((send env call pri cb buf w).1.store.resources ≡ w.store.resources)
  unfolding send
  send-requested call pri cb buf w r e = rw (e, send) (refl, ground arith, ground arith, refl)

module _ (env : Env) (is : IsEnv env) where
  -- The store with the new request at `r`.
  abbrev pub with_request : Store → ℕ → EioReq → Store
  with_request s r q = record s { reqs = write s.reqs r (some q) }

  pub with_request-Inv :
      (s : Store) (r : ℕ) (q : EioReq) (f : ℕ)
      → Inv s
      → s.reqs r ≡ none
      → q.destroy ≡ libeio f
      → Inv (with_request s r q)
  with_request-Inv s r q f v free own = record {
    counted = v.counted;
    alive = v.alive;
    linked = v.linked;
    owner = v.owner;
    hooked = λ k. ground (arith, v.hooked k);
    original = v.original;
    callable = λ k. ground (arith, v.callable k);
    closed = v.closed;
    distinct = v.distinct;
  }

  registered :
      (w : World)
      → IsReady env w
      → (kind : Kind) (entry : Submitted) (q : EioReq) {f : ℕ} → {cb : Option ℕ}
      → q.destroy ≡ libeio f
      → q.type ≡ type_of entry.call
      → q.cb_data ≡ cb
      → {r : ℕ} → entry.at ≡ r
      → w.store.reqs r ≡ none
      → Returns
          (λ out. Sent cb w out × (buf_in (out.1.store.reqs r) ≡ q.buf))
          (ret_resource env kind (
            some r,
            record w { store = with_request w.store r q; submitted = entry ∷ w.submitted },
          ))
  unfolding ret_resource
  registered w v kind entry q own typed data_of {r} at free =
      let s' = with_request w.store r q in
      Returns.bind
        (register_resource-Registered s' (with_request-Inv w.store r q _ v.inv free own)
          (ground (arith, v.few)) r kind (env.handle_address s'.handles) q v.ready (ground arith)
          v.fresh)
        λ (id, t) d. returns (
          (
            (
              d.inv,
              record {
                entry = entry;
                asked = refl;
                was_free = rw at free;
                carries = ground (arith, d.same_reqs r);
                stands = ground (arith, d.targets id, d.id);
                new = d.id;
                others = λ k ne. ground (arith, d.targets k, d.id);
              },
            ),
            refl,
          ),
          ground (arith, d.same_bufs r),
        )

  -- Where libeio makes the request, it holds the buffer that was given.
  pub send-Buffered :
      (w : World) (kind : Kind) (call : Call) (pri : ℤ) (cb buf : Option ℕ) (r : ℕ)
      → IsReady env w
      → env.new_request call w.store ≡ some r
      → Returns
          (λ out. Sent cb w out × (buf_in (out.1.store.reqs r) ≡ buf))
          (ret_resource env kind (send env call pri cb buf w))
  unfolding send ret_resource
  send-Buffered w kind call pri cb buf r v e =
      rw (e, send) (registered w v kind _ _ refl refl refl refl (is.fresh_request call w.store r e))

  -- In a world that is ready, and with allocators that return unused memory, the common end of the
  -- functions, a call of libeio and the return of a resource, does not fault. Either it makes
  -- exactly one request, of the type of the call and with the callback object that was given, and
  -- returns a new resource that stands for it; or it makes none, and no request changes. The values
  -- of PHP stay as they were.
  pub send-Outcome :
      (w : World) (kind : Kind) (call : Call) (pri : ℤ) (cb buf : Option ℕ)
      → IsReady env w
      → Returns (Sent cb w) (ret_resource env kind (send env call pri cb buf w))
  unfolding send ret_resource
  send-Outcome w kind call pri cb buf v = by_request (env.new_request call w.store) refl
    where
      by_request :
          (o : Option ℕ)
          → env.new_request call w.store ≡ o
          → Returns (Sent cb w) (ret_resource env kind (send env call pri cb buf w))
      by_request none e = rw (e, send) (returns ((v.inv, (refl, λ k. refl)), refl))
      by_request (some r) e =
          Returns.mono (send-Buffered w kind call pri cb buf r v e) λ out (sent, at). sent

-- A function that never faults on a state in which it may be called, and has such an outcome.
abbrev pub AnyOutcome : World → Ret × World → Type 0
AnyOutcome w out = (cb : Option ℕ) × Outcome cb w out

abbrev pub Safe : Env → Function → Type 0
Safe env f = (w : World) → IsReady env w → Returns (AnyOutcome w) (f w)

module _ (env : Env) (is : IsEnv env) where
  pub send-Safe :
      (w : World) (kind : Kind) (call : Call) (pri : ℤ) (cb buf : Option ℕ)
      → IsReady env w
      → Returns (AnyOutcome w) (ret_resource env kind (send env call pri cb buf w))
  send-Safe w kind call pri cb buf v =
      Returns.mono (send-Outcome env is w kind call pri cb buf v) λ out o. (cb, o.0)

  -- The functions that make a request of the file system.
  pub request-Safe :
      (call : Call) (pri : ℤ) (zcb arg : Option Zval) → Safe env (request env call pri zcb arg)
  unfolding request
  request-Safe call pri zcb arg w v =
      let (c, p) = new_eio_cb env.is_callable (env.cb_address w.php) zcb arg w.php in
      send-Safe (with_php w p) Kind.req call pri c none v

  use_fd-Safe :
      (k : ℤ → Function)
      → ((fd : ℤ) → Safe env (k fd))
      → (r : ℤ × Option Exception) → Safe env (use_fd env k r)
  unfolding use_fd
  use_fd-Safe k h (fd, none) w v = elim (Bool-cases (is_neg fd)) [
    | inl e ↦ rw e (returns (none, (v.inv, (refl, λ k. refl))))
    | inr e ↦ rw e (h fd w v)
  ]
  use_fd-Safe k h (fd, some x) w v = elim (Bool-cases (is_neg fd)) [
    | inl e ↦ rw e (returns (none, (v.inv, (refl, λ k. refl))))
    | inr e ↦ rw e (h fd (throwing env (some x) w) v)
  ]

  pub with_fd-Safe :
      (zfd : Zval) (k : ℤ → Function) → ((fd : ℤ) → Safe env (k fd)) → Safe env (with_fd env zfd k)
  unfolding with_fd
  with_fd-Safe zfd k h w v = use_fd-Safe k h (zval_to_fd env.fds zfd) w v

pub check_path-Safe :
    {env : Env} → (path : Bytes) (k : Function) → Safe env k → Safe env (check_path path k)
unfolding check_path
check_path-Safe path k h w v = elim (Bool-cases (has_nul path)) [
  | inl e ↦ rw e (returns (none, (v.inv, (refl, λ k. refl))))
  | inr e ↦ rw e (h w v)
]

pub parse_path-Safe :
    {env : Env} → (path : Bytes) (k : Function) → Safe env k → Safe env (parse_path path k)
unfolding parse_path
parse_path-Safe path k h w v = elim (Bool-cases (has_nul path)) [
  | inl e ↦ rw e (returns (none, (v.inv, (refl, λ k. refl))))
  | inr e ↦ rw e (h w v)
]

pub if-Safe :
    {env : Env}
    → (b : Bool) (f g : Function) → Safe env f
    → Safe env g
    → Safe env (if b then f else g)
if-Safe true f g hf hg = hf
if-Safe false f g hf hg = hg

pub give-Safe_false : {env : Env} → Safe env (λ w. some (false_value, w))
give-Safe_false w v = returns (none, (v.inv, (refl, λ k. refl)))

-- ===== src/Handles/Steps.antt =====
-- The handles under any sequence of calls of PHP, of libeio and of `fork`.
use pecl_eio.Base.{
  ℕ, ◌+◌, ◌^◌, ◌<◌, ◌≡◌, refl, true, false, none, some, [], arith, is_some, length, write,
}
use pecl_eio.Base.Returns.{Returns, returns, result}
use pecl_eio.Request.{EioReq, Reqs, Libeio, Frees, is_hook, is_null, hooked_in, null_in}
use pecl_eio.Handles.{
  Store, call_destroy, register_resource, handle_dtor, handles_reset, fetch_req, target,
}
use pecl_eio.Handles.Table.{find}
use pecl_eio.Handles.Resources.{Kind, held}
use pecl_eio.Handles.Inv.{Inv, Few}
use pecl_eio.Handles.Fetching.{fetch_req-target, target-live}
use pecl_eio.Handles.Destroying.{call_destroy-Destroyed}
use pecl_eio.Handles.Registering.{register_resource-Registered}
use pecl_eio.Handles.Releasing.{handle_dtor-Released}
use pecl_eio.Handles.Resetting.{handles_reset-Reset}

-- `create`: libeio allocates a request, perhaps where an old one was. `finish`: libeio ends a live
-- request. `register`, `drop`: PHP gets a resource for a live request, and lets go of one. `fork`:
-- the child resets its handles.
pub data Step (lib : Libeio) (s s' : Store) : Type 0 where
  create :
      (r : ℕ) (q : EioReq)
      → s.reqs r ≡ none
      → is_hook q.destroy ≡ false
      → is_null q.destroy ≡ false
      → s' ≡ record s { reqs = write s.reqs r (some q) }
      → Step lib s s'
  finish : (r : ℕ) (q : EioReq) → s.reqs r ≡ some q → call_destroy lib r s ≡ some s' → Step lib s s'
  register :
      (r addr id : ℕ) (kind : Kind) (q : EioReq)
      → s.ready ≡ true
      → s.reqs r ≡ some q
      → s.handles addr ≡ none
      → length s.resources + 3 < 2 ^ 32
      → register_resource r kind addr s ≡ some (id, s')
      → Step lib s s'
  drop : (id : ℕ) → handle_dtor id s ≡ some s' → Step lib s s'
  fork : s.ready ≡ true → handles_reset s ≡ some s' → Step lib s s'

pub data Reach (lib : Libeio) (s : Store) : Store → Type 0 where
  here : Reach lib s s
  next : {t u : Store} → Reach lib s t → Step lib t u → Reach lib s u

pub record IsSafe (s : Store) : Type 0 where
  pub inv : Inv s
  pub few : Few s

module _ (lib : Libeio) (f : Frees lib) {s s' : Store} where
  pub Step-IsSafe : Step lib s s' → IsSafe s → IsSafe s'
  Step-IsSafe (create r q free h n e) v = rw e (record {
    inv = record {
      counted = v.inv.counted;
      alive = v.inv.alive;
      linked = v.inv.linked;
      owner = v.inv.owner;
      hooked = λ k. ground (arith, v.inv.hooked k);
      original = v.inv.original;
      callable = λ k. ground (arith, v.inv.callable k);
      closed = v.inv.closed;
      distinct = v.inv.distinct;
    };
    few = v.few;
  })
  Step-IsSafe (finish r q live e) v =
      let d = result (call_destroy-Destroyed lib f s v.inv v.few r q live) e in
      record { inv = d.inv; few = ground (arith, d.same_resources) }
  Step-IsSafe (register r addr id kind q ready live free room e) v =
      let d = result (register_resource-Registered s v.inv v.few r kind addr q ready live free) e in
      record { inv = d.inv; few = ground (arith, d.length_lem) }
  Step-IsSafe (drop id e) v =
      let d = result (handle_dtor-Released s v.inv v.few id) e in
      record { inv = d.inv; few = ground (arith, d.same_length) }
  Step-IsSafe (fork ready e) v =
      let d = result (handles_reset-Reset s v.inv v.few ready) e in
      record { inv = d.inv; few = ground (arith, d.same_resources) }

  -- A resource that stands for no request never stands for one again, not even where libeio
  -- allocates a new request at the same address.
  Step-stale :
      (id : ℕ)
      → Step lib s s'
      → IsSafe s
      → id < s.next_id
      → target s id ≡ none
      → (id < s'.next_id) × (target s' id ≡ none)
  Step-stale id (create r q free h n e) v old stale = rw e (old, stale)
  Step-stale id (finish r q live e) v old stale =
      let d = result (call_destroy-Destroyed lib f s v.inv v.few r q live) e in
      (ground (arith, d.same_next), ground (arith, d.forgotten id))
  Step-stale id (register r addr new kind q ready live free room e) v old stale =
      let d = result (register_resource-Registered s v.inv v.few r kind addr q ready live free) e in
      (ground (arith, d.next), ground (arith, d.targets id))
  Step-stale id (drop gone e) v old stale =
      let d = result (handle_dtor-Released s v.inv v.few gone) e in
      (ground (arith, d.same_next), ground (arith, d.targets id))
  Step-stale id (fork ready e) v old stale =
      let d = result (handles_reset-Reset s v.inv v.few ready) e in
      (ground (arith, d.same_next), d.targets id)

module _ (lib : Libeio) (f : Frees lib) {s : Store} (v : IsSafe s) where
  -- From a safe store, every store that is reached by any sequence of steps is safe: its handles
  -- are in order, and no count of references can wrap round. The destroy function of libeio frees
  -- exactly its request.
  pub Reach-IsSafe : {t : Store} → Reach lib s t → IsSafe t
  Reach-IsSafe here = v
  Reach-IsSafe (next r st) = Step-IsSafe lib f st (Reach-IsSafe r)

  stale_after :
      {t : Store} (id : ℕ)
      → Reach lib s t
      → id < s.next_id
      → target s id ≡ none
      → (id < t.next_id) × (target t id ≡ none)
  stale_after id here old stale = (old, stale)
  stale_after id (next r st) old stale =
      let (old', stale') = stale_after id r old stale in
      Step-stale lib f id st (Reach-IsSafe r) old' stale'

  -- A resource that was given out and stands for no request in a safe store is fetched as NULL
  -- after any further sequence of steps, also where libeio makes a new request at the address of
  -- the old one; the destroy function of libeio frees exactly its request.
  pub fetch_req-stale :
      {t : Store} (id : ℕ) (kind : Kind)
      → Reach lib s t
      → id < s.next_id
      → target s id ≡ none
      → fetch_req id kind t ≡ some none
  fetch_req-stale {t} id kind r old stale =
      ground
        (arith, fetch_req-target t (Reach-IsSafe r).inv id kind, (stale_after id r old stale).1)

  -- From a safe store, after any sequence of steps (libeio makes and ends requests, PHP registers
  -- and drops resources, a child resets its handles), and with a destroy function of libeio that
  -- frees exactly its request: fetching any resource does not fault, and a request that it gives is
  -- alive.
  pub fetch_req-live :
      {t : Store} (id : ℕ) (kind : Kind)
      → Reach lib s t
      → Returns (λ o. (k : ℕ) → o ≡ some k → is_some (t.reqs k) ≡ true) (fetch_req id kind t)
  fetch_req-live {t} id kind r =
      let inv = (Reach-IsSafe r).inv in
      rw (fetch_req-target t inv id kind) (returns (λ k e. target-live t inv id k (ground arith)))

-- The store that `PHP_MINIT_FUNCTION` sets up, over the requests of libeio.
abbrev pub start : Reqs → Store
start m = record {
  ready = true;
  table = [];
  handles = λ _. none;
  reqs = m;
  resources = [];
  next_id = 0;
}

pub start-IsSafe :
    (m : Reqs)
    → ((r : ℕ) → hooked_in (m r) ≡ false)
    → ((r : ℕ) → null_in (m r) ≡ false)
    → IsSafe (start m)
unfolding held find
start-IsSafe m h n = record {
  inv = record {
    counted = λ a. omega arith;
    alive = λ a. ground arith;
    linked = λ r a e. cc;
    owner = λ r a e. cc;
    hooked = h;
    original = λ a. refl;
    callable = n;
    closed = λ r e. refl;
    distinct = tt;
  };
  few = omega arith;
}

-- ===== src/Handles/Destroying.antt =====
-- What libeio's call of `req->destroy` does to the handles.
use pecl_eio.Base.{
  ℕ, ◌≡◌, refl, Option, none, some, arith, ◌==◌, if◌then◌else◌, ◌>>=◌, value_of, ==_self, true,
  false, is_some,
}
use pecl_eio.Base.Returns.{Returns, returns}
use pecl_eio.Request.{Libeio, Frees, EioReq, Destroy, hook, null, libeio, is_hook, is_null}
use pecl_eio.Handles.{
  Handle, Store, release, unlink, destroy_hook, take_handle, target, call_orig, call_destroy,
}
use pecl_eio.Handles.Table.{find, del, find-del, del-Distinct}
use pecl_eio.Handles.Resources.{ptr_of, lookup}
use pecl_eio.Handles.Inv.{Inv, Few, dropped, dropped-Inv, req_of, target-IsSome}

-- The target of a resource once the request `r` is gone.
abbrev pub without : ℕ → Option ℕ → Option ℕ
without r none = none
without r (some k) = if r == k then none else some k

pub record Destroyed (r : ℕ) (s s' : Store) : Type 0 where
  pub inv : Inv s'
  pub freed : (k : ℕ) → s'.reqs k ≡ (if r == k then none else s.reqs k)
  pub forgotten : (id : ℕ) → target s' id ≡ without r (target s id)
  pub same_ready : s'.ready ≡ s.ready
  pub same_next : s'.next_id ≡ s.next_id
  pub same_resources : s'.resources ≡ s.resources

orig_is_libeio : (d : Destroy) → is_hook d ≡ false → is_null d ≡ false → (g : ℕ) × (d ≡ libeio g)
orig_is_libeio null h n = cc
orig_is_libeio hook h n = cc
orig_is_libeio (libeio g) h n = (g, refl)

take_handle-known :
    (s : Store) (r a : ℕ)
    → s.ready ≡ true
    → find r s.table ≡ some a
    → take_handle r s ≡ unlink r a s
unfolding take_handle
take_handle-known s r a ready at = ground arith

module _ (lib : Libeio) (f : Frees lib) (s : Store) (v : Inv s) (few : Few s) where
  -- A handle other than that of `r` is of another request.
  other_req :
      (r a b : ℕ) (o : Option ℕ)
      → find r s.table ≡ some a
      → (a == b) ≡ false
      → req_of (s.handles b) ≡ o
      → o ≡ without r o
  other_req r a b none at ne e = refl
  other_req r a b (some k) at ne e = ground (arith, v.owner k b)

  freed-Destroyed :
      (r a : ℕ) (h : Handle) (m : ℕ → Option Handle) (g : ℕ)
      → find r s.table ≡ some a
      → s.handles a ≡ some h
      → ((b : ℕ) → m b ≡ (if a == b then dropped h else s.handles b))
      → Destroyed r s
          (record s { handles = m; table = del r s.table; reqs = Libeio.destroy lib g r s.reqs })
  freed-Destroyed r a h m g at is hm = record {
    inv =
        dropped-Inv s v few r a h m _ _ is at hm (λ k. find-del r k s.table v.distinct)
          (del-Distinct r s.table v.distinct) (λ k. ground (arith, f.frees g r s.reqs k))
          (λ k. ground (arith, f.frees g r s.reqs k, v.callable k));
    freed = λ k. f.frees g r s.reqs k;
    forgotten = λ id. forgotten_at (ptr_of (lookup id s.resources));
    same_ready = refl;
    same_next = refl;
    same_resources = refl;
  }
    where
      forgotten_at :
          (o : Option ℕ)
          → elim o as (λ _. Option ℕ) [ none ↦ none | some b ↦ req_of (m b) ]
            ≡ without r (elim o as (λ _. Option ℕ) [ none ↦ none | some b ↦ req_of (s.handles b) ])
      forgotten_at none = refl
      forgotten_at (some b) =
          ground (arith, hm b, v.linked r a at, other_req r a b (req_of (s.handles b)) at)

  unlink-Destroyed :
      (r a : ℕ) (h : Handle)
      → find r s.table ≡ some a
      → s.handles a ≡ some h
      → Returns (Destroyed r s) (unlink r a s >>= λ p. some (call_orig lib p.0 r p.1))
  unfolding unlink release
  unlink-Destroyed r a h at is =
      let (g, e) =
        orig_is_libeio h.orig_destroy (ground (arith, v.original a))
          (ground (arith, v.original a)) in
      rw (is, ==_self a, e) (returns (freed-Destroyed r a h _ g at is (λ b. ground arith)))

  -- A request that never got a handle.
  unhooked-Destroyed :
      (r g : ℕ)
      → find r s.table ≡ none
      → Destroyed r s (record s { reqs = Libeio.destroy lib g r s.reqs })
  unhooked-Destroyed r g at = record {
    inv = record {
      counted = v.counted;
      alive = v.alive;
      linked = v.linked;
      owner = v.owner;
      hooked = λ k. ground (arith, f.frees g r s.reqs k, v.hooked k);
      original = v.original;
      callable = λ k. ground (arith, f.frees g r s.reqs k, v.callable k);
      closed = v.closed;
      distinct = v.distinct;
    };
    freed = λ k. f.frees g r s.reqs k;
    forgotten = λ id. not_of_r (target s id) (owner_of id);
    same_ready = refl;
    same_next = refl;
    same_resources = refl;
  }
    where
      not_of_r :
          (o : Option ℕ)
          → ((k : ℕ) → o ≡ some k → is_some (find k s.table) ≡ true)
          → o ≡ without r o
      not_of_r none h = refl
      not_of_r (some k) h = ground (arith, h k)

      owner_of : (id k : ℕ) → target s id ≡ some k → is_some (find k s.table) ≡ true
      owner_of id k e = target-IsSome s v id k e

  destroy_hook-Destroyed :
      (r : ℕ) → is_some (find r s.table) ≡ true → Returns (Destroyed r s) (destroy_hook lib r s)
  unfolding destroy_hook
  destroy_hook-Destroyed r known =
      let (a, at) = value_of (find r s.table) known in
      let (h, is) = value_of (s.handles a) (ground (arith, v.linked r a at)) in
      let open_table : s.ready ≡ true = ground (arith, v.closed r) in
      rw (take_handle-known s r a open_table at) (unlink-Destroyed r a h at is)

  -- In a store whose handles are in order, with fewer than 2^32 - 2 resources, and with a destroy
  -- function of libeio that frees exactly its request: when libeio ends a live request, nothing
  -- faults, exactly this request is freed, exactly the resources that stood for it stand for none,
  -- and the handles stay in order.
  pub call_destroy-Destroyed :
      (r : ℕ) (q : EioReq) → s.reqs r ≡ some q → Returns (Destroyed r s) (call_destroy lib r s)
  unfolding call_destroy
  call_destroy-Destroyed r q is = rw is (by_destroy q.destroy refl)
    where
      by_destroy :
          (d : Destroy)
          → q.destroy ≡ d
          → Returns (Destroyed r s) (elim d as (λ _. Option Store) [
            | null ↦ some s
            | hook ↦ destroy_hook lib r s
            | libeio g ↦ some (record s { reqs = Libeio.destroy lib g r s.reqs })
          ])
      by_destroy null e = absurd (ground (arith, v.callable r))
      by_destroy hook e = destroy_hook-Destroyed r (ground (arith, v.hooked r))
      by_destroy (libeio g) e = returns (unhooked-Destroyed r g (ground (arith, v.hooked r)))

-- ===== src/Handles/Registering.antt =====
-- What `php_eio_register_resource` does to the handles.
use pecl_eio.Base.{
  ℕ, ◌+◌, ◌≡◌, refl, Option, none, some, ◌∷◌, arith, ◌==◌, if◌then◌else◌, true, [], ◌++◌, ==_self,
  value_of, length, write, Option-cases, inl, inr,
}
use pecl_eio.Base.Returns.{Returns, returns}
use pecl_eio.Request.{EioReq, content, buf_in, hook}
use pecl_eio.Handles.{
  Handle, Store, handle_ref, new_handle, retain, register_resource, target, inc32,
}
use pecl_eio.Handles.Table.{find, find-append, append-Distinct}
use pecl_eio.Handles.Resources.{Kind, Resource, ptr_of, lookup, held, held-lookup}
use pecl_eio.Handles.Inv.{Inv, Few, refs-small, target_same}

-- The resource `id` is new and stands for `r`; the others stand for what they did.
pub record Registered (r : ℕ) (kind : Kind) (s : Store) (out : ℕ × Store) : Type 0 where
  pub inv : Inv out.1
  pub id : out.0 ≡ s.next_id
  pub targets : (k : ℕ) → target out.1 k ≡ (if s.next_id == k then some r else target s k)
  pub next : out.1.next_id ≡ s.next_id + 1
  pub length_lem : length out.1.resources ≡ length s.resources + 1
  pub res : Resource
  pub resources : out.1.resources ≡ (s.next_id, res) ∷ s.resources
  pub kind_lem : res.kind ≡ kind
  pub same_ready : out.1.ready ≡ s.ready
  pub same_reqs : (k : ℕ) → content (out.1.reqs k) ≡ content (s.reqs k)
  pub same_bufs : (k : ℕ) → buf_in (out.1.reqs k) ≡ buf_in (s.reqs k)

module _ (s : Store) (v : Inv s) (few : Few s) (r : ℕ) (kind : Kind) where
  abbrev with_resource : ℕ → Store → ℕ × Store
  with_resource a t =
      let res : Resource = record { ptr = some a; kind = kind } in
      (t.next_id, record t { resources = (t.next_id, res) ∷ t.resources; next_id = t.next_id + 1 })

  abbrev retained : ℕ → Handle → ℕ → Option Handle
  retained a h = write s.handles a (some (record h { refs = inc32 h.refs }))

  abbrev added : ℕ → EioReq → ℕ → Option Handle
  added addr q =
      let h : Handle = record { req = some r; refs = 1; orig_destroy = q.destroy } in
      write (write s.handles addr (some h)) addr (some (record h { refs = inc32 1 }))

  -- The request has the handle at `a` already.
  known-Registered :
      (a : ℕ) (h : Handle)
      → find r s.table ≡ some a
      → s.handles a ≡ some h
      → Registered r kind s (with_resource a (record s { handles = retained a h }))
  unfolding held lookup
  known-Registered a h at is = record {
    inv = record {
      counted = λ b. ground (arith, v.counted b, v.linked r a at, refs-small s v few a);
      alive = λ b. ground (arith, v.alive b, refs-small s v few a);
      linked = λ k b e. ground (arith, v.linked k b e);
      owner = λ k b e. ground (arith, v.owner k b);
      hooked = v.hooked;
      original = λ b. ground (arith, v.original b);
      callable = v.callable;
      closed = v.closed;
      distinct = v.distinct;
    };
    id = refl;
    targets = λ k. ground (
      arith,
      target_same (retained a h) s.handles (ptr_of (lookup k s.resources)) (λ b e. ground (arith)),
      v.linked r a at,
    );
    next = refl;
    length_lem = omega arith;
    res = record { ptr = some a; kind = kind };
    resources = refl;
    kind_lem = refl;
    same_ready = refl;
    same_reqs = λ k. refl;
    same_bufs = λ k. refl;
  }

  new-Registered :
      (addr : ℕ) (q : EioReq)
      → s.ready ≡ true
      → find r s.table ≡ none
      → s.reqs r ≡ some q
      → s.handles addr ≡ none
      → Registered r kind s (
          with_resource addr (record s {
            handles = added addr q;
            table = s.table ++ (r, addr) ∷ [];
            reqs = write s.reqs r (some (record q { destroy = hook }));
          }))
  unfolding held lookup
  new-Registered addr q ready at is free = record {
    inv = record {
      counted = λ b. ground (arith, v.counted b);
      alive = λ b. ground (arith, v.alive b);
      linked = λ k b e. ground (arith, v.linked k b, find-append r addr k s.table);
      owner = λ k b e. ground (arith, v.owner k b, find-append r addr k s.table);
      hooked = λ k. ground (arith, v.hooked k, find-append r addr k s.table);
      original = λ b. ground (arith, v.original b, v.hooked r, v.callable r);
      callable = λ k. ground (arith, v.callable k);
      closed = λ k e. ground arith;
      distinct = append-Distinct r addr s.table at v.distinct;
    };
    id = refl;
    targets = λ k. ground (
      arith,
      target_same (added addr q) s.handles (ptr_of (lookup k s.resources))
          (λ b e. ground (arith, held-lookup k b s.resources e, v.counted addr)),
    );
    next = refl;
    length_lem = omega arith;
    res = record { ptr = some addr; kind = kind };
    resources = refl;
    kind_lem = refl;
    same_ready = refl;
    same_reqs = λ k. ground arith;
    same_bufs = λ k. ground arith;
  }

  handle_ref-known :
      (addr a : ℕ) (h : Handle)
      → find r s.table ≡ some a
      → s.handles a ≡ some h
      → handle_ref r addr s ≡ some (a, record s { handles = retained a h })
  unfolding handle_ref retain
  handle_ref-known addr a h at is = rw (at, handle_ref) (rw is refl)

  handle_ref-new :
      (addr : ℕ) (q : EioReq)
      → find r s.table ≡ none
      → s.reqs r ≡ some q
      → handle_ref r addr s
        ≡ some (
          addr,
          record s {
            handles = added addr q;
            table = s.table ++ (r, addr) ∷ [];
            reqs = write s.reqs r (some (record q { destroy = hook }));
          },
        )
  unfolding handle_ref retain new_handle
  handle_ref-new addr q at is = rw (at, handle_ref) (rw is (rw (==_self addr) refl))

  -- In an open store whose handles are in order, with fewer than 2^32 - 2 resources, a live request
  -- gets a resource at an unused handle address. Nothing faults; the resource is the next one and
  -- stands for the request, every other resource stands for what it stood for, every request keeps
  -- its type and callback object, and the handles stay in order.
  pub register_resource-Registered :
      (addr : ℕ) (q : EioReq)
      → s.ready ≡ true
      → s.reqs r ≡ some q
      → s.handles addr ≡ none
      → Returns (Registered r kind s) (register_resource r kind addr s)
  unfolding register_resource
  register_resource-Registered addr q ready is free = elim (Option-cases (find r s.table)) [
    | inl at ↦ rw (handle_ref-new addr q at is) (returns (new-Registered addr q ready at is free))
    | inr (a, at) ↦
        let (h, here) = value_of (s.handles a) (ground (arith, v.linked r a at)) in
        rw (handle_ref-known addr a h at here) (returns (known-Registered a h at here))
  ]

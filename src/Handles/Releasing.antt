-- ===== src/Handles/Releasing.antt =====
-- What the destructor of a resource, `php_eio_handle_dtor`, does to the handles.
use pecl_eio.Base.{
  sym, true, ℕ, ◌≡◌, refl, Option, none, some, arith, ◌==◌, if◌then◌else◌, is_some, value_of,
  length, write, Option-cases, inl, inr,
}
use pecl_eio.Base.Returns.{Returns, returns}
use pecl_eio.Handles.{Handle, Store, release, handle_dtor, target, dec32}
use pecl_eio.Handles.Resources.{
  ptr_of, lookup, clear, held-lookup, held-clear, lookup-clear, length-clear, clear_same,
}
use pecl_eio.Handles.Inv.{Inv, Few, refs-small, target_same}

-- The resource `id` stands for nothing; the others stand for what they did.
pub record Released (id : ℕ) (s s' : Store) : Type 0 where
  pub inv : Inv s'
  pub targets : (k : ℕ) → target s' k ≡ (if id == k then none else target s k)
  pub same_reqs : s'.reqs ≡ s.reqs
  pub same_ready : s'.ready ≡ s.ready
  pub same_next : s'.next_id ≡ s.next_id
  pub resources : s'.resources ≡ clear id s.resources
  pub same_length : length s'.resources ≡ length s.resources

module _ (s : Store) (v : Inv s) (few : Few s) (id : ℕ) where
  abbrev left : Handle → Option Handle
  left h = if dec32 h.refs == 0 then none else some (record h { refs = dec32 h.refs })

  -- A handle that a resource holds is allocated, and its count is positive.
  held_is_some : (a : ℕ) → ptr_of (lookup id s.resources) ≡ some a → is_some (s.handles a) ≡ true
  held_is_some a at = ground (arith, v.alive a, v.counted a, held-lookup id a s.resources at)

  -- The last reference is never that of libeio, while a resource holds the handle.
  last_is_unowned :
      (a : ℕ) (h : Handle)
      → ptr_of (lookup id s.resources) ≡ some a
      → s.handles a ≡ some h
      → (dec32 h.refs == 0) ≡ true
      → h.req ≡ none
  last_is_unowned a h at is e =
      ground (arith, v.counted a, refs-small s v few a, held-lookup id a s.resources at)

  release-Released :
      (a : ℕ) (h : Handle)
      → ptr_of (lookup id s.resources) ≡ some a
      → s.handles a ≡ some h
      → Released id s
          (record s { handles = write s.handles a (left h); resources = clear id s.resources })
  release-Released a h at is = record {
    inv = record {
      counted =
          λ b. ground (arith, v.counted b, refs-small s v few a, held-clear id a b s.resources at);
      alive = λ b.
          ground
            (arith, v.alive b, v.counted b, refs-small s v few a, held-lookup id a s.resources at);
      linked = λ r b e. ground (arith, v.linked r b e, last_is_unowned a h at is);
      owner = λ r b e. ground (arith, v.owner r b);
      hooked = v.hooked;
      original = λ b. ground (arith, v.original b);
      callable = v.callable;
      closed = v.closed;
      distinct = v.distinct;
    };
    targets = λ k. ground (
      arith,
      lookup-clear id k s.resources,
      target_same (write s.handles a (left h)) s.handles (ptr_of (lookup k s.resources))
          (λ b e. ground (arith, last_is_unowned a h at is)),
    );
    same_reqs = refl;
    same_ready = refl;
    same_next = refl;
    resources = refl;
    same_length = length-clear id s.resources;
  }

  -- In a store whose handles are in order, with fewer than 2^32 - 2 resources, the destructor of a
  -- resource does not fault. The resource stands for nothing afterwards, every other one stands for
  -- what it stood for, no request changes, and the handles stay in order: a handle is freed exactly
  -- when its last holder lets go.
  pub handle_dtor-Released : Returns (Released id s) (handle_dtor id s)
  unfolding handle_dtor release
  handle_dtor-Released = elim (Option-cases (ptr_of (lookup id s.resources))) [
    | inl at ↦
        rw (at, handle_dtor)
          (returns (record {
            inv = v;
            targets = λ k. ground arith;
            same_reqs = refl;
            same_ready = refl;
            same_next = refl;
            resources = sym (clear_same id s.resources at);
            same_length = refl;
          }))
    | inr (a, at) ↦
        let (h, is) = value_of (s.handles a) (held_is_some a at) in
        rw (at, handle_dtor) (rw is (returns (release-Released a h at is)))
  ]

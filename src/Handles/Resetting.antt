-- ===== src/Handles/Resetting.antt =====
-- What `php_eio_handles_reset` does to the handles, in a forked child and at shutdown.
use pecl_eio.Base.{
  ℕ, ◌≡◌, refl, true, false, Option, none, some, [], ◌∷◌, arith, ◌==◌, if◌then◌else◌, ◌>>=◌,
  is_some, value_of, write, ==_self,
}
use mathlib.Core.Bool.{false≢true}
use mathlib.Core.Path.{◌∙◌}
use pecl_eio.Base.Returns
use pecl_eio.Base.Returns.{Returns, returns}
use pecl_eio.Request.{EioReq, hooked_in}
use pecl_eio.Handles.{
  Handle, Store, release, restore, reset_entry, reset_loop, handles_reset, target,
}
use pecl_eio.Handles.Table.{HandleTable, find}
use pecl_eio.Handles.Inv.{Inv, Few, req_of, dropped, dropped-Inv, target-IsSome}

-- The rest of the table, `t`, is still to be reset.
record Partly (t : HandleTable) (s s' : Store) : Type 0 where
  inv : Inv (record s' { table = t })
  same_reqs : (k : ℕ) → is_some (s'.reqs k) ≡ is_some (s.reqs k)
  same_resources : s'.resources ≡ s.resources
  same_ready : s'.ready ≡ s.ready
  same_next : s'.next_id ≡ s.next_id

module _ (r a : ℕ) (t : HandleTable) (s : Store) (v : Inv (record s { table = (r, a) ∷ t }))
    (few : Few s) where
  entry-Partly :
      (h : Handle) (q : EioReq) (m : ℕ → Option Handle)
      → s.handles a ≡ some h
      → s.reqs r ≡ some q
      → ((b : ℕ) → m b ≡ (if a == b then dropped h else s.handles b))
      → Partly t s (record s {
        handles = m;
        reqs = write s.reqs r (some (record q { destroy = h.orig_destroy }));
      })
  unfolding find
  entry-Partly h q m is live hm = record {
    inv =
        dropped-Inv (record s { table = (r, a) ∷ t }) v few r a h m t _ is (ground arith) hm
          (λ k. ground (arith, v.distinct)) v.distinct.1 (λ k. ground (arith, v.original a))
          (λ k. ground (arith, v.original a, v.callable k));
    same_reqs = λ k. ground arith;
    same_resources = refl;
    same_ready = refl;
    same_next = refl;
  }

  abbrev reset_heap : Handle → ℕ → Option Handle
  reset_heap h = write (write s.handles a (some (record h { req = none }))) a (dropped h)

  reset_entry_lem :
      (h : Handle) (q : EioReq)
      → s.handles a ≡ some h
      → h.req ≡ some r
      → s.reqs r ≡ some q
      → reset_entry a s
        ≡ some (record s {
          handles = reset_heap h;
          reqs = write s.reqs r (some (record q { destroy = h.orig_destroy }));
        })
  unfolding reset_entry restore release
  reset_entry_lem h q is of_r live = rw is (rw (of_r, restore) (rw live (rw (==_self a) refl)))

  reset_entry-Partly : Returns (Partly t s) (reset_entry a s)
  unfolding find
  reset_entry-Partly =
      let at : req_of (s.handles a) ≡ some r = v.linked r a (ground arith) in
      let (h, is) = value_of (s.handles a) (ground arith) in
      let (q, live) = value_of (s.reqs r) (ground (arith, v.hooked r)) in
      rw (reset_entry_lem h q is (ground arith) live)
        (returns (entry-Partly h q (reset_heap h) is live (λ b. ground arith)))

reset_loop-Partly :
    (t : HandleTable) (s : Store)
    → Inv (record s { table = t })
    → Few s
    → Returns (Partly [] s) (reset_loop t s)
unfolding reset_loop
reset_loop-Partly [] s v few = returns (record {
  inv = v;
  same_reqs = λ k. refl;
  same_resources = refl;
  same_ready = refl;
  same_next = refl;
})
reset_loop-Partly ((r, a) ∷ t) s v few = Returns.bind (reset_entry-Partly r a t s v few) λ s' p.
    Returns.mono (reset_loop-Partly t s' p.inv (ground (arith, p.same_resources))) λ s'' p'.
      record {
        inv = p'.inv;
        same_reqs = λ k. p'.same_reqs k ∙ p.same_reqs k;
        same_resources = p'.same_resources ∙ p.same_resources;
        same_ready = p'.same_ready ∙ p.same_ready;
        same_next = p'.same_next ∙ p.same_next;
      }

-- No resource stands for a request, and no request runs the hook of the extension any more.
pub record Reset (s s' : Store) : Type 0 where
  pub inv : Inv s'
  pub targets : (id : ℕ) → target s' id ≡ none
  pub unhooked : (r : ℕ) → hooked_in (s'.reqs r) ≡ false
  pub same_reqs : (k : ℕ) → is_some (s'.reqs k) ≡ is_some (s.reqs k)
  pub same_resources : s'.resources ≡ s.resources
  pub same_ready : s'.ready ≡ s.ready
  pub same_next : s'.next_id ≡ s.next_id

handles_reset_ready :
    (s : Store)
    → s.ready ≡ true
    → handles_reset s ≡ (reset_loop s.table s >>= λ s'. some (record s' { table = [] }))
unfolding handles_reset
handles_reset_ready s ready = ground arith

module _ (s : Store) (v : Inv s) (few : Few s) where
  -- With an empty table nothing has a target.
  Partly-Reset : (s' : Store) → Partly [] s s' → Reset s (record s' { table = [] })
  unfolding find
  Partly-Reset s' p = record {
    inv = p.inv;
    targets = λ id. untargeted id (target s' id) refl;
    unhooked = λ r. p.inv.hooked r;
    same_reqs = p.same_reqs;
    same_resources = p.same_resources;
    same_ready = p.same_ready;
    same_next = p.same_next;
  }
    where
      untargeted : (id : ℕ) (o : Option ℕ) → target s' id ≡ o → o ≡ none
      untargeted id none e = refl
      untargeted id (some k) e =
          absurd (false≢true (target-IsSome (record s' { table = [] }) p.inv id k e))

  -- In an open store whose handles are in order, with fewer than 2^32 - 2 resources, resetting the
  -- handles does not fault. No request runs the hook of the extension any more, no resource stands
  -- for a request, the same requests are alive, and the handles stay in order.
  pub handles_reset-Reset : s.ready ≡ true → Returns (Reset s) (handles_reset s)
  unfolding handles_reset
  handles_reset-Reset ready =
      rw (handles_reset_ready s ready)
        (Returns.bind (reset_loop-Partly s.table s v few) λ s' p. returns (Partly-Reset s' p))

-- ===== src/Ledger/Control.antt =====
-- What PHP code and libeio do to a request beside finishing it: the ledger stays right.
use pecl_eio.Base.{
  ℕ, ◌≡◌, refl, true, false, Option, List, Option-cases, Bool-cases, inl, inr, none, some, arith,
  ◌==◌, if◌then◌else◌, value_of, write as write_at, is_some, ◌∙◌,
}
use pecl_eio.Base.Returns
use pecl_eio.Base.Returns.{Returns, returns}
use pecl_eio.Request.{EioReq, Reqs, Frees, is_live}
use pecl_eio.Zend.{Php}
use pecl_eio.Callbacks.{free_eio_cb}
use pecl_eio.Handles.{Store, fetch_req, handle_dtor, target, wrong_type}
use pecl_eio.Handles.Resources.{Kind}
use pecl_eio.Handles.Inv.{Inv, Few}
use pecl_eio.Handles.Fetching.{fetch_req-target, target-live}
use pecl_eio.Handles.Releasing.{handle_dtor-Released}
use pecl_eio.Handles.Destroying.{call_destroy-Destroyed}
use pecl_eio.World.{World, Env, with_store}
use pecl_eio.World.Running.{ran-Inv}
use pecl_eio.Api.Control.{is_custom, unfetched, cancel_with, cancel_req, eio_cancel}
use pecl_eio.Results.Release.{free_eio_cb-Freed}
use pecl_eio.Results.Finishing.{destroyed}
use pecl_eio.Results.Life.{Ran}
use pecl_eio.Results.Cancelled.{CancelRuns}
use pecl_eio.Ledger.{
  calling, Has, Apart, Entry, Held, Ledger, addr_of, remove, Covers, Ledgered, Owned, memory,
  data_in, plain_in,
}
use pecl_eio.Ledger.Entries.{remove-Has, listed, Freed-Covers, Covers-block, Covers-counted}

-- Requests with the same types and callback objects carry what they carried.
pub ran-Ledgered :
    (u : Held) (l : Ledger) (s : Store) (p : Held) (m : Reqs)
    → Ran s.reqs m
    → Ledgered u l s p
    → Ledgered u l (record s { reqs = m }) p
ran-Ledgered u l s p m ran v = record {
  inv = ran-Inv s m ran.hooks v.inv;
  few = v.few;
  ready = v.ready;
  covers = v.covers;
  carries = record {
    carried = λ r. ground (arith, ran.same_content r, v.carries.carried r);
    plain = λ r. ground (arith, ran.same_content r, v.carries.plain r);
  };
}

-- An exception changes nothing that anyone holds.
pub unfetched-Owned :
    (g : List Entry) (u : Held) (w : World) (id : ℕ) (kind : Kind)
    → Owned g u w
    → Owned g u (unfetched id kind w)
unfetched-Owned g u w id kind own = elim (Bool-cases (wrong_type id kind w.store)) [
  | inl e ↦ rw e own
  | inr e ↦ rw e own
]

-- The destructor of a resource.
pub dropped-Owned :
    (g : List Entry) (u : Held) (w : World) (id : ℕ)
    → Owned g u w
    → Returns (λ s. Owned g u (with_store w s)) (handle_dtor id w.store)
dropped-Owned g u w id (l, has, v) =
    Returns.mono (handle_dtor-Released w.store v.inv v.few id) λ s d. (
      l,
      has,
      record {
        inv = d.inv;
        few = ground (arith, d.same_length, v.few);
        ready = ground (arith, d.same_ready, v.ready);
        covers = v.covers;
        carries = record {
          carried = λ r. ground (arith, d.same_reqs, v.carries.carried r);
          plain = λ r. ground (arith, d.same_reqs, v.carries.plain r);
        };
      },
    )

-- The request at `r` is alive, and its object is freed: `ledger` has the others.
pub record Ending (g : List Entry) (u : Held) (r : ℕ) (s : Store) (p : Held) : Type 0 where
  pub inv : Inv s
  pub few : Few s
  pub ready : s.ready ≡ true
  pub ledger : Ledger
  pub has : Has g ledger
  pub covers : Covers (calling g u) ledger p
  pub addrs : (k : ℕ) → addr_of k ledger ≡ (if r == k then none else data_in (s.reqs k))
  pub plain : (k : ℕ) → plain_in (s.reqs k) ≡ true
  pub still : is_some (s.reqs r) ≡ true

module _ (env : Env) (f : Frees env.lib) where
  -- The destroy function of libeio, after the object of the request was freed.
  pub destroyed-Owned :
      (g : List Entry) (u : Held) (w : World) (r : ℕ)
      → Ending g u r w.store (memory w.php)
      → Returns (λ w'. Owned g u w' × (w'.store.reqs r ≡ none)) (destroyed env r w)
  destroyed-Owned g u w r d =
      let (q, live) = value_of (w.store.reqs r) d.still in
      Returns.bind (call_destroy-Destroyed env.lib f w.store d.inv d.few r q live) λ s e. returns (
        (
          d.ledger,
          d.has,
          record {
            inv = e.inv;
            few = ground (arith, e.same_resources, d.few);
            ready = ground (arith, e.same_ready, d.ready);
            covers = d.covers;
            carries = record {
              carried = λ k. ground (arith, e.freed k, d.addrs k);
              plain = λ k. ground (arith, e.freed k, d.plain k);
            };
          },
        ),
        ground (arith, e.freed r),
      )

module _ (env : Env) (cancels : CancelRuns env) where
  -- The state after a cancellation: the request carries no object any more.
  abbrev Emptied : List Entry → Held → ℕ → World → Type 0
  Emptied g u r w = Owned g u w × (data_in (w.store.reqs r) ≡ none)

  cancelled-Owned :
      (g : List Entry) (u : Held) (l l' : Ledger) (w : World) (r : ℕ) (q' : EioReq) (p : Php)
      → Has g l'
      → Ledgered (calling g u) l w.store (memory w.php)
      → env.cancel r w.store.reqs r ≡ some q'
      → Covers (calling g u) l' (memory p)
      → ((k : ℕ) → addr_of k l' ≡ (if r == k then none else addr_of k l))
      → Emptied g u r (record w {
        store = record w.store {
          reqs = write_at (env.cancel r w.store.reqs) r (some (record q' { cb_data = none }));
        };
        php = p;
      })
  cancelled-Owned g u l l' w r q' p has v still covers addrs =
      let m = env.cancel r w.store.reqs in
      let d = cancels.ran r w.store.reqs in
      let done = write_at m r (some (record q' { cb_data = none })) in
      (
        (
          l',
          has,
          record {
            inv =
                ran-Inv w.store done
                  (record {
                    hooks = λ k. ground (arith, d.hooks.hooks k, still);
                    nulls = λ k. ground (arith, d.hooks.nulls k, still);
                  })
                  v.inv;
            few = v.few;
            ready = v.ready;
            covers = covers;
            carries = record {
              carried = λ k. ground (arith, addrs k, v.carries.carried k, d.same_content k);
              plain = λ k. ground (arith, v.carries.plain k, d.same_content k, still);
            };
          },
        ),
        ground arith,
      )

  cancel_with-Owned :
      (g : List Entry) (u : Held) (l : Ledger) (w : World) (r : ℕ) (q : EioReq)
      → w.store.reqs r ≡ some q
      → Apart g r
      → Has g l
      → Ledgered (calling g u) l w.store (memory w.php)
      → Returns (λ out. Emptied g u r out.1) (cancel_with env free_eio_cb r w)
  unfolding cancel_with free_eio_cb
  cancel_with-Owned g u l w r q live apart has v =
      let d = cancels.ran r w.store.reqs in
      let (q', still) =
        is_live (env.cancel r w.store.reqs r) q (ground (arith, d.same_content r)) in
      let same : q'.cb_data ≡ addr_of r l = ground (arith, d.same_content r, v.carries.carried r) in
      elim (Option-cases (addr_of r l)) [
        | inl e ↦
            rw (still, same ∙ e)
              (returns
                (cancelled-Owned g u l l w r q' w.php has v still v.covers (λ k. ground (arith))))
        | inr (a, e) ↦
            let (c, f) = listed l r a v.covers.distinct e in
            rw (still, same ∙ e)
              (Returns.bind
                (free_eio_cb-Freed a c w.php (Covers-block (calling g u) l w.php r a c v.covers f)
                  (Covers-counted (calling g u) l w.php r a c v.covers f))
                λ p h. returns (
                  cancelled-Owned g u l (remove r l) w r q' p (remove-Has l r a c f g apart has) v
                    still (Freed-Covers (calling g u) l w.php p r a c v.covers f h) f.others))
      ]

  pub eio_cancel-Owned :
      (g : List Entry) (u : Held) (w : World) (id : ℕ)
      → ((r : ℕ) → target w.store id ≡ some r → Apart g r)
      → Owned g u w
      → Returns
          (λ out.
            Owned g u out.1
            × ((r : ℕ)
                → fetch_req id Kind.req w.store ≡ some (some r)
                → data_in (out.1.store.reqs r) ≡ none))
          (eio_cancel env id w)
  unfolding eio_cancel cancel_req
  eio_cancel-Owned g u w id apart (l, has, v) =
      by_fetch _ (fetch_req-target w.store v.inv id Kind.req) (λ r e.
        let at : target w.store id ≡ some r = ground arith in
        (at, target-live w.store v.inv id r at))
    where
      by_fetch :
          (o : Option ℕ)
          → fetch_req id Kind.req w.store ≡ some o
          → ((r : ℕ)
              → o ≡ some r
              → (target w.store id ≡ some r) × (is_some (w.store.reqs r) ≡ true))
          → Returns
              (λ out.
                Owned g u out.1
                × ((r : ℕ)
                    → fetch_req id Kind.req w.store ≡ some (some r)
                    → data_in (out.1.store.reqs r) ≡ none))
              (eio_cancel env id w)
      by_fetch none e h =
          rw (e, eio_cancel) (returns (unfetched-Owned g u w id Kind.req (l, has, v), λ r i. cc))
      by_fetch (some r) e h =
          let (at, alive) = h r refl in
          let (q, live) = value_of (w.store.reqs r) alive in
          let plain : is_custom q.type ≡ false = ground (arith, v.carries.plain r) in
          rw (e, eio_cancel)
            (rw (live, plain)
              (Returns.mono (cancel_with-Owned g u l w r q live (apart r at) has v)
                λ out (own, empty). (own, λ k i. ground arith)))

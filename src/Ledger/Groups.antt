-- ===== src/Ledger/Groups.antt =====
-- The functions on groups, and `eio_get_last_error`: they change no callback object, and the ledger
-- stays as it is.
use pecl_eio.Base.{
  ℕ, ◌≡◌, refl, true, Option, none, some, List, arith, Bool-cases, inl, inr, ◌⊎◌, value_of,
  write as write_at, is_some, ◌∙◌,
}
use pecl_eio.Base.Int.{ℤ, pos, negsuc, to_int32}
use pecl_eio.Base.Returns.{Returns, returns}
use pecl_eio.Request.{EioReq, Reqs}
use pecl_eio.Handles.{fetch_req}
use pecl_eio.Handles.Resources.{Kind}
use pecl_eio.Handles.Fetching.{fetch_req-target, target-live}
use pecl_eio.World.{World, Env, Ret, bails, initialized}
use pecl_eio.Api.Control.{with_reqs, eio_get_last_error, eio_grp_add, eio_grp_limit, eio_grp_cancel}
use pecl_eio.Results.Life.{Ran}
use pecl_eio.Ledger.{Entry, Held, Owned, calling, memory}
use pecl_eio.Ledger.Control.{ran-Ledgered, unfetched-Owned}

-- The functions of libeio on groups keep types, callback objects and destroy functions.
pub record GroupRuns (env : Env) : Type 0 where
  pub cancels : (g : ℕ) (m : Reqs) → Ran m (Env.grp_cancel env g m)
  pub adds : (g r : ℕ) (m : Reqs) → Ran m (Env.grp_add env g r m)
  pub limits : (g : ℕ) (n : ℤ) (m : Reqs) → Ran m (Env.grp_limit env g n m)

Ran-trans : (m m' m'' : Reqs) → Ran m m' → Ran m' m'' → Ran m m''
Ran-trans m m' m'' a b = record {
  hooks = record {
    hooks = λ k. b.hooks.hooks k ∙ a.hooks.hooks k;
    nulls = λ k. b.hooks.nulls k ∙ a.hooks.nulls k;
  };
  same_content = λ k. b.same_content k ∙ a.same_content k;
}

-- A result that is set.
result-Ran :
    (m : Reqs) (r : ℕ) (q : EioReq) (z : ℤ)
    → m r ≡ some q
    → Ran m (write_at m r (some (record q { result = z })))
result-Ran m r q z live = record {
  hooks = record { hooks = λ k. ground arith; nulls = λ k. ground arith };
  same_content = λ k. ground arith;
}

ran-Owned :
    (g : List Entry) (u : Held) (w : World) (m : Reqs)
    → Ran w.store.reqs m
    → Owned g u w
    → Owned g u (with_reqs w m)
ran-Owned g u w m ran (l, has, v) =
    (l, has, ran-Ledgered (calling g u) l w.store (memory w.php) m ran v)

module _ (g : List Entry) (u : Held) where
  abbrev After : Ret × World → Type 0
  After out = Owned g u out.1

  -- A resource gives NULL or a live request.
  fetched :
      (id : ℕ) (kind : Kind) (w : World)
      → Owned g u w
      → (fetch_req id kind w.store ≡ some none)
        ⊎ ((r : ℕ) × (q : EioReq) × (fetch_req id kind w.store ≡ some (some r))
            × (w.store.reqs r ≡ some q))
  fetched id kind w (l, has, v) =
      by_fetch _ (fetch_req-target w.store v.inv id kind)
        (λ r e. target-live w.store v.inv id r (ground arith))
    where
      by_fetch :
          (o : Option ℕ)
          → fetch_req id kind w.store ≡ some o
          → ((r : ℕ) → o ≡ some r → is_some (w.store.reqs r) ≡ true)
          → (fetch_req id kind w.store ≡ some none)
            ⊎ ((r : ℕ) × (q : EioReq) × (fetch_req id kind w.store ≡ some (some r))
                × (w.store.reqs r ≡ some q))
      by_fetch none e alive = inl e
      by_fetch (some r) e alive =
          let (q, live) = value_of (w.store.reqs r) (alive r refl) in inr (r, q, e, live)

  module _ (env : Env) where
    pub eio_get_last_error-Owned :
        (id : ℕ) (w : World) → Owned g u w → Returns After (eio_get_last_error env id w)
    unfolding eio_get_last_error
    eio_get_last_error-Owned id w own = elim (fetched id Kind.req w own) [
      | inl e ↦ rw (e, eio_get_last_error) (returns (unfetched-Owned g u w id Kind.req own))
      | inr (r, q, e, live) ↦ rw (e, eio_get_last_error) (rw live (returns own))
    ]

    module _ (runs : GroupRuns env) where
      pub eio_grp_limit-Owned :
          (id : ℕ) (limit : ℤ) (w : World)
          → Owned g u w
          → Returns After (eio_grp_limit env id limit w)
      unfolding eio_grp_limit
      eio_grp_limit-Owned id limit w own = elim (Bool-cases (bails env w)) [
        | inl b ↦ rw b (returns own)
        | inr b ↦ elim (fetched id Kind.grp w own) [
          | inl e ↦ rw (b, e) (returns (unfetched-Owned g u (initialized env w) id Kind.grp own))
          | inr (r, q, e, live) ↦
              let m = initialized env w in
              rw (b, e)
                (returns (ran-Owned g u m _ (runs.limits r (to_int32 limit) w.store.reqs) own))
        ]
      ]

      pub eio_grp_cancel-Owned :
          (id : ℕ) (w : World) → Owned g u w → Returns After (eio_grp_cancel env id w)
      unfolding eio_grp_cancel
      eio_grp_cancel-Owned id w own = elim (Bool-cases (bails env w)) [
        | inl b ↦ rw b (returns own)
        | inr b ↦ elim (fetched id Kind.grp w own) [
          | inl e ↦ rw (b, e) (returns (unfetched-Owned g u (initialized env w) id Kind.grp own))
          | inr (r, q, e, live) ↦
              let set = result-Ran w.store.reqs r q (negsuc 0) live in
              rw (b, e, live)
                (returns (
                  ran-Owned g u (initialized env w) _ (Ran-trans _ _ _ set (runs.cancels r _)) own))
        ]
      ]

      pub eio_grp_add-Owned :
          (zgrp zreq : ℕ) (w : World) → Owned g u w → Returns After (eio_grp_add env zgrp zreq w)
      unfolding eio_grp_add
      eio_grp_add-Owned zgrp zreq w own = elim (Bool-cases (bails env w)) [
        | inl b ↦ rw b (returns own)
        | inr b ↦ elim (fetched zgrp Kind.grp w own) [
          | inl e ↦ rw (b, e) (returns (unfetched-Owned g u (initialized env w) zgrp Kind.grp own))
          | inr (grp, q, e, live) ↦ elim (fetched zreq Kind.req w own) [
            | inl i ↦
                rw (b, e, i) (returns (unfetched-Owned g u (initialized env w) zreq Kind.req own))
            | inr (r, q', i, live') ↦
                let set = result-Ran w.store.reqs grp q (pos 0) live in
                rw (b, e, i, live)
                  (returns (
                    ran-Owned g u (initialized env w) _ (Ran-trans _ _ _ set (runs.adds grp r _))
                      own))
          ]
        ]
      ]

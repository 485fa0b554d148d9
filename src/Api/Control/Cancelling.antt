-- ===== src/Api/Control/Cancelling.antt =====
-- Cancelling: stale resources are harmless, and cancelling twice frees nothing twice.
use pecl_eio.Base.{
  ℕ, ◌≡◌, refl, true, false, Bool, Option, none, some, arith, ap, Bool-cases, inl, inr, ◌⊎◌, ◌∙◌,
  sym, not, if◌then◌else◌,
}
use pecl_eio.Base.Int.{ℤ}
use mathlib.Core.Option.{some-injective}
use pecl_eio.Base.Returns
use pecl_eio.Base.Returns.{Returns, returns}
use pecl_eio.Request.{EioReq, Reqs, content}
use pecl_eio.Zend.{Php, throw, wrong_resource}
use pecl_eio.Callbacks.{free_eio_cb, free_eio_cb_custom}
use pecl_eio.Handles.{fetch_req, target, wrong_type}
use pecl_eio.Handles.Resources.{Kind, Resource, lookup, same_kind}
use pecl_eio.Handles.Inv.{Inv}
use pecl_eio.Handles.Fetching.{fetch_req-target, fetch_same}
use pecl_eio.World.{World, Env, Ret, false_value, null_value, initialized, bails, with_php}
use pecl_eio.Api.Control.{
  unfetched, cancel_with, cancel_req, cancel_custom, eio_cancel, eio_get_last_error, eio_grp_add,
  eio_grp_limit, eio_grp_cancel, is_custom, is_locked,
}

-- What the extension relies on of `eio_cancel`: the request stays, with its type and its callback.
pub record Cancels (env : Env) : Type 0 where
  pub keeps : (r : ℕ) (m : Reqs) (k : ℕ) → content (Env.cancel env r m k) ≡ content (m k)

fetched_stale :
    (w : World) (id : ℕ) (kind : Kind)
    → Inv w.store
    → target w.store id ≡ none
    → fetch_req id kind w.store ≡ some none
fetched_stale w id kind v gone = ground (arith, fetch_req-target w.store v id kind)

-- One TypeError more, unless the type is right.
abbrev pub refused : Bool → World → World
refused true w = w
refused false w = with_php w (throw wrong_resource w.php)

unfetched_lem :
    (w : World) (id : ℕ) (kind : Kind) (res : Resource)
    → lookup id w.store.resources ≡ some res
    → unfetched id kind w ≡ refused (same_kind kind res.kind) w
unfolding wrong_type
unfetched_lem w id kind res e = rw (e, wrong_type) (by_kind (same_kind kind res.kind))
  where
    by_kind :
        (b : Bool) → (if not b then with_php w (throw wrong_resource w.php) else w) ≡ refused b w
    by_kind true = refl
    by_kind false = refl

-- What was fetched was of the right type.
fetched_right :
    (id r : ℕ) (w : World)
    → fetch_req id Kind.req w.store ≡ some (some r)
    → unfetched id Kind.req w ≡ w
unfolding fetch_req wrong_type
fetched_right id r w e =
    let right : wrong_type id Kind.req w.store ≡ false = ground arith in rw right refl

unfetched_store : (id : ℕ) (kind : Kind) (w : World) → (unfetched id kind w).store ≡ w.store
unfetched_store id kind w = elim (Bool-cases (wrong_type id kind w.store)) [
  | inl e ↦ rw e refl
  | inr e ↦ rw e refl
]

module _ (env : Env) where
  -- Where the handles are in order, a resource, of either type, stands for no request, and the
  -- initialization reports no fatal error: `eio_cancel` returns NULL, `eio_get_last_error` FALSE,
  -- and `eio_grp_cancel`, `eio_grp_limit` and `eio_grp_add` (of it as the group) NULL after the
  -- initialization. Those that take resources of its type change nothing more, and the others throw
  -- one TypeError and change nothing more.
  pub stale_harmless :
      (w : World) (id : ℕ) (res : Resource)
      → Inv w.store
      → lookup id w.store.resources ≡ some res
      → target w.store id ≡ none
      → bails env w ≡ false
      → (eio_cancel env id w ≡ some (null_value, refused (same_kind Kind.req res.kind) w))
        × (eio_get_last_error env id w
            ≡ some (false_value, refused (same_kind Kind.req res.kind) w))
        × (eio_grp_cancel env id w
            ≡ some (null_value, refused (same_kind Kind.grp res.kind) (initialized env w)))
        × ((limit : ℤ)
            → eio_grp_limit env id limit w
              ≡ some (null_value, refused (same_kind Kind.grp res.kind) (initialized env w)))
        × ((other : ℕ)
            → eio_grp_add env id other w
              ≡ some (null_value, refused (same_kind Kind.grp res.kind) (initialized env w)))
  unfolding eio_cancel eio_get_last_error eio_grp_cancel eio_grp_limit eio_grp_add
  stale_harmless w id res v is gone ok =
      let as_req = fetched_stale w id Kind.req v gone in
      let as_grp = fetched_stale w id Kind.grp v gone in
      let told_req = unfetched_lem w id Kind.req res is in
      let told_grp = unfetched_lem (initialized env w) id Kind.grp res is in
      (
        rw as_req (ap (λ v. some (null_value, v)) told_req),
        rw as_req (ap (λ v. some (false_value, v)) told_req),
        rw (ok, as_grp) (ap (λ v. some (null_value, v)) told_grp),
        λ _. rw (ok, as_grp) (ap (λ v. some (null_value, v)) told_grp),
        λ _. rw (ok, as_grp) (ap (λ v. some (null_value, v)) told_grp),
      )

-- The request has no callback object any more.
abbrev emptied : Option EioReq → Bool
emptied none = false
emptied (some q) = elim q.cb_data [ none ↦ true | some a ↦ false ]

record Emptied (r : ℕ) (w w' : World) : Type 0 where
  empty : emptied (w'.store.reqs r) ≡ true
  same_handles : w'.store.handles ≡ w.store.handles
  same_resources : w'.store.resources ≡ w.store.resources

module _ (env : Env) (c : Cancels env) where
  cancel_with-Emptied :
      (free : Option ℕ → Php → Option Php) (r : ℕ) (w : World) (out : Ret × World)
      → cancel_with env free r w ≡ some out
      → Emptied r w out.1
  unfolding cancel_with
  cancel_with-Emptied free r w (ret, w') e = ground arith

  cancel_custom-Emptied :
      (r : ℕ) (q : EioReq) (w : World) (out : Ret × World)
      → cancel_custom env r q w ≡ some out
      → Emptied r w out.1 ⊎ (out.1 ≡ w)
  unfolding cancel_custom
  cancel_custom-Emptied r q w out e = ground (arith, cancel_with-Emptied free_eio_cb_custom r w out)

  cancel_req-Emptied :
      (r : ℕ) (w : World) (out : Ret × World)
      → cancel_req env r w ≡ some out
      → Emptied r w out.1 ⊎ (out.1 ≡ w)
  unfolding cancel_req
  cancel_req-Emptied r w out e = by_req (w.store.reqs r) refl
    where
      by_req : (o : Option EioReq) → w.store.reqs r ≡ o → Emptied r w out.1 ⊎ (out.1 ≡ w)
      by_req none i = cc
      by_req (some q) i =
          ground (arith, cancel_with-Emptied free_eio_cb r w out, cancel_custom-Emptied r q w out)

  cancel_with-again :
      (free : Option ℕ → Php → Option Php) (r : ℕ) (w : World)
      → ((p : Php) → free none p ≡ some p)
      → emptied (w.store.reqs r) ≡ true
      → Returns (λ out. out.1.php ≡ w.php) (cancel_with env free r w)
  unfolding cancel_with
  cancel_with-again free r w keep e =
      by_req (env.cancel r w.store.reqs r) refl (c.keeps r w.store.reqs r)
    where
      by_req :
          (o : Option EioReq)
          → env.cancel r w.store.reqs r ≡ o
          → content o ≡ content (w.store.reqs r)
          → Returns (λ out. out.1.php ≡ w.php) (cancel_with env free r w)
      by_req none i same = ground arith
      by_req (some q) i same =
          let no_data : q.cb_data ≡ none = ground arith in
          rw (i, no_data, keep w.php) (returns refl)

  cancel_custom-again :
      (r : ℕ) (q : EioReq) (w : World)
      → w.store.reqs r ≡ some q
      → q.cb_data ≡ none
      → Returns (λ out. out.1.php ≡ w.php) (cancel_custom env r q w)
  unfolding cancel_custom is_locked free_eio_cb_custom
  cancel_custom-again r q w e no_data =
      rw no_data (cancel_with-again free_eio_cb_custom r w (λ p. refl) (ground arith))

  cancel_req-again :
      (r : ℕ) (w : World)
      → emptied (w.store.reqs r) ≡ true
      → Returns (λ out. out.1.php ≡ w.php) (cancel_req env r w)
  unfolding cancel_req free_eio_cb
  cancel_req-again r w e = by_req (w.store.reqs r) refl
    where
      by_req :
          (o : Option EioReq)
          → w.store.reqs r ≡ o
          → Returns (λ out. out.1.php ≡ w.php) (cancel_req env r w)
      by_req none i = ground arith
      by_req (some q) i = elim (Bool-cases (is_custom q.type)) [
        | inl y ↦ rw (i, y) (cancel_custom-again r q w i (ground arith))
        | inr y ↦ rw (i, y) (cancel_with-again free_eio_cb r w (λ p. refl) e)
      ]

  after_cancel :
      (id r : ℕ) (w w' : World)
      → fetch_req id Kind.req w.store ≡ some (some r)
      → Returns (λ out. out.1.php ≡ w'.php) (cancel_req env r w')
      → (w'.store.handles ≡ w.store.handles)
      → (w'.store.resources ≡ w.store.resources)
      → Returns (λ out. out.1.php ≡ w'.php) (eio_cancel env id w')
  unfolding eio_cancel
  after_cancel id r w w' e again h t = rw (fetch_same id Kind.req w.store w'.store h t, e) again

  unchanged_again :
      (id : ℕ) (w w' : World)
      → w' ≡ w
      → Returns (λ again. again.1.php ≡ w.php) (eio_cancel env id w)
      → Returns (λ again. again.1.php ≡ w'.php) (eio_cancel env id w')
  unchanged_again id w w' e h = rw e h

  eio_cancel-unfetched :
      (id : ℕ) (w : World)
      → fetch_req id Kind.req w.store ≡ some none
      → eio_cancel env id w ≡ some (null_value, unfetched id Kind.req w)
  unfolding eio_cancel
  eio_cancel-unfetched id w e = rw e refl

  unfetched_again :
      (id : ℕ) (w : World)
      → fetch_req id Kind.req w.store ≡ some none
      → Returns (λ again. again.1.php ≡ (unfetched id Kind.req w).php) (eio_cancel env id w)
  unfetched_again id w e = rw (eio_cancel-unfetched id w e) (returns refl)

  fetched_again :
      (id r : ℕ) (w : World)
      → fetch_req id Kind.req w.store ≡ some (some r)
      → Returns (λ again. again.1.php ≡ w.php) (eio_cancel env id w)
      → Returns (λ again. again.1.php ≡ (unfetched id Kind.req w).php) (eio_cancel env id w)
  fetched_again id r w e h =
      Returns.mono h λ again same. same ∙ ap (λ v. v.php) (sym (fetched_right id r w e))

  -- Where `eio_cancel` of a resource returns, and libeio keeps the type and the callback object of
  -- a request that it cancels, a second `eio_cancel` of the same resource does not fault. It leaves
  -- the values of PHP as the first left them, but for the TypeError that it throws where the
  -- resource is not one of a request: no callback object is freed twice.
  pub eio_cancel-twice :
      (id : ℕ) (w : World) (out : Ret × World)
      → eio_cancel env id w ≡ some out
      → Returns (λ again. again.1.php ≡ (unfetched id Kind.req out.1).php) (eio_cancel env id out.1)
  unfolding eio_cancel
  eio_cancel-twice id w out e = by_fetch (fetch_req id Kind.req w.store) refl
    where
      by_fetch :
          (o : Option (Option ℕ))
          → fetch_req id Kind.req w.store ≡ o
          → Returns
              (λ again. again.1.php ≡ (unfetched id Kind.req out.1).php)
              (eio_cancel env id out.1)
      by_fetch none i = ground arith
      by_fetch (some none) i =
          let same : out.1 ≡ unfetched id Kind.req w =
            sym (ap (λ v. v.1) (some-injective _ _ (sym (eio_cancel-unfetched id w i) ∙ e))) in
          let store = ap (λ v. v.store) same ∙ unfetched_store id Kind.req w in
          unfetched_again id out.1 (
            fetch_same id Kind.req w.store out.1.store (ap (λ s. s.handles) store)
              (ap (λ s. s.resources) store)
            ∙ i)
      by_fetch (some (some r)) i =
          let first : cancel_req env r w ≡ some out = ground arith in
          elim (cancel_req-Emptied r w out first) [
            | inl d ↦
                fetched_again id r out.1
                  (fetch_same id Kind.req w.store out.1.store d.same_handles d.same_resources ∙ i)
                  (after_cancel id r w out.1 i (cancel_req-again r out.1 d.empty) d.same_handles
                    d.same_resources)
            | inr same ↦
                fetched_again id r out.1 (ap (λ v. fetch_req id Kind.req v.store) same ∙ i)
                  (unchanged_again id w out.1 same (rw e (returns (ap (λ v. v.php) same))))
          ]

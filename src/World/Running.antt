-- ===== src/World/Running.antt =====
-- What libeio does to a request that it runs, as far as the handles can tell.
use pecl_eio.Base.{ℕ, ◌≡◌, ◌∙◌}
use pecl_eio.Request.{Reqs, hooked_in, null_in}
use pecl_eio.Handles.{Store}
use pecl_eio.Handles.Inv.{Inv}
use pecl_eio.World.{Env}
use pecl_eio.World.Submission.{StoreReady}

-- The requests may change, but not which of them have a hook, or no destroy function.
pub record SameHooks (m m' : Reqs) : Type 0 where
  pub hooks : (k : ℕ) → hooked_in (m' k) ≡ hooked_in (m k)
  pub nulls : (k : ℕ) → null_in (m' k) ≡ null_in (m k)

pub ran-Inv : (s : Store) (m : Reqs) → SameHooks s.reqs m → Inv s → Inv (record s { reqs = m })
ran-Inv s m h i = record {
  counted = i.counted;
  alive = i.alive;
  linked = i.linked;
  owner = i.owner;
  hooked = λ k. h.hooks k ∙ i.hooked k;
  original = i.original;
  callable = λ k. h.nulls k ∙ i.callable k;
  closed = i.closed;
  distinct = i.distinct;
}

pub ran-StoreReady :
    (env : Env) (s : Store) (m : Reqs)
    → SameHooks s.reqs m
    → StoreReady env s
    → StoreReady env (record s { reqs = m })
ran-StoreReady env s m h v = record {
  inv = ran-Inv s m h v.inv;
  few = v.few;
  ready = v.ready;
  fresh = v.fresh;
}

-- ===== src/Handles/Fetching.antt =====
-- What `php_eio_fetch_req` returns.
use pecl_eio.Base.{
  ℕ, ◌≡◌, refl, true, false, Bool, Option, none, some, arith, if◌then◌else◌, ◌>>=◌, is_some,
}
use pecl_eio.Handles.{Store, fetch_req, target}
use pecl_eio.Handles.Resources.{Kind, same_kind, Resource, ptr_of, lookup, held-lookup}
use pecl_eio.Handles.Inv.{Inv, req_of, target-IsSome}

abbrev pub is_of_kind : Kind → Option Resource → Bool
is_of_kind kind none = false
is_of_kind kind (some res) = same_kind kind res.kind

module _ (s : Store) (v : Inv s) where
  -- A request that a resource stands for is alive.
  pub target-live : (id r : ℕ) → target s id ≡ some r → is_some (s.reqs r) ≡ true
  target-live id r e = ground (arith, v.hooked r, target-IsSome s v id r e)

  fetched :
      (id : ℕ) (o : Option ℕ)
      → ptr_of (lookup id s.resources) ≡ o
      → elim o as (λ _. Option (Option ℕ)) [
        | none ↦ some none
        | some a ↦ s.handles a >>= λ h. some h.req
      ]
        ≡ some (elim o as (λ _. Option ℕ) [ none ↦ none | some a ↦ req_of (s.handles a) ])
  fetched id none e = refl
  fetched id (some a) e = ground (arith, v.alive a, v.counted a, held-lookup id a s.resources e)

  -- In a store whose handles are in order, fetching never faults. A resource of the right kind
  -- gives the request that it stands for; NULL comes of a resource of the other kind, of one that
  -- does not exist, and of one whose request is gone.
  pub fetch_req-target :
      (id : ℕ) (kind : Kind)
      → fetch_req id kind s
        ≡ some (if is_of_kind kind (lookup id s.resources) then target s id else none)
  unfolding fetch_req
  fetch_req-target id kind = by_kind (lookup id s.resources) refl
    where
      by_kind :
          (o : Option Resource)
          → lookup id s.resources ≡ o
          → fetch_req id kind s ≡ some (if is_of_kind kind o then target s id else none)
      by_kind none e = ground arith
      by_kind (some res) e = ground (arith, fetched id (ptr_of (lookup id s.resources)) refl)

-- Fetching reads the handles and the resources only.
pub fetch_same :
    (id : ℕ) (kind : Kind) (s s' : Store)
    → s'.handles ≡ s.handles
    → s'.resources ≡ s.resources
    → fetch_req id kind s' ≡ fetch_req id kind s
unfolding fetch_req
fetch_same id kind s s' h r = rw (h, r) refl

-- ===== src/Handles/Inv.antt =====
-- The invariant of the request handles.
use pecl_eio.Base.{
  ℕ, ◌+◌, ◌<◌, ◌^◌, ◌≡◌, refl, Bool, true, false, not, ◌&&◌, Option, none, some, arith, ◌==◌,
  if◌then◌else◌, ltb, is_some, length,
}
use pecl_eio.Request.{Reqs, hooked_in, null_in, is_hook, is_null}
use pecl_eio.Handles.{Handle, Store, dec32, target}
use pecl_eio.Handles.Table.{HandleTable, find, Distinct}
use pecl_eio.Handles.Resources.{held, held-le-length, lookup, ptr_of}

abbrev pub refs_of : Option Handle → ℕ
refs_of none = 0
refs_of (some h) = h.refs

abbrev pub req_of : Option Handle → Option ℕ
req_of none = none
req_of (some h) = h.req

-- The handle keeps a destroy function of libeio.
abbrev pub keeps_orig : Option Handle → Bool
keeps_orig none = true
keeps_orig (some h) = not (is_hook h.orig_destroy) && not (is_null h.orig_destroy)

abbrev pub one_if : Bool → ℕ
one_if true = 1
one_if false = 0

-- A handle's count is the reference of libeio, while the request lives, and one for each resource
-- that holds it; the handle is allocated exactly while that is positive. The table and the handles
-- agree on which request a handle is of, and a request runs the extension's hook exactly while it
-- is in the table. The destroy function kept in a handle is libeio's own, and every request has
-- one. Once the table is destroyed it holds nothing.
pub record Inv (s : Store) : Type 0 where
  pub counted :
      (a : ℕ) → refs_of (s.handles a) ≡ one_if (is_some (req_of (s.handles a))) + held a s.resources
  pub alive : (a : ℕ) → is_some (s.handles a) ≡ ltb 0 (refs_of (s.handles a))
  pub linked : (r a : ℕ) → find r s.table ≡ some a → req_of (s.handles a) ≡ some r
  pub owner : (r a : ℕ) → req_of (s.handles a) ≡ some r → find r s.table ≡ some a
  pub hooked : (r : ℕ) → hooked_in (s.reqs r) ≡ is_some (find r s.table)
  pub original : (a : ℕ) → keeps_orig (s.handles a) ≡ true
  pub callable : (r : ℕ) → null_in (s.reqs r) ≡ false
  pub closed : (r : ℕ) → s.ready ≡ false → find r s.table ≡ none
  pub distinct : Distinct s.table

-- What a resource stands for is in the table.
pub target-IsSome :
    (s : Store) → Inv s → (id k : ℕ) → target s id ≡ some k → is_some (find k s.table) ≡ true
target-IsSome s v id k e = at (ptr_of (lookup id s.resources)) e
  where
    at :
        (o : Option ℕ)
        → elim o as (λ _. Option ℕ) [ none ↦ none | some b ↦ req_of (s.handles b) ] ≡ some k
        → is_some (find k s.table) ≡ true
    at none h = cc
    at (some b) h = ground (arith, v.owner k b h)

-- A pointer stands for the same request in two heaps that agree on its handle.
pub target_same :
    (m n : ℕ → Option Handle) (o : Option ℕ)
    → ((b : ℕ) → o ≡ some b → req_of (m b) ≡ req_of (n b))
    → elim o as (λ _. Option ℕ) [ none ↦ none | some b ↦ req_of (m b) ]
      ≡ elim o as (λ _. Option ℕ) [ none ↦ none | some b ↦ req_of (n b) ]
target_same m n none h = refl
target_same m n (some b) h = h b refl

-- There are too few resources for a count of 32 bits to wrap round.
abbrev pub Few : Store → Type 0
Few s = length s.resources + 2 < 2 ^ 32

abbrev pub dropped : Handle → Option Handle
dropped h = if dec32 h.refs == 0 then none else some (record h { req = none; refs = dec32 h.refs })

module _ (s : Store) (v : Inv s) (few : Few s) where
  pub refs-small : (a : ℕ) → refs_of (s.handles a) + 1 < 2 ^ 32
  refs-small a = ground (arith, v.counted a, held-le-length a s.resources)

  -- What is left when the request `r` lets go of its handle at `a`.
  pub dropped-Inv :
      (r a : ℕ) (h : Handle) (m : ℕ → Option Handle) (t : HandleTable) (q : Reqs)
      → s.handles a ≡ some h
      → find r s.table ≡ some a
      → ((b : ℕ) → m b ≡ (if a == b then dropped h else s.handles b))
      → ((k : ℕ) → find k t ≡ (if r == k then none else find k s.table))
      → Distinct t
      → ((k : ℕ) → hooked_in (q k) ≡ (if r == k then false else hooked_in (s.reqs k)))
      → ((k : ℕ) → null_in (q k) ≡ false)
      → Inv (record s { handles = m; table = t; reqs = q })
  dropped-Inv r a h m t q is at hm ht dt hq hn = record {
    counted = λ b. ground (arith, hm b, v.counted b, v.linked r a, refs-small a);
    alive = λ b. ground (arith, hm b, v.alive b, v.counted a, v.linked r a, refs-small a);
    linked = λ k b e. ground (arith, hm b, ht k, v.linked k b, v.linked r a);
    owner = λ k b e. ground (arith, hm b, ht k, v.owner k b, v.linked r a);
    hooked = λ k. ground (arith, hq k, ht k, v.hooked k);
    original = λ b. ground (arith, hm b, v.original b);
    callable = hn;
    closed = λ k e. ground (arith, ht k, v.closed k);
    distinct = dt;
  }

-- ===== src/Handles.antt =====
-- Request handles: php8/php_eio.c, `php_eio_handle` to `php_eio_handles_reset`.
-- A handle is an object of the persistent heap that outlives its request. `table` is the hash
-- table `php_eio_handles` in insertion order, `resources` the resources of PHP, newest first.
-- An operation returns `none` where it would use freed memory or a NULL pointer.
pub mod Table
pub mod Resources
pub mod Inv
pub mod Destroying
pub mod Registering
pub mod Releasing
pub mod Resetting
pub mod Fetching
pub mod Steps
pub mod Numbering
pub mod Weak
pub mod Refinement
pub mod Tests
use pecl_eio.Base.{
  ℕ, ◌+◌, ◌-◌, ◌%◌, ◌^◌, Bool, true, false, not, Option, none, some, List, [], ◌∷◌, ◌++◌, ◌==◌,
  if◌then◌else◌, ◌>>=◌, write,
}
use pecl_eio.Request.{Destroy, null, hook, libeio, EioReq, Reqs, Libeio}
use Table.{HandleTable, find, del}
use Resources.{Kind, same_kind, Resource, lookup, clear, ptr_of}

pub record Handle : Type 0 where
  pub req : Option ℕ
  pub refs : ℕ
  pub orig_destroy : Destroy

pub record Store : Type 0 where
  pub ready : Bool
  pub table : HandleTable
  pub handles : ℕ → Option Handle
  pub reqs : Reqs
  pub resources : List (ℕ × Resource)
  pub next_id : ℕ

-- `refs` is an `unsigned` of 32 bits.
abbrev pub inc32 : ℕ → ℕ
inc32 n = (n + 1) % 2 ^ 32

abbrev pub dec32 : ℕ → ℕ
dec32 n = (n + (2 ^ 32 - 1)) % 2 ^ 32

-- `php_eio_handle_release`
unfoldable pub release : ℕ → Store → Option Store
release a s = do
  h ← s.handles a
  let refs = dec32 h.refs
  let left = if refs == 0 then none else some (record h { refs = refs })
  some (record s { handles = write s.handles a left })

-- The part of `php_eio_req_destroy_hook` for a request that has the handle at `a`.
unfoldable pub unlink : ℕ → ℕ → Store → Option (Destroy × Store)
unlink r a s = do
  h ← s.handles a
  let handles = write s.handles a (some (record h { req = none }))
  s' ← release a (record s { handles = handles; table = del r s.table })
  some (h.orig_destroy, s')

-- Its first half: finds the destroy function of libeio and drops the handle.
unfoldable pub take_handle : ℕ → Store → Option (Destroy × Store)
take_handle r s =
    if s.ready
    then elim (find r s.table) [ none ↦ some (null, s) | some a ↦ unlink r a s ]
    else some (null, s)

-- Its second half: `if (orig_destroy && orig_destroy != php_eio_req_destroy_hook)`.
abbrev pub call_orig : Libeio → Destroy → ℕ → Store → Store
call_orig lib null r s = s
call_orig lib hook r s = s
call_orig lib (libeio f) r s = record s { reqs = Libeio.destroy lib f r s.reqs }

-- `php_eio_req_destroy_hook`
unfoldable pub destroy_hook : Libeio → ℕ → Store → Option Store
destroy_hook lib r s = do (d, s') ← take_handle r s; some (call_orig lib d r s')

-- `req->destroy(req)`, by which libeio ends a request.
unfoldable pub call_destroy : Libeio → ℕ → Store → Option Store
call_destroy lib r s = do
  q ← s.reqs r
  elim q.destroy [
    | null ↦ some s
    | hook ↦ destroy_hook lib r s
    | libeio f ↦ some (record s { reqs = Libeio.destroy lib f r s.reqs })
  ]

-- `h->refs++; return h;`
unfoldable pub retain : ℕ → Store → Option (ℕ × Store)
retain a s = do
  h ← s.handles a
  some (a, record s { handles = write s.handles a (some (record h { refs = inc32 h.refs })) })

-- The branch `if (!h)`: `addr` is what `pemalloc` returns.
unfoldable pub new_handle : ℕ → ℕ → Store → Option Store
new_handle r addr s = do
  q ← s.reqs r
  let h : Handle = record { req = some r; refs = 1; orig_destroy = q.destroy }
  some (record s {
    handles = write s.handles addr (some h);
    table = s.table ++ (r, addr) ∷ [];
    reqs = write s.reqs r (some (record q { destroy = hook }));
  })

-- `php_eio_handle_ref`
unfoldable pub handle_ref : ℕ → ℕ → Store → Option (ℕ × Store)
handle_ref r addr s = elim (find r s.table) [
  | none ↦ (do s' ← new_handle r addr s; retain addr s')
  | some a ↦ retain a s
]

-- `php_eio_register_resource`, with the id that `zend_register_resource` gives.
unfoldable pub register_resource : ℕ → Kind → ℕ → Store → Option (ℕ × Store)
register_resource r kind addr s = do
  (a, s') ← handle_ref r addr s
  let res : Resource = record { ptr = some a; kind = kind }
  let resources = (s'.next_id, res) ∷ s'.resources
  some (s'.next_id, record s' { resources = resources; next_id = s'.next_id + 1 })

-- What the resource `id` stands for: a live request, or none.
abbrev pub target : Store → ℕ → Option ℕ
target s id = elim (ptr_of (lookup id s.resources)) [
  | none ↦ none
  | some a ↦ elim (s.handles a) [ none ↦ none | some h ↦ h.req ]
]

-- `zend_fetch_resource`: the pointer, or NULL where the resource is of another kind.
abbrev pub fetch_resource : ℕ → Kind → List (ℕ × Resource) → Option ℕ
fetch_resource id kind rs = elim (lookup id rs) [
  | none ↦ none
  | some res ↦ if same_kind kind res.kind then res.ptr else none
]

-- Whether `zend_fetch_resource` throws a TypeError: the resource is of another type.
unfoldable pub wrong_type : ℕ → Kind → Store → Bool
wrong_type id kind s = elim (lookup id s.resources) [
  | none ↦ true
  | some res ↦ not (same_kind kind res.kind)
]

-- The value of `php_eio_fetch_req`: the request, or NULL (the inner `none`).
unfoldable pub fetch_req : ℕ → Kind → Store → Option (Option ℕ)
fetch_req id kind s = elim (fetch_resource id kind s.resources) [
  | none ↦ some none
  | some a ↦ (do h ← s.handles a; some h.req)
]

-- `php_eio_handle_dtor`, on the resource `id`.
unfoldable pub handle_dtor : ℕ → Store → Option Store
handle_dtor id s = elim (ptr_of (lookup id s.resources)) [
  | none ↦ some s
  | some a ↦ (do s' ← release a s; some (record s' { resources = clear id s'.resources }))
]

-- `if (h->req) h->req->destroy = h->orig_destroy;`
pub restore : Handle → Store → Option Store
restore h s = elim h.req [
  | none ↦ some s
  | some r ↦ (do
    q ← s.reqs r
    some (record s { reqs = write s.reqs r (some (record q { destroy = h.orig_destroy })) }))
]

-- The body of the loop of `php_eio_handles_reset`.
pub reset_entry : ℕ → Store → Option Store
reset_entry a s = do
  h ← s.handles a
  s' ← restore h s
  release a (record s' { handles = write s'.handles a (some (record h { req = none })) })

pub reset_loop : HandleTable → Store → Option Store
reset_loop [] s = some s
reset_loop ((r, a) ∷ t) s = reset_entry a s >>= reset_loop t

-- `php_eio_handles_reset`
pub handles_reset : Store → Option Store
handles_reset s =
    if s.ready then (do s' ← reset_loop s.table s; some (record s' { table = [] })) else some s

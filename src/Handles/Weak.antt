-- ===== src/Handles/Weak.antt =====
-- What the handles promise: a table of weak references to the requests.
use pecl_eio.Base.{ℕ, ◌+◌, ◌≡◌, Bool, true, false, Option, none, some, ◌==◌, if◌then◌else◌, is_some}
use pecl_eio.Handles.{Store, target}
use pecl_eio.Handles.Resources.{Kind, same_kind, Resource, lookup}

-- `live` says which requests are alive, `kind` which resources there are, `ref` what each stands
-- for; `next` is the id of the next resource. There are no handles, counts or hooks here.
pub record Weak : Type 0 where
  pub live : ℕ → Bool
  pub kind : ℕ → Option Kind
  pub ref : ℕ → Option ℕ
  pub next : ℕ

abbrev pub made : ℕ → Weak → Weak
made r u = record u { live = λ k. if r == k then true else u.live k }

abbrev pub other_than : ℕ → Option ℕ → Option ℕ
other_than r none = none
other_than r (some k) = if r == k then none else some k

-- The end of a request clears every reference to it.
abbrev pub ended : ℕ → Weak → Weak
ended r u = record u {
  live = λ k. if r == k then false else u.live k;
  ref = λ id. other_than r (u.ref id);
}

abbrev pub bound : ℕ → Kind → Weak → Weak
bound r kind u = record u {
  kind = λ k. if u.next == k then some kind else u.kind k;
  ref = λ k. if u.next == k then some r else u.ref k;
  next = u.next + 1;
}

abbrev pub dropped : ℕ → Weak → Weak
dropped id u = record u { ref = λ k. if id == k then none else u.ref k }

abbrev pub all_cleared : Weak → Weak
all_cleared u = record u { ref = λ k. none }

pub data WeakStep (u u' : Weak) : Type 0 where
  make : (r : ℕ) → u.live r ≡ false → u' ≡ made r u → WeakStep u u'
  end_of : (r : ℕ) → u.live r ≡ true → u' ≡ ended r u → WeakStep u u'
  bind : (r : ℕ) (kind : Kind) → u.live r ≡ true → u' ≡ bound r kind u → WeakStep u u'
  drop_ref : (id : ℕ) → u' ≡ dropped id u → WeakStep u u'
  clear_all : u' ≡ all_cleared u → WeakStep u u'

pub data WeakReach (u : Weak) : Weak → Type 0 where
  here : WeakReach u u
  next : {v w : Weak} → WeakReach u v → WeakStep v w → WeakReach u w

abbrev pub is_kind : Kind → Option Kind → Bool
is_kind kind none = false
is_kind kind (some k) = same_kind kind k

-- To fetch is to read the reference, if the kind is right.
abbrev pub get : ℕ → Kind → Weak → Option ℕ
get id kind u = if is_kind kind (u.kind id) then u.ref id else none

abbrev pub kind_of : Option Resource → Option Kind
kind_of none = none
kind_of (some res) = some res.kind

-- What a store is to its users.
abbrev pub view : Store → Weak
view s = record {
  live = λ r. is_some (s.reqs r);
  kind = λ id. kind_of (lookup id s.resources);
  ref = target s;
  next = s.next_id;
}

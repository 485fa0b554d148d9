-- ===== src/Ledger/Refused.antt =====
-- Where libeio makes no request: the callback object that was made for it is nobody's.
use pecl_eio.Base.{ℕ, ◌+◌, ◌≡◌, ◌≢◌, refl, sym, Option, none, some, [], arith, ◌∙◌}
use pecl_eio.Base.Int.{ℤ}
use pecl_eio.Zend.{Zval, EioCb, cb, Php}
use pecl_eio.Callbacks.{new_eio_cb}
use pecl_eio.Callbacks.Storing.{new_eio_cb-Stored}
use pecl_eio.Results.Release.{cb_refs}
use pecl_eio.World.{World, Env, IsEnv, Call, false_value, send, ret_resource, request, with_php}
use pecl_eio.Ledger.{Held, Owned, data_in}
use pecl_eio.Ledger.Entries.{listed, Covers-block}

-- The object at `a` takes references, and no request carries it.
pub record Orphan (w : World) (a : ℕ) (p : Php) : Type 0 where
  pub obj : EioCb
  pub was_free : w.php.blocks a ≡ none
  pub is : p.blocks a ≡ some (cb obj)
  pub takes : (i : ℕ) → p.objs i ≡ w.php.objs i + cb_refs i obj
  pub nobody : (r : ℕ) → data_in (w.store.reqs r) ≢ some a

module _ (env : Env) (is : IsEnv env) where
  refused_lem :
      (call : Call) (pri : ℤ) (zcb arg : Option Zval) (w : World) (c : Option ℕ) (p : Php)
      → env.new_request call w.store ≡ none
      → new_eio_cb env.is_callable (env.cb_address w.php) zcb arg w.php ≡ (c, p)
      → request env call pri zcb arg w ≡ some (false_value, with_php w p)
  unfolding request send ret_resource
  refused_lem call pri zcb arg w c p refused made = rw made (rw (refused, send) refl)

  -- What is at an address that is not in use is carried by no request.
  not_carried :
      (u : Held) (w : World) (a : ℕ)
      → Owned [] u w
      → w.php.blocks a ≡ none
      → (r : ℕ) → data_in (w.store.reqs r) ≢ some a
  not_carried u w a (l, has, v) free r e =
      let (c, f) = listed l r a v.covers.distinct (sym (v.carries.carried r) ∙ e) in
      let block = Covers-block u l w.php r a c v.covers f in absurd (ground arith)

  -- With allocators that return unused memory, in a world where a ledger accounts for every
  -- reference and every block that PHP code does not hold, and where libeio makes no request: a
  -- function that makes a callback object and asks libeio for a request returns FALSE, and leaves a
  -- new block that holds the object, with the references that it took to the callback and to
  -- `$data`. No request carries the object, so nothing gives it back.
  pub request-Orphan :
      (call : Call) (pri : ℤ) (zcb arg : Option Zval) (u : Held) (w : World) (a : ℕ) (p : Php)
      → Owned [] u w
      → env.new_request call w.store ≡ none
      → new_eio_cb env.is_callable (env.cb_address w.php) zcb arg w.php ≡ (some a, p)
      → (request env call pri zcb arg w ≡ some (false_value, with_php w p)) × Orphan w a p
  request-Orphan call pri zcb arg u w a p own refused made =
      let (place, s) =
        new_eio_cb-Stored env.is_callable (env.cb_address w.php) zcb arg w.php p a made in
      let free = is.fresh_cb w.php a place in
      (
        refused_lem call pri zcb arg w (some a) p refused made,
        record {
          obj = s.made;
          was_free = free;
          is = ground (arith, s.blocks a);
          takes = λ i. omega (arith, s.objs i);
          nobody = not_carried u w a own free;
        },
      )

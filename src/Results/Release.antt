-- ===== src/Results/Release.antt =====
-- What the end of a completion gives back: the callback object, the parameters and the resource.
use pecl_eio.Base.{
  ℕ, ◌+◌, ◌≤◌, ◌≡◌, refl, Bool, true, false, none, some, arith, ◌==◌, if◌then◌else◌, ◌>>=◌, length,
  Bool-cases, inl, inr, Option,
}
use pecl_eio.Base.Int.{ℤ, is_neg}
use pecl_eio.Base.Returns
use pecl_eio.Base.Returns.{Returns, returns}
use pecl_eio.Request.{EioReq, ReqType, is_plain}
use pecl_eio.Zend.{Zval, EioCb, cb, Php, add_ref, ptr_dtor, efree, warn, cloexec_failed}
use pecl_eio.Callbacks.{free_eio_cb}
use pecl_eio.Callbacks.Balance.{
  refs_in, func_refs, add_ref-Takes, release_zval-Gives, func_info_free-Gives, ptr_dtor-Gives,
}
use pecl_eio.Handles.{Store, target}
use pecl_eio.Handles.Inv.{Inv, Few}
use pecl_eio.Handles.Releasing.{handle_dtor-Released}
use pecl_eio.World.{World, with_php}
use pecl_eio.Results.{effects, drop_req, result_effects, data_param}

-- How many references a callback object holds.
abbrev pub cb_refs : ℕ → EioCb → ℕ
cb_refs i c = func_refs i c.func + refs_in i c.arg

-- The object `c` at `a` was freed, with the references that it held.
pub record Freed (a : ℕ) (c : EioCb) (p p' : Php) : Type 0 where
  pub objs : (i : ℕ) → p.objs i ≡ p'.objs i + cb_refs i c
  pub blocks : (k : ℕ) → p'.blocks k ≡ (if a == k then none else p.blocks k)
  pub errors : p'.errors ≡ p.errors
  pub thrown : p'.thrown ≡ p.thrown
  pub warnings : p'.warnings ≡ p.warnings

pub free_eio_cb-Freed :
    (a : ℕ) (c : EioCb) (p : Php)
    → p.blocks a ≡ some (cb c)
    → ((i : ℕ) → cb_refs i c ≤ p.objs i)
    → Returns (Freed a c p) (free_eio_cb (some a) p)
unfolding free_eio_cb efree
free_eio_cb-Freed a c p is counted = rw is (
    Returns.bind (release_zval-Gives c.arg p (λ i. omega (arith, counted i))) λ q1 g1.
      Returns.bind (func_info_free-Gives c.func q1 (λ i. omega (arith, counted i, g1.refs i)))
        λ q2 g2.
          let held : q2.blocks a ≡ some (cb c) =
            ground (arith, g1.same_blocks a, g2.same_blocks a) in
          rw held (
            returns (record {
              objs = λ i. omega (arith, g1.refs i, g2.refs i);
              blocks = λ b. ground (arith, g1.same_blocks b, g2.same_blocks b);
              errors = ground (arith, g1.same_errors, g2.same_errors);
              thrown = ground (arith, g1.same_thrown, g2.same_thrown);
              warnings = ground (arith, g1.same_warnings, g2.same_warnings);
            })))

pub refs_in-data_param : (z : Zval) (i : ℕ) → refs_in i (data_param z) ≡ refs_in i z
refs_in-data_param z i = ground arith

-- The parameter `$data` is given back after the object is freed.
pub params-Freed :
    (a : ℕ) (c : EioCb) (p : Php)
    → p.blocks a ≡ some (cb c)
    → ((i : ℕ) → cb_refs i c ≤ p.objs i)
    → Returns
        (Freed a c p)
        (free_eio_cb (some a) (add_ref (data_param c.arg) p) >>= ptr_dtor (data_param c.arg))
params-Freed a c p is counted =
    let z = data_param c.arg in
    let t = add_ref-Takes z p in
    Returns.bind
      (free_eio_cb-Freed a c (add_ref z p) (ground (arith, t.same_blocks a))
        (λ i. omega (arith, counted i, t.refs i)))
      λ q f.
        Returns.mono (ptr_dtor-Gives z q (λ i. omega (arith, f.objs i, counted i, t.refs i)))
          λ q' g. record {
            objs = λ i. omega (arith, f.objs i, t.refs i, g.refs i);
            blocks = λ b. ground (arith, f.blocks b, t.same_blocks b, g.same_blocks b);
            errors = ground (arith, f.errors, t.same_errors, g.same_errors);
            thrown = ground (arith, f.thrown, t.same_thrown, g.same_thrown);
            warnings = ground (arith, f.warnings, t.same_warnings, g.same_warnings);
          }

-- The types of requests whose completion does more than to make a value.
abbrev pub touches : ReqType → Bool
touches ReqType.open_file = true
touches ReqType.write = true
touches _ = false

effects_none :
    (cloexec : ℤ → Bool) (t : ReqType) (r : ℕ) (q : EioReq) (w : World)
    → touches t ≡ false
    → effects cloexec t r q w ≡ some w
unfolding effects
effects_none cloexec ReqType.open_file r q w h = absurd (ground arith)
effects_none cloexec ReqType.write r q w h = absurd (ground arith)
effects_none cloexec _ r q w h = refl

pub result_effects_none :
    (cloexec : ℤ → Bool) (r : ℕ) (q : EioReq) (w : World)
    → touches q.type ≡ false
    → result_effects cloexec r q w ≡ some w
unfolding result_effects
result_effects_none cloexec r q w h = ground (arith, effects_none cloexec q.type r q w)

-- A request that is neither of `eio_custom` nor of `eio_write` frees no memory at this point.
pub record Warned (w : World) (out : Option World) : Type 0 where
  pub left : Php
  pub is : out ≡ some (with_php w left)
  pub same_objs : left.objs ≡ w.php.objs
  pub same_blocks : left.blocks ≡ w.php.blocks

warned :
    (w : World) (p : Php)
    → p.objs ≡ w.php.objs
    → p.blocks ≡ w.php.blocks
    → Warned w (some (with_php w p))
warned w p o b = record { left = p; is = refl; same_objs = o; same_blocks = b }

effects-Warned :
    (cloexec : ℤ → Bool) (t : ReqType) (r : ℕ) (q : EioReq) (w : World)
    → is_plain t ≡ true
    → Warned w (effects cloexec t r q w)
unfolding effects
effects-Warned cloexec ReqType.open_file r q w h = elim (Bool-cases (cloexec q.result)) [
  | inl e ↦ rw e (warned w w.php refl refl)
  | inr e ↦ rw e (warned w (warn cloexec_failed w.php) refl refl)
]
effects-Warned cloexec ReqType.write r q w h = absurd (ground arith)
effects-Warned cloexec _ r q w h = warned w w.php refl refl

pub result_effects-Warned :
    (cloexec : ℤ → Bool) (r : ℕ) (q : EioReq) (w : World)
    → is_plain q.type ≡ true
    → Warned w (result_effects cloexec r q w)
unfolding result_effects
result_effects-Warned cloexec r q w h = elim (Bool-cases (is_neg q.result)) [
  | inl e ↦ rw e (warned w w.php refl refl)
  | inr e ↦ rw e (effects-Warned cloexec q.type r q w h)
]

-- The resource goes away, or it stays.
pub record Dropped (kept : Bool) (id : ℕ) (s t : Store) : Type 0 where
  pub inv : Inv t
  pub targets :
      (k : ℕ) → target t k ≡ (if id == k then (if kept then target s k else none) else target s k)
  pub same_reqs : t.reqs ≡ s.reqs
  pub same_ready : t.ready ≡ s.ready
  pub same_length : length t.resources ≡ length s.resources

pub drop_req-Dropped :
    (s : Store) (kept : Bool) (id : ℕ)
    → Inv s
    → Few s
    → Returns (Dropped kept id s) (drop_req kept id s)
unfolding drop_req
drop_req-Dropped s true id v few = returns (record {
  inv = v;
  targets = λ k. ground arith;
  same_reqs = refl;
  same_ready = refl;
  same_length = refl;
})
drop_req-Dropped s false id v few = Returns.mono (handle_dtor-Released s v few id) λ t d. record {
  inv = d.inv;
  targets = d.targets;
  same_reqs = d.same_reqs;
  same_ready = d.same_ready;
  same_length = d.same_length;
}

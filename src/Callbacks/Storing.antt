-- ===== src/Callbacks/Storing.antt =====
-- Where a callback object is made: what is at its address, and which references it holds.
use pecl_eio.Base.{
  false, ℕ, ◌+◌, ◌≡◌, refl, sym, ap, Option, none, some, arith, ◌==◌, if◌then◌else◌,
}
use pecl_eio.Base.Returns
use pecl_eio.Base.Returns.{Returns, returns, result}
use pecl_eio.Zend.{Zval, Callable, FuncInfo, EioCb, EioCbCustom, cb, cb_custom, Php}
use pecl_eio.Callbacks.{
  copy_arg, import_func_info, new_eio_cb, new_eio_cb_custom, import_second, store_cb,
  store_cb_custom,
}
use pecl_eio.Callbacks.Balance.{
  refs_in, func_refs, Takes, func_info_free-Gives, Imported, import_func_info-Imported,
  copy_arg-Takes, Takes-trans,
}

pub record Stored (p : Php) (a : ℕ) (p' : Php) : Type 0 where
  pub made : EioCb
  pub objs : (i : ℕ) → p'.objs i ≡ p.objs i + (func_refs i made.func + refs_in i made.arg)
  pub blocks : (k : ℕ) → p'.blocks k ≡ (if a == k then some (cb made) else p.blocks k)
  pub errors : p'.errors ≡ p.errors
  pub thrown : p'.thrown ≡ p.thrown
  pub warnings : p'.warnings ≡ p.warnings

-- If an object is made.
abbrev pub StoredIf : Php → ℕ → Option ℕ × Php → Type 0
StoredIf p a (none, p') = Unit {0}
StoredIf p a (some b, p') = (b ≡ a) × Stored p a p'

store_cb-Stored :
    (p : Php) (a : ℕ) (arg : Option Zval) (r : Option FuncInfo × Php)
    → Imported p r
    → StoredIf p a (store_cb a arg r)
unfolding store_cb
store_cb-Stored p a arg (none, q) i = tt
store_cb-Stored p a arg (some f, q) i =
    let t = Takes-trans i (copy_arg-Takes arg q) in
    (
      refl,
      record {
        made = record { func = f; arg = (copy_arg arg q).0 };
        objs = λ i. omega (arith, t.refs i);
        blocks = λ k. ground (arith, t.same_blocks k);
        errors = t.same_errors;
        thrown = t.same_thrown;
        warnings = t.same_warnings;
      },
    )

same_outcome :
    (p : Php) (a : ℕ) (out out' : Option ℕ × Php)
    → out' ≡ out
    → StoredIf p a out
    → StoredIf p a out'
same_outcome p a out out' e s = rw e s

same_place : (p p' : Php) (a b : ℕ) → a ≡ b → Stored p b p' → Stored p a p'
same_place p p' a b e s = rw e s

pub new_eio_cb-Stored :
    (is_callable : Zval → Option Callable) (place : Option ℕ) (zcb arg : Option Zval) (p p' : Php)
    (a : ℕ)
    → new_eio_cb is_callable place zcb arg p ≡ (some a, p')
    → (place ≡ some a) × Stored p a p'
unfolding new_eio_cb
new_eio_cb-Stored is_callable none zcb arg p p' a e = cc
new_eio_cb-Stored is_callable (some b) zcb arg p p' a e =
    let r = import_func_info is_callable zcb p in
    let stored = store_cb-Stored p b arg r (import_func_info-Imported is_callable zcb p) in
    let (same, s) = same_outcome p b (store_cb b arg r) (some a, p') (sym e) stored in
    (ap some (sym same), same_place p p' a b same s)

-- The same for the object of `eio_custom`.
pub record StoredCustom (p : Php) (a : ℕ) (p' : Php) : Type 0 where
  pub made : EioCbCustom
  pub objs :
      (i : ℕ)
      → p'.objs i
        ≡ p.objs i + (func_refs i made.func_exec + func_refs i made.func + refs_in i made.arg)
  pub blocks : (k : ℕ) → p'.blocks k ≡ (if a == k then some (cb_custom made) else p.blocks k)
  pub errors : p'.errors ≡ p.errors
  pub thrown : p'.thrown ≡ p.thrown
  pub warnings : p'.warnings ≡ p.warnings

abbrev pub StoredCustomIf : Php → ℕ → Option ℕ × Php → Type 0
StoredCustomIf p a (none, p') = Unit {0}
StoredCustomIf p a (some b, p') = (b ≡ a) × StoredCustom p a p'

module _ (p : Php) (a : ℕ) (is_callable : Zval → Option Callable) (zcb arg : Option Zval) where
  store_cb_custom-Stored :
      (f : FuncInfo) (q : Php)
      → Takes (λ i. func_refs i f) p q
      → (r : Option FuncInfo × Php) → Imported q r
      → Returns (StoredCustomIf p a) (store_cb_custom a f arg r)
  unfolding store_cb_custom
  store_cb_custom-Stored f q t (none, q') i =
      rw i
        (Returns.bind (func_info_free-Gives f _ (λ j. omega (arith, t.refs j))) λ q2 g. returns tt)
  store_cb_custom-Stored f q t (some g, q') i =
      let u = Takes-trans (Takes-trans t i) (copy_arg-Takes arg q') in
      returns (
        refl,
        record {
          made = record { arg = (copy_arg arg q').0; locked = false; func_exec = f; func = g };
          objs = λ i. omega (arith, u.refs i);
          blocks = λ k. ground (arith, u.same_blocks k);
          errors = u.same_errors;
          thrown = u.same_thrown;
          warnings = u.same_warnings;
        },
      )

  import_second-Stored :
      (r : Option FuncInfo × Php)
      → Imported p r
      → Returns (StoredCustomIf p a) (import_second is_callable a zcb arg r)
  unfolding import_second
  import_second-Stored (none, q) i = returns tt
  import_second-Stored (some f, q) i =
      store_cb_custom-Stored f q i (import_func_info is_callable zcb q)
        (import_func_info-Imported is_callable zcb q)

same_custom_place : (p p' : Php) (a b : ℕ) → a ≡ b → StoredCustom p b p' → StoredCustom p a p'
same_custom_place p p' a b e s = rw e s

pub new_eio_cb_custom-Stored :
    (is_callable : Zval → Option Callable) (place : Option ℕ) (zcb zcb_exec arg : Option Zval)
    (p p' : Php) (a : ℕ)
    → new_eio_cb_custom is_callable place zcb zcb_exec arg p ≡ some (some a, p')
    → (place ≡ some a) × StoredCustom p a p'
unfolding new_eio_cb_custom
new_eio_cb_custom-Stored is_callable none zcb zcb_exec arg p p' a e = absurd (ground arith)
new_eio_cb_custom-Stored is_callable (some b) zcb zcb_exec arg p p' a e =
    let (same, s) =
      result
        (import_second-Stored p b is_callable zcb arg (import_func_info is_callable zcb_exec p)
          (import_func_info-Imported is_callable zcb_exec p))
        e in
    (ap some (sym same), same_custom_place p p' a b same s)

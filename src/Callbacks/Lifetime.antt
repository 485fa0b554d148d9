-- ===== src/Callbacks/Lifetime.antt =====
-- The life of a callback object: it is created whole or not at all, and freeing it leaves nothing.
use pecl_eio.Base.{ℕ, ◌+◌, ◌≡◌, refl, inl, inr, ◌⊎◌, Option, none, some, ◌∷◌, arith, write, ==_self}
use pecl_eio.Base.Returns
use pecl_eio.Base.Returns.{Returns, returns}
use pecl_eio.Zend.{
  Zval, Callable, FuncInfo, EioCb, EioCbCustom, cb, cb_custom, Php, efree, invalid_callback,
  invalid_exec_callback,
}
use pecl_eio.Callbacks.{
  import_func_info, free_eio_cb, free_eio_cb_custom, new_eio_cb, new_eio_cb_custom, store_cb,
  store_cb_custom, import_second,
}
use pecl_eio.Callbacks.Balance.{
  refs_in, func_refs, Takes, Imported, import_func_info-Imported, func_info_free-Gives,
  release_zval-Gives, copy_arg-Takes, Takes-trans, Gives-trans,
}

-- Every reference count and every block of `p'` is as in `p`, and nothing was reported.
pub record Restored (p p' : Php) : Type 0 where
  pub objs : (i : ℕ) → p'.objs i ≡ p.objs i
  pub blocks : (a : ℕ) → p'.blocks a ≡ p.blocks a
  pub errors : p'.errors ≡ p.errors
  pub thrown : p'.thrown ≡ p.thrown
  pub warnings : p'.warnings ≡ p.warnings

-- The outcome of making a callback object at `a`: on failure one exception, with one error text
-- that nobody frees; else an object whose destruction restores what was.
abbrev pub Created : Php → ℕ → Option ℕ × Php → Type 0
Created p a (none, p') =
    p' ≡ record p { errors = p.errors + 1; thrown = invalid_callback ∷ p.thrown }
Created p a (some b, p') = (b ≡ a) × Returns (Restored p) (free_eio_cb (some b) p')

module _ (p : Php) (a : ℕ) (free : p.blocks a ≡ none) where
  -- Freeing an object gives back the references that it records.
  free_eio_cb-Restored :
      (q : Php) (c : EioCb)
      → Takes (λ i. func_refs i c.func + refs_in i c.arg) p q
      → Returns
          (Restored p)
          (free_eio_cb (some a) (record q { blocks = write q.blocks a (some (cb c)) }))
  unfolding free_eio_cb efree
  free_eio_cb-Restored q c t = rw (==_self a) (
      Returns.bind (release_zval-Gives c.arg _ (λ i. omega (arith, t.refs i))) λ q1 g1.
        Returns.bind (func_info_free-Gives c.func q1 (λ i. omega (arith, t.refs i, g1.refs i)))
          λ q2 g2.
            let held : q2.blocks a ≡ some (cb c) =
              ground (arith, g1.same_blocks a, g2.same_blocks a) in
            rw held (
              returns (record {
                objs = λ i. omega (arith, t.refs i, g1.refs i, g2.refs i);
                blocks = λ b. ground (arith, t.same_blocks b, g1.same_blocks b, g2.same_blocks b);
                errors = ground (arith, t.same_errors, g1.same_errors, g2.same_errors);
                thrown = ground (arith, t.same_thrown, g1.same_thrown, g2.same_thrown);
                warnings = ground (arith, t.same_warnings, g1.same_warnings, g2.same_warnings);
              })))

  -- At an unused address, a callback object is made whole or not at all. If it is made, it stands
  -- at that address, and freeing it does not fault and restores every reference count and every
  -- block of memory. If the callback cannot be called, one exception is thrown, no reference is
  -- kept, and one error text is never freed.
  pub new_eio_cb-Created :
      (is_callable : Zval → Option Callable) (zcb arg : Option Zval)
      → Created p a (new_eio_cb is_callable (some a) zcb arg p)
  unfolding new_eio_cb
  new_eio_cb-Created is_callable zcb arg =
      by_import (import_func_info is_callable zcb p) (import_func_info-Imported is_callable zcb p)
    where
      by_import : (r : Option FuncInfo × Php) → Imported p r → Created p a (store_cb a arg r)
      by_import (none, q) i = rw i refl
      by_import (some f, q) i =
          (refl, free_eio_cb-Restored _ _ (Takes-trans i (copy_arg-Takes arg q)))

  free_eio_cb_custom-Restored :
      (q : Php) (c : EioCbCustom)
      → Takes (λ i. func_refs i c.func_exec + func_refs i c.func + refs_in i c.arg) p q
      → Returns (Restored p) (
          free_eio_cb_custom (some a) (record q { blocks = write q.blocks a (some (cb_custom c)) }))
  unfolding free_eio_cb_custom efree
  free_eio_cb_custom-Restored q c t = rw (==_self a) (
      Returns.bind (release_zval-Gives c.arg _ (λ i. omega (arith, t.refs i))) λ q1 g1.
        Returns.bind (func_info_free-Gives c.func q1 (λ i. omega (arith, t.refs i, g1.refs i)))
          λ q2 g2.
            Returns.bind
              (func_info_free-Gives c.func_exec q2
                (λ i. omega (arith, t.refs i, g1.refs i, g2.refs i)))
              λ q3 g3.
                let held : q3.blocks a ≡ some (cb_custom c) =
                  ground (arith, g1.same_blocks a, g2.same_blocks a, g3.same_blocks a) in
                let g = Gives-trans (Gives-trans g1 g2) g3 in
                rw held (
                  returns (record {
                    objs = λ i. omega (arith, t.refs i, g.refs i);
                    blocks = λ b. ground (arith, t.same_blocks b, g.same_blocks b);
                    errors = ground (arith, t.same_errors, g.same_errors);
                    thrown = ground (arith, t.same_thrown, g.same_thrown);
                    warnings = ground (arith, t.same_warnings, g.same_warnings);
                  })))

  -- The outcome for `eio_custom`: on failure one exception and one lost error text, with every
  -- reference that was taken on the way given back.
  abbrev pub CreatedCustom : Option ℕ × Php → Type 0
  CreatedCustom (none, p') =
      ((i : ℕ) → p'.objs i ≡ p.objs i)
      × ((b : ℕ) → p'.blocks b ≡ p.blocks b)
      × (p'.errors ≡ p.errors + 1)
      × ((p'.thrown ≡ invalid_exec_callback ∷ p.thrown) ⊎ (p'.thrown ≡ invalid_callback ∷ p.thrown))
  CreatedCustom (some b, p') = (b ≡ a) × Returns (Restored p) (free_eio_cb_custom (some b) p')

  -- At an unused address, making the callback object of `eio_custom` does not fault, and makes it
  -- whole or not at all. If it is made, it stands at that address, and freeing it does not fault
  -- and restores every reference count and every block of memory. If one of the two callbacks
  -- cannot be called, one exception is thrown, every reference that was taken on the way is given
  -- back, and one error text is never freed.
  pub new_eio_cb_custom-Created :
      (is_callable : Zval → Option Callable) (zcb zcb_exec arg : Option Zval)
      → Returns CreatedCustom (new_eio_cb_custom is_callable (some a) zcb zcb_exec arg p)
  unfolding new_eio_cb_custom
  new_eio_cb_custom-Created is_callable zcb zcb_exec arg =
      by_first (import_func_info is_callable zcb_exec p)
        (import_func_info-Imported is_callable zcb_exec p)
    where
      by_second :
          (f : FuncInfo) (q : Php)
          → Takes (λ i. func_refs i f) p q
          → (r : Option FuncInfo × Php) → Imported q r
          → Returns CreatedCustom (store_cb_custom a f arg r)
      by_second f q t (none, q') i = rw i (
          Returns.bind (func_info_free-Gives f _ (λ j. omega (arith, t.refs j))) λ q2 g. returns (
            λ j. omega (arith, t.refs j, g.refs j),
            λ b. ground (arith, t.same_blocks b, g.same_blocks b),
            ground (arith, t.same_errors, g.same_errors),
            inr (ground (arith, t.same_thrown, g.same_thrown)),
          ))
      by_second f q t (some g, q') i = returns (
        refl,
        free_eio_cb_custom-Restored _ _ (Takes-trans (Takes-trans t i) (copy_arg-Takes arg q')),
      )

      by_first :
          (r : Option FuncInfo × Php)
          → Imported p r
          → Returns CreatedCustom (import_second is_callable a zcb arg r)
      by_first (none, q) i = rw i (returns (λ j. refl, λ b. refl, refl, inl refl))
      by_first (some f, q) i =
          by_second f q i (import_func_info is_callable zcb q)
            (import_func_info-Imported is_callable zcb q)

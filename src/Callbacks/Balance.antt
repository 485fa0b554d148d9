-- ===== src/Callbacks/Balance.antt =====
-- References and blocks: what a callback object takes, freeing it gives back.
use pecl_eio.Base.{
  ℕ, ◌≤◌, ◌+◌, ◌≡◌, refl, Option, none, some, arith, ◌==◌, ◌∙◌, if◌then◌else◌, false,
}
use pecl_eio.Base.Returns
use pecl_eio.Base.Returns.{Returns, returns}
use pecl_eio.Zend.{
  Zval, undef, object, counted_at, count_up, count_down, Callable, FuncInfo, Php, add_ref, ptr_dtor,
}
use pecl_eio.Callbacks.{
  import_func_info, import_closure, import_object, release_zval, func_info_free, copy_arg,
}

abbrev pub refs_at : ℕ → Option ℕ → ℕ
refs_at i none = 0
refs_at i (some j) = if j == i then 1 else 0

-- The references that a value holds at the address `i`.
abbrev pub refs_in : ℕ → Zval → ℕ
refs_in i z = refs_at i (counted_at z)

abbrev pub func_refs : ℕ → FuncInfo → ℕ
func_refs i f = refs_in i f.obj + refs_in i f.closure

-- `p'` has `n i` more references to each object `i` than `p`, and else is the same.
pub record Takes (n : ℕ → ℕ) (p p' : Php) : Type 0 where
  pub refs : (i : ℕ) → p'.objs i ≡ p.objs i + n i
  pub same_blocks : (a : ℕ) → p'.blocks a ≡ p.blocks a
  pub same_errors : p'.errors ≡ p.errors
  pub same_thrown : p'.thrown ≡ p.thrown
  pub same_warnings : p'.warnings ≡ p.warnings

-- The other way round: `p'` has given the references back.
abbrev pub Gives : (ℕ → ℕ) → Php → Php → Type 0
Gives n p p' = Takes n p' p

count_up-Takes : (o : Option ℕ) (p : Php) → Takes (λ i. refs_at i o) p (count_up o p)
count_up-Takes none p = ground arith
count_up-Takes (some j) p = ground arith

pub add_ref-Takes : (z : Zval) (p : Php) → Takes (λ i. refs_in i z) p (add_ref z p)
unfolding add_ref
add_ref-Takes z p = count_up-Takes (counted_at z) p

count_down-Gives :
    (o : Option ℕ) (p : Php)
    → ((i : ℕ) → refs_at i o ≤ p.objs i)
    → Returns (Gives (λ i. refs_at i o) p) (count_down o p)
count_down-Gives none p h = returns (ground arith)
count_down-Gives (some j) p h =
    let counted : (p.objs j == 0) ≡ false = ground (arith, h j) in
    rw counted (returns (ground (arith, h j)))

pub ptr_dtor-Gives :
    (z : Zval) (p : Php)
    → ((i : ℕ) → refs_in i z ≤ p.objs i)
    → Returns (Gives (λ i. refs_in i z) p) (ptr_dtor z p)
unfolding ptr_dtor
ptr_dtor-Gives z p h = count_down-Gives (counted_at z) p h

pub release_zval-Gives :
    (z : Zval) (p : Php)
    → ((i : ℕ) → refs_in i z ≤ p.objs i)
    → Returns (Gives (λ i. refs_in i z) p) (release_zval z p)
unfolding release_zval ptr_dtor
release_zval-Gives undef p h = returns (ground arith)
release_zval-Gives z p h = ptr_dtor-Gives z p h

pub Gives-trans :
    {m n : ℕ → ℕ} {p q r : Php} → Gives m p q → Gives n q r → Gives (λ i. m i + n i) p r
Gives-trans g h = record {
  refs = λ i. omega (arith, g.refs i, h.refs i);
  same_blocks = λ a. g.same_blocks a ∙ h.same_blocks a;
  same_errors = g.same_errors ∙ h.same_errors;
  same_thrown = g.same_thrown ∙ h.same_thrown;
  same_warnings = g.same_warnings ∙ h.same_warnings;
}

pub func_info_free-Gives :
    (f : FuncInfo) (p : Php)
    → ((i : ℕ) → func_refs i f ≤ p.objs i)
    → Returns (Gives (λ i. func_refs i f) p) (func_info_free f p)
unfolding func_info_free
func_info_free-Gives f p h =
    Returns.bind (release_zval-Gives f.obj p (λ i. omega (arith, h i))) λ q g.
      Returns.mono (release_zval-Gives f.closure q (λ i. omega (arith, h i, g.refs i)))
        λ r g'. Gives-trans g g'

pub Takes-trans :
    {m n : ℕ → ℕ} {p q r : Php} → Takes m p q → Takes n q r → Takes (λ i. m i + n i) p r
Takes-trans g h = record {
  refs = λ i. omega (arith, g.refs i, h.refs i);
  same_blocks = λ a. h.same_blocks a ∙ g.same_blocks a;
  same_errors = h.same_errors ∙ g.same_errors;
  same_thrown = h.same_thrown ∙ g.same_thrown;
  same_warnings = h.same_warnings ∙ g.same_warnings;
}

import_closure-Takes :
    (z : Zval) (p : Php) → Takes (λ i. refs_in i (import_closure z p).0) p (import_closure z p).1
unfolding import_closure
import_closure-Takes (object j) p = add_ref-Takes (object j) p
import_closure-Takes _ p = ground arith

import_object-Takes :
    (fcc : Callable) (p : Php)
    → Takes (λ i. refs_in i (import_object fcc p).0) p (import_object fcc p).1
unfolding import_object add_ref
import_object-Takes fcc p = ground arith

-- What importing a callback does: it takes the references that the result records, or fails.
abbrev pub Imported : Php → Option FuncInfo × Php → Type 0
Imported p (none, p') = p' ≡ record p { errors = p.errors + 1 }
Imported p (some f, p') = Takes (λ i. func_refs i f) p p'

pub import_func_info-Imported :
    (is_callable : Zval → Option Callable) (zcb : Option Zval) (p : Php)
    → Imported p (import_func_info is_callable zcb p)
unfolding import_func_info
import_func_info-Imported is_callable none p = ground arith
import_func_info-Imported is_callable (some z) p = by_callable (is_callable z) refl
  where
    by_callable :
        (o : Option Callable)
        → is_callable z ≡ o
        → Imported p (import_func_info is_callable (some z) p)
    by_callable none e = rw (e, import_func_info) refl
    by_callable (some fcc) e =
        rw (e, import_func_info)
          (let t = Takes-trans (import_closure-Takes z p) (import_object-Takes fcc _) in
            record {
              refs = λ i. omega (arith, t.refs i);
              same_blocks = t.same_blocks;
              same_errors = t.same_errors;
              same_thrown = t.same_thrown;
              same_warnings = t.same_warnings;
            })

pub copy_arg-Takes :
    (arg : Option Zval) (p : Php) → Takes (λ i. refs_in i (copy_arg arg p).0) p (copy_arg arg p).1
unfolding copy_arg
copy_arg-Takes none p = ground arith
copy_arg-Takes (some z) p = add_ref-Takes z p
